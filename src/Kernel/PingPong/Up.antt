-- ===== src/Kernel/PingPong/Up.antt =====
-- A process raises the other's semaphore.
use operating_system_fa_maf.Common.{ℕ, suc, ◌≡◌, refl, ap, ◌∙◌, not, true, false, List, ◌∷◌, arith}
use operating_system_fa_maf.Common.Int.{pos}
use operating_system_fa_maf.Kernel.Sem.{is_sleeping, update_sem, wakeup}
use operating_system_fa_maf.Kernel.Sem.Calls.{
  update_sem_self, update_sem_other, update_sem-procs, sem_up_raised, wakeup_self, wakeup_awake,
}
use operating_system_fa_maf.Kernel.PingPong.{
  Game, State, Who, child, parent, other, at_up, Line, waits_on, prints, loop_head, at_pc, act,
}
use operating_system_fa_maf.Kernel.PingPong.Turns.{
  Turn, due, IsGame, IsSound, Dozes, Holds, value, work, is_awake, awake_count, Turn-up, printed,
  IsHead,
}
use operating_system_fa_maf.Kernel.PingPong.Pcs.{
  waits_on-lt, waits_on_self, pid_other, set_pc_self, set_pc-other, work-loop_head,
  loop_head-IsHead,
}
use operating_system_fa_maf.Kernel.PingPong.Keeps.{Keeps, measure-lt}

module _ (g : Game) (game : IsGame g) (before : List Line) (st : State)
    (s : IsSound g before st) where
  -- The turn goes to the other process.
  Turn-raised :
      (after : State) (w : Who) (i : ℕ)
      → Holds g st w i
      → value g after (other w) ≡ pos 1
      → value g after w ≡ pos 0
      → IsHead g (suc i) (after.pcs w)
      → after.pcs (other w) ≡ st.pcs (other w)
      → s.lines ≡ prints w ∷ printed w i
      → Turn g after s.lines
  Turn-raised after child i holds up low head rest lines =
      due parent i up low (rw rest holds.rest) head lines
  Turn-raised after parent i holds up low head rest lines =
      due child (suc i) up low (rw rest holds.rest) head lines

  all_awake :
      (after : State) (w : Who)
      → is_awake g after w ≡ true
      → is_awake g after (other w) ≡ true
      → (v : Who) → is_awake g after v ≡ false
      → Dozes g after v
  all_awake after child mine theirs child asleep = cc
  all_awake after child mine theirs parent asleep = cc
  all_awake after parent mine theirs child asleep = cc
  all_awake after parent mine theirs parent asleep = cc

  -- The process raises the other's semaphore, which is down, and wakes the other up.
  pub raise-Keeps :
      (w : Who) (i : ℕ) → is_awake g st w ≡ true → st.pcs w ≡ at_up i → Keeps g before st w
  unfolding act wakeup
  raise-Keeps w i awake e =
      let (holds, lines) = Turn-up g st s.lines w i e s.turn in
      let a = waits_on g (other w) in
      let me = g.pid w in
      let they = g.pid (other w) in
      let raised = record (st.machine.semaphores a) { value = pos 1 } in
      let m1 = wakeup st.machine me a in
      let m = update_sem m1 a raised in
      let pc = loop_head g (suc i) in
      let after : State = at_pc (record st { machine = m }) w pc in
      let moved : after.pcs w ≡ pc = set_pc_self st.pcs w pc in
      let rest : after.pcs (other w) ≡ st.pcs (other w) = set_pc-other st.pcs w pc in
      let up : value g after (other w) ≡ pos 1 = ap (λ x. x.value) (update_sem_self m1 a raised) in
      let same : value g after w ≡ value g st w =
        ap (λ x. x.value) (update_sem_other m1 a raised (waits_on g w) (waits_on_self game w)) in
      let mine : is_awake g after w ≡ true =
        rw (update_sem-procs m1 a raised me, wakeup_self st.machine me a) awake in
      let woken : is_sleeping (m1.procs they).state ≡ false =
        wakeup_awake st.machine me a they (pid_other game w)
          (λ asleep. (s.dozing (other w) (ap not asleep)).chan) in
      let theirs : is_awake g after (other w) ≡ true =
        rw (update_sem-procs m1 a raised they) (ap not woken) in
      record {
        after = after;
        acted =
            rw (e, act, sem_up_raised st.machine a (waits_on-lt game (other w)) me holds.theirs)
              refl;
        sound = record {
          lines = s.lines;
          turn =
              Turn-raised after w i holds up (same ∙ holds.mine)
                (rw moved (loop_head-IsHead g (suc i) holds.more)) rest lines;
          shown = s.shown;
          dozing = all_awake after w mine theirs;
        };
        nearer =
            measure-lt g game before st s after w 1 awake rest
              (omega (arith, ap awake_count theirs))
              (omega (
                arith,
                ap (work g) e,
                ap (work g) moved,
                ap awake_count mine,
                work-loop_head g i holds.more,
              ));
      }
