-- ===== src/Kernel/PingPong/Down.antt =====
-- A process lowers its semaphore, or goes to sleep on it.
use operating_system_fa_maf.Common.{ℕ, ◌<◌, ◌≡◌, refl, ap, ◌∙◌, not, true, false, List, some, arith}
use operating_system_fa_maf.Common.Int.{pos}
use operating_system_fa_maf.Kernel.Sem.{sleeping, is_sleeping, update_sem, sleep}
use operating_system_fa_maf.Kernel.Sem.Calls.{
  update_sem_self, update_sem_other, update_sem-procs, sem_down_taken, sem_down_asleep, sleep_self,
  sleep_other,
}
use operating_system_fa_maf.Kernel.PingPong.{
  Game, State, Who, child, parent, other, at_down, at_print, Line, waits_on, at_pc, act,
}
use operating_system_fa_maf.Kernel.PingPong.Turns.{
  printing, IsGame, IsSound, Dozes, value, rounds, work, is_awake, awake_count, Turn-moved,
  round_of_other, printed, IsHead,
}
use operating_system_fa_maf.Kernel.PingPong.Pcs.{
  waits_on-lt, waits_on-other, pid_other, set_pc_self, set_pc-other,
}
use operating_system_fa_maf.Kernel.PingPong.Keeps.{Keeps, keep_dozing, measure-lt}

module _ (g : Game) (game : IsGame g) (before : List Line) (st : State)
    (s : IsSound g before st) where
  -- The process takes its semaphore, which is up.
  pub take-Keeps :
      (w : Who) (i : ℕ)
      → is_awake g st w ≡ true
      → st.pcs w ≡ at_down i
      → value g st w ≡ pos 1
      → value g st (other w) ≡ pos 0
      → i < rounds g
      → IsHead g (round_of_other w i) (st.pcs (other w))
      → s.lines ≡ printed w i
      → Keeps g before st w
  unfolding act
  take-Keeps w i awake e up low more head lines =
      let a = waits_on g w in
      let taken = record (st.machine.semaphores a) { value = pos 0 } in
      let m = update_sem st.machine a taken in
      let after : State = at_pc (record st { machine = m }) w (at_print i) in
      let moved : after.pcs w ≡ at_print i = set_pc_self st.pcs w (at_print i) in
      let rest : after.pcs (other w) ≡ st.pcs (other w) = set_pc-other st.pcs w (at_print i) in
      let down : value g after w ≡ pos 0 = ap (λ x. x.value) (update_sem_self st.machine a taken) in
      let same : value g after (other w) ≡ value g st (other w) =
        ap (λ x. x.value)
          (update_sem_other st.machine a taken (waits_on g (other w)) (waits_on-other game w)) in
      let procs = λ (j : ℕ). update_sem-procs st.machine a taken j in
      let still : is_awake g after w ≡ true = rw (procs (g.pid w)) awake in
      record {
        after = after;
        acted = rw (e, act, sem_down_taken st.machine a (waits_on-lt game w) (g.pid w) up) refl;
        sound = record {
          lines = s.lines;
          turn = printing w i down (same ∙ low) moved more (rw rest head) lines;
          shown = s.shown;
          dozing = keep_dozing g game before st s after w still (procs (g.pid (other w))) same rest;
        };
        nearer =
            measure-lt g game before st s after w 0 awake rest
              (rw (procs (g.pid (other w))) (omega arith))
              (omega (arith, ap (work g) e, ap (work g) moved, ap awake_count still));
      }

  doze_dozing :
      (w : Who) (i : ℕ) (after : State)
      → after.machine.procs (g.pid w) ≡ record { state = sleeping; chan = some (waits_on g w) }
      → after.machine.procs (g.pid (other w)) ≡ st.machine.procs (g.pid (other w))
      → ((v : Who) → value g after v ≡ value g st v)
      → after.pcs ≡ st.pcs
      → st.pcs w ≡ at_down i
      → value g st w ≡ pos 0
      → (v : Who) → is_awake g after v ≡ false
      → Dozes g after v
  doze_dozing child i after mine theirs same pcs e low child asleep = record {
    round = i;
    chan = ap (λ p. p.chan) mine;
    down = same child ∙ low;
    stands = rw pcs e;
  }
  doze_dozing child i after mine theirs same pcs e low parent asleep =
      let d = s.dozing parent (rw (← theirs) asleep) in
      record {
        round = d.round;
        chan = rw theirs d.chan;
        down = same parent ∙ d.down;
        stands = rw pcs d.stands;
      }
  doze_dozing parent i after mine theirs same pcs e low parent asleep = record {
    round = i;
    chan = ap (λ p. p.chan) mine;
    down = same parent ∙ low;
    stands = rw pcs e;
  }
  doze_dozing parent i after mine theirs same pcs e low child asleep =
      let d = s.dozing child (rw (← theirs) asleep) in
      record {
        round = d.round;
        chan = rw theirs d.chan;
        down = same child ∙ d.down;
        stands = rw pcs d.stands;
      }

  pub doze-Keeps :
      (w : Who) (i : ℕ)
      → is_awake g st w ≡ true
      → st.pcs w ≡ at_down i
      → value g st w ≡ pos 0
      → Keeps g before st w
  unfolding act sleep
  doze-Keeps w i awake e low =
      let a = waits_on g w in
      let after : State = record st { machine = sleep st.machine (g.pid w) a } in
      let mine = sleep_self st.machine (g.pid w) a in
      let theirs = sleep_other st.machine (g.pid w) a (g.pid (other w)) (pid_other game w) in
      let asleep : is_awake g after w ≡ false = ap (λ p. not (is_sleeping p.state)) mine in
      let others : is_awake g after (other w) ≡ is_awake g st (other w) =
        ap (λ p. not (is_sleeping p.state)) theirs in
      record {
        after = after;
        acted = rw (e, act, sem_down_asleep st.machine a (waits_on-lt game w) (g.pid w) low) refl;
        sound = record {
          lines = s.lines;
          turn =
              Turn-moved g st after s.lines w (λ v. refl) (λ j h. cc) (λ j h. cc) (λ j h. h) refl
                s.turn;
          shown = s.shown;
          dozing = doze_dozing w i after mine theirs (λ v. refl) refl e low;
        };
        nearer =
            measure-lt g game before st s after w 0 awake refl
              (omega (arith, ap awake_count others)) (omega (arith, ap awake_count asleep));
      }
