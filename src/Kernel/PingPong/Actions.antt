-- ===== src/Kernel/PingPong/Actions.antt =====
-- That each action of a process keeps the turns and brings the end nearer.
use operating_system_fa_maf.Common.{
  ℕ, ◌<◌, ◌≡◌, ◌≢◌, refl, ap, ◌∙◌, true, List, ◌∷◌, arith, done, inl, inr, ◌⊎◌, ◌>>=◌, subst,
}
use operating_system_fa_maf.Common.Int.{pos}
use operating_system_fa_maf.Kernel.Sem.{update_sem, closed, sem_close, maxsem}
use operating_system_fa_maf.Kernel.Sem.Calls.{update_sem-procs, sem_close_lem, update_sem-value}
use operating_system_fa_maf.Kernel.PingPong.{
  Game, State, Who, other, Pc, at_down, at_print, at_up, at_close_first, at_close_second, exited,
  Line, waits_on, prints, at_pc, act,
}
use operating_system_fa_maf.Kernel.PingPong.Turns.{
  raising, IsGame, IsSound, value, work, is_awake, awake_count, Turn-moved, Turn-print, Turn-down,
  printed, IsHead,
}
use operating_system_fa_maf.Kernel.PingPong.Pcs.{set_pc_self, set_pc-other}
use operating_system_fa_maf.Kernel.PingPong.Keeps.{Keeps, keep_dozing, measure-lt}
use operating_system_fa_maf.Kernel.PingPong.Down.{take-Keeps, doze-Keeps}
use operating_system_fa_maf.Kernel.PingPong.Up.{raise-Keeps}

module _ (g : Game) (game : IsGame g) (before : List Line) (st : State)
    (s : IsSound g before st) where
  print-Keeps :
      (w : Who) (i : ℕ) → is_awake g st w ≡ true → st.pcs w ≡ at_print i → Keeps g before st w
  unfolding act
  print-Keeps w i awake e =
      let (holds, printed) = Turn-print g st s.lines w i e s.turn in
      let after : State = at_pc (record st { output = prints w ∷ st.output }) w (at_up i) in
      let moved : after.pcs w ≡ at_up i = set_pc_self st.pcs w (at_up i) in
      let rest : after.pcs (other w) ≡ st.pcs (other w) = set_pc-other st.pcs w (at_up i) in
      record {
        after = after;
        acted = rw e refl;
        sound = record {
          lines = prints w ∷ s.lines;
          turn =
              raising w i holds.mine holds.theirs moved holds.more (rw rest holds.rest)
                (ap (λ l. prints w ∷ l) printed);
          shown = ap (λ l. prints w ∷ l) s.shown;
          dozing = keep_dozing g game before st s after w awake refl refl rest;
        };
        nearer =
            measure-lt g game before st s after w 0 awake rest (omega arith)
              (omega (arith, ap (work g) e, ap (work g) moved, ap awake_count awake));
      }

  -- One of the two closings behind the loop.
  close-Keeps :
      (w : Who) (sem : ℕ) (pc : Pc)
      → is_awake g st w ≡ true
      → sem < maxsem
      → act g st w (st.pcs w)
        ≡ (sem_close st.machine (pos sem) >>= λ r. done (at_pc (record st { machine = r.1 }) w pc))
      → ((j : ℕ) → st.pcs w ≢ at_print j)
      → ((j : ℕ) → st.pcs w ≢ at_up j)
      → ((j : ℕ) → IsHead g j (st.pcs w) → IsHead g j pc)
      → work g pc < work g (st.pcs w)
      → Keeps g before st w
  close-Keeps w sem pc awake small closes np nu keep less =
      let shut = record (st.machine.semaphores sem) { status = closed } in
      let m = update_sem st.machine sem shut in
      let after : State = at_pc (record st { machine = m }) w pc in
      let moved : after.pcs w ≡ pc = set_pc_self st.pcs w pc in
      let rest : after.pcs (other w) ≡ st.pcs (other w) = set_pc-other st.pcs w pc in
      let same : (v : Who) → value g after v ≡ value g st v =
        λ v. update_sem-value st.machine sem shut (waits_on g v) refl in
      let procs = λ (j : ℕ). update_sem-procs st.machine sem shut j in
      let still : is_awake g after w ≡ true = rw (procs (g.pid w)) awake in
      record {
        after = after;
        acted = closes ∙ rw (sem_close_lem st.machine sem small) refl;
        sound = record {
          lines = s.lines;
          turn =
              Turn-moved g st after s.lines w same np nu (λ j h. rw moved (keep j h)) rest s.turn;
          shown = s.shown;
          dozing =
              keep_dozing g game before st s after w still (procs (g.pid (other w)))
                (same (other w)) rest;
        };
        nearer =
            measure-lt g game before st s after w 0 awake rest
              (rw (procs (g.pid (other w))) (omega arith))
              (omega (arith, ap (work g) moved, ap awake_count still));
      }

  -- A process that is awake acts, if it has not exited.
  pub act-Keeps :
      (w : Who) (pc : Pc)
      → st.pcs w ≡ pc
      → is_awake g st w ≡ true
      → (st.pcs w ≡ exited) ⊎ Keeps g before st w
  unfolding act
  act-Keeps w (at_down i) e awake = elim (Turn-down g st s.lines w i e s.turn) [
    | inl down ↦ inr (doze-Keeps g game before st s w i awake e down)
    | inr (up, low, more, head, lines) ↦
        inr (take-Keeps g game before st s w i awake e up low more head lines)
  ]
  act-Keeps w (at_print i) e awake = inr (print-Keeps w i awake e)
  act-Keeps w (at_up i) e awake = inr (raise-Keeps g game before st s w i awake e)
  act-Keeps w at_close_first e awake = inr (
      close-Keeps w g.sem_name_f at_close_second awake game.first_small (rw (e, act) refl)
        (λ j h. cc) (λ j h. cc) (λ j h. subst (IsHead g j) e h) (omega (arith, ap (work g) e)))
  act-Keeps w at_close_second e awake = inr (
      close-Keeps w g.sem_name_s exited awake game.second_small (rw (e, act) refl) (λ j h. cc)
        (λ j h. cc) (λ j h. subst (IsHead g j) e h) (omega (arith, ap (work g) e)))
  act-Keeps w exited e awake = inl e
