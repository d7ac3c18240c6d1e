-- ===== src/Kernel/PingPong/Keeps.antt =====
-- What an action of a process is to keep, and what nothing but its own state takes part in.
use operating_system_fa_maf.Common.{
  ℕ, ◌+◌, ◌*◌, ◌<◌, ◌≤◌, ◌≡◌, ap, ◌∙◌, true, false, List, arith, done,
}
use operating_system_fa_maf.Kernel.PingPong.{Game, State, Who, child, parent, other, Line, act}
use operating_system_fa_maf.Kernel.PingPong.Turns.{
  IsGame, IsSound, Dozes, value, measure, work, is_awake, awake_count,
}

-- What an action gives.
pub record Keeps (g : Game) (before : List Line) (st : State) (w : Who) : Type 0 where
  pub after : State
  pub acted : act g st w (st.pcs w) ≡ done after
  pub sound : IsSound g before after
  pub nearer : measure g after < measure g st

module _ (g : Game) (game : IsGame g) (before : List Line) (st : State)
    (s : IsSound g before st) where
  -- The process that has acted is awake, and nothing has changed for the other one.
  pub keep_dozing :
      (st' : State) (w : Who)
      → is_awake g st' w ≡ true
      → st'.machine.procs (g.pid (other w)) ≡ st.machine.procs (g.pid (other w))
      → value g st' (other w) ≡ value g st (other w)
      → st'.pcs (other w) ≡ st.pcs (other w)
      → (v : Who) → is_awake g st' v ≡ false
      → Dozes g st' v
  keep_dozing st' child awake procs same pcs child asleep = cc
  keep_dozing st' child awake procs same pcs parent asleep =
      let d = s.dozing parent (rw (← procs) asleep) in
      record {
        round = d.round;
        chan = rw procs d.chan;
        down = same ∙ d.down;
        stands = pcs ∙ d.stands;
      }
  keep_dozing st' parent awake procs same pcs parent asleep = cc
  keep_dozing st' parent awake procs same pcs child asleep =
      let d = s.dozing child (rw (← procs) asleep) in
      record {
        round = d.round;
        chan = rw procs d.chan;
        down = same ∙ d.down;
        stands = pcs ∙ d.stands;
      }

  -- The measure falls where the work falls, and by two where somebody wakes up.
  pub measure-lt :
      (st' : State) (w : Who) (woken : ℕ)
      → is_awake g st w ≡ true
      → st'.pcs (other w) ≡ st.pcs (other w)
      → awake_count (is_awake g st' (other w)) ≤ awake_count (is_awake g st (other w)) + woken
      → 2 * work g (st'.pcs w) + awake_count (is_awake g st' w) + woken < 2 * work g (st.pcs w) + 1
      → measure g st' < measure g st
  measure-lt st' child woken awake rest others less =
      omega (arith, ap (work g) rest, ap awake_count awake)
  measure-lt st' parent woken awake rest others less =
      omega (arith, ap (work g) rest, ap awake_count awake)
