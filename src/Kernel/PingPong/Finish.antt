-- ===== src/Kernel/PingPong/Finish.antt =====
-- That the two processes come to their end, whatever the order in which they act.
use operating_system_fa_maf.Common.{
  ℕ, suc, ◌+◌, ◌<◌, ◌≤◌, ◌≡◌, ◌≢◌, refl, sym, ap, ◌∙◌, ◌⊎◌, inl, inr, not, Bool, true, false, List,
  ◌++◌, arith, done, subst, Bool-cases,
}
use operating_system_fa_maf.Common.Int.{pos}
use operating_system_fa_maf.Kernel.PingPong.{
  Game, State, Who, child, parent, other, Pc, at_down, at_print, at_up, at_close_first,
  at_close_second, exited, Line, act, Step, acts, Steps, here, next,
}
use operating_system_fa_maf.Kernel.PingPong.Turns.{
  Turn, due, printing, raising, IsGame, IsSound, Dozes, value, rounds, measure, is_awake, whole,
  round_of_other, printed, IsHead,
}
use operating_system_fa_maf.Kernel.PingPong.Keeps.{Keeps}
use operating_system_fa_maf.Kernel.PingPong.Actions.{act-Keeps}

not-true : (b : Bool) → not b ≡ true → b ≡ false
not-true true h = cc
not-true false h = refl

pub IsHead-le : (g : Game) (i : ℕ) (pc : Pc) → IsHead g i pc → i ≤ rounds g
IsHead-le g i (at_down j) h = omega arith
IsHead-le g i (at_print j) h = absurd h
IsHead-le g i (at_up j) h = absurd h
IsHead-le g i at_close_first h = omega arith
IsHead-le g i at_close_second h = omega arith
IsHead-le g i exited h = omega arith

pos-inj : pos 1 ≢ pos 0
pos-inj e = cc

both : (pcs : Who → Pc) (pc : Pc) → pcs child ≡ pc → pcs parent ≡ pc → (w : Who) → pcs w ≡ pc
both pcs pc c p child = c
both pcs pc c p parent = p

module _ (g : Game) (game : IsGame g) (before : List Line) where
  pub Step-IsSound :
      (st st' : State)
      → IsSound g before st
      → Step g st st'
      → IsSound g before st' × (measure g st' < measure g st)
  unfolding act
  Step-IsSound st st' s (acts w awake e) =
      elim (act-Keeps g game before st s w (st.pcs w) refl (ap not awake)) [
        | inl gone ↦
            let faults : act g st w exited ≡ done st' =
              subst (λ pc. act g st w pc ≡ done st') gone e in
            cc
        | inr k ↦
            let same : k.after ≡ st' = cc (k.acted, e) in
            (
              subst (IsSound g before) same k.sound,
              subst (λ x. measure g x < measure g st) same k.nearer,
            )
      ]

  -- Each step uses up the measure.
  pub Steps-IsSound :
      (st st' : State) (n : ℕ)
      → IsSound g before st
      → Steps g st n st'
      → IsSound g before st' × (n + measure g st' ≤ measure g st)
  Steps-IsSound st _ _ s here = (s, omega arith)
  Steps-IsSound st _ _ s (next {st' = st1} {st'' = st2} n ran step) =
      let (s1, used) = Steps-IsSound st st1 n s ran in
      let (s2, less) = Step-IsSound st1 st2 s1 step in (s2, omega arith)

  module _ (st : State) (s : IsSound g before st) where
    Keeps-Step :
        (w : Who) → is_awake g st w ≡ true → Keeps g before st w → (st' : State) × Step g st st'
    Keeps-Step w awake k = (k.after, acts w (not-true _ awake) k.acted)

    awake_or : (w : Who) → (is_awake g st w ≡ true) ⊎ Dozes g st w
    awake_or w = elim (Bool-cases (is_awake g st w)) [
      | inl awake ↦ inl awake
      | inr asleep ↦ inr (s.dozing w asleep)
    ]

    -- Who is awake and has not exited can act.
    Step-awake :
        (w : Who) → is_awake g st w ≡ true → (st.pcs w ≡ exited) ⊎ ((st' : State) × Step g st st')
    Step-awake w awake = elim (act-Keeps g game before st s w (st.pcs w) refl awake) [
      | inl gone ↦ inl gone
      | inr k ↦ inr (Keeps-Step w awake k)
    ]

    -- Both have exited, and all lines are printed.
    abbrev pub IsOver : Type 0
    IsOver = ((w : Who) → st.pcs w ≡ exited) × (st.output ≡ whole (rounds g) ++ before)

    busy-Step :
        (w : Who)
        → st.pcs w ≢ exited
        → ((i : ℕ) → st.pcs w ≢ at_down i)
        → (st' : State) × Step g st st'
    busy-Step w on up = elim (awake_or w) [
      | inl awake ↦ elim (Step-awake w awake) [ inl gone ↦ absurd (on gone) | inr step ↦ step ]
      | inr d ↦ absurd (up d.round d.stands)
    ]

    -- The child has exited, at its turn: the parent is past its loop.
    parent-last :
        (i : ℕ)
        → st.pcs child ≡ exited
        → i ≡ rounds g
        → IsHead g i (st.pcs parent)
        → s.lines ≡ whole i
        → IsOver ⊎ ((st' : State) × Step g st st')
    parent-last i gone last head lines = elim (awake_or parent) [
      | inl awake ↦ elim (Step-awake parent awake) [
        | inl out ↦
            inl
              (both st.pcs exited gone out, s.shown ∙ ap (λ l. l ++ before) (lines ∙ ap whole last))
        | inr step ↦ inr step
      ]
      | inr d ↦
          let at : IsHead g i (at_down d.round) = subst (IsHead g i) d.stands head in
          absurd (omega (arith, at.1))
    ]

    -- The parent has not exited at its turn: the child is a round ahead.
    exited-Step :
        (w : Who) (i : ℕ)
        → st.pcs w ≡ exited
        → i ≡ rounds g
        → IsHead g (round_of_other w i) (st.pcs (other w))
        → s.lines ≡ printed w i
        → IsOver ⊎ ((st' : State) × Step g st st')
    exited-Step child i gone last rest lines = parent-last i gone last rest lines
    exited-Step parent i gone last rest lines =
        absurd (omega (arith, IsHead-le g (suc i) (st.pcs child) rest))

    due-Step :
        (w : Who) (i : ℕ)
        → value g st w ≡ pos 1
        → IsHead g i (st.pcs w)
        → IsHead g (round_of_other w i) (st.pcs (other w))
        → s.lines ≡ printed w i
        → IsOver ⊎ ((st' : State) × Step g st st')
    due-Step w i up head rest lines = elim (awake_or w) [
      | inl awake ↦ elim (Step-awake w awake) [
        | inl gone ↦ exited-Step w i gone (subst (IsHead g i) gone head) rest lines
        | inr step ↦ inr step
      ]
      | inr d ↦ absurd (pos-inj (sym up ∙ d.down))
    ]

    Turn-Step :
        (lines : List Line)
        → Turn g st lines
        → s.lines ≡ lines
        → IsOver ⊎ ((st' : State) × Step g st st')
    Turn-Step lines (due w i up low head rest n) same = due-Step w i up head rest (same ∙ n)
    Turn-Step lines (printing w i a b e more rest n) same = inr (busy-Step w (λ h. cc) (λ j h. cc))
    Turn-Step lines (raising w i a b e more rest n) same = inr (busy-Step w (λ h. cc) (λ j h. cc))

    -- There is always somebody who can act, until the end.
    pub IsSound-Step : IsOver ⊎ ((st' : State) × Step g st st')
    IsSound-Step = Turn-Step s.lines s.turn refl
