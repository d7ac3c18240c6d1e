-- ===== src/Kernel/PingPong/Plays.antt =====
-- What the program prints, from `main` on.
use operating_system_fa_maf.Common.{
  ℕ, suc, ◌+◌, ◌*◌, ◌<◌, ◌≤◌, ◌≡◌, ◌≢◌, ◌⊎◌, inl, inr, ap, ◌∙◌, false, List, [], ◌∷◌, ◌++◌, arith,
  done, some, ltb, if◌then◌else◌, subst,
}
use operating_system_fa_maf.Common.Int.{ℤ, pos_part}
use operating_system_fa_maf.Kernel.Sem.{Machine, is_open, is_sleeping, maxsem}
use operating_system_fa_maf.Kernel.PingPong.{
  Game, State, Who, child, parent, Line, ping, no_rounds, exited, main, Step, Steps,
}
use operating_system_fa_maf.Kernel.PingPong.Turns.{Turn, due, printing, raising, rounds, whole}
use operating_system_fa_maf.Kernel.PingPong.Finish.{Steps-IsSound, IsSound-Step, IsHead-le}
use operating_system_fa_maf.Kernel.PingPong.Setup.{main-Started}

-- Whole rounds of a ping and a pong, at most `n`, and perhaps one ping more.
abbrev pub Alternates : ℕ → List Line → Type 0
Alternates n ls = ((i : ℕ) × (i ≤ n) × (ls ≡ whole i)) ⊎ ((i : ℕ) × (i < n) × (ls ≡ ping ∷ whole i))

-- The complaint about the number of rounds.
abbrev pub complaint : ℤ → List Line
complaint repetitions = if ltb (pos_part repetitions) 1 then no_rounds ∷ [] else []

Turn-Alternates :
    (g : Game) (st : State) (lines : List Line) → Turn g st lines → Alternates (rounds g) lines
Turn-Alternates g st lines (due child i up low head rest n) =
    inl (i, IsHead-le g i (st.pcs child) head, n)
Turn-Alternates g st lines (due parent i up low head rest n) =
    inr (i, IsHead-le g (suc i) (st.pcs child) rest, n)
Turn-Alternates g st lines (printing child i a b e more rest n) = inl (i, omega arith, n)
Turn-Alternates g st lines (printing parent i a b e more rest n) = inr (i, more, n)
Turn-Alternates g st lines (raising child i a b e more rest n) = inr (i, more, n)
Turn-Alternates g st lines (raising parent i a b e more rest n) = inl (suc i, more, n)

-- With two closed semaphores, two processes that do not sleep and a round of fuel for each semaphore,
-- `main` gets to its loops; from there, in whatever order the processes act, what is printed behind
-- the complaint is at any time whole rounds of a ping and a pong, and perhaps one ping more, and never
-- more rounds than were asked for.
pub main-Alternates :
    (fuel : ℕ) (m : Machine) (repetitions : ℤ) (pid : Who → ℕ) (a b : ℕ)
    → is_open (m.semaphores a).status ≡ false
    → is_open (m.semaphores b).status ≡ false
    → a < b
    → b < maxsem
    → pid child ≢ pid parent
    → ((w : Who) → is_sleeping (m.procs (pid w)).state ≡ false)
    → maxsem < fuel
    → (g : Game) × (st : State) × (main fuel m repetitions (some pid) ≡ done (g, st))
      × ((n : ℕ) (st' : State)
          → Steps g st n st'
          → (ls : List Line) × (st'.output ≡ ls ++ complaint repetitions)
            × Alternates (pos_part repetitions) ls)
main-Alternates fuel m repetitions pid a b shut_a shut_b lt hi two awake enough =
    let (g, st, run, started) =
      main-Started fuel m repetitions pid a b shut_a shut_b lt hi two awake enough in
    (
      g,
      st,
      run,
      λ n st' ran.
          let s = (Steps-IsSound g started.game st.output st st' n started.sound ran).0 in
          (
            s.lines,
            s.shown ∙ ap (λ l. s.lines ++ l) started.complaint,
            subst (λ k. Alternates k s.lines) started.rounds_given
                (Turn-Alternates g st' s.lines s.turn),
          ),
    )

-- With two closed semaphores, two processes that do not sleep and a round of fuel for each semaphore,
-- `main` gets to its loops; from there the processes, in whatever order they act, take at most
-- `12 * n + 10` actions for `n` rounds, and as long as not both have exited with all rounds printed
-- behind the complaint, one of them can act.
pub main_ends :
    (fuel : ℕ) (m : Machine) (repetitions : ℤ) (pid : Who → ℕ) (a b : ℕ)
    → is_open (m.semaphores a).status ≡ false
    → is_open (m.semaphores b).status ≡ false
    → a < b
    → b < maxsem
    → pid child ≢ pid parent
    → ((w : Who) → is_sleeping (m.procs (pid w)).state ≡ false)
    → maxsem < fuel
    → (g : Game) × (st : State) × (main fuel m repetitions (some pid) ≡ done (g, st))
      × ((n : ℕ) (st' : State)
          → Steps g st n st'
          → (n ≤ 12 * pos_part repetitions + 10)
            × ((((w : Who) → st'.pcs w ≡ exited)
                  × (st'.output ≡ whole (pos_part repetitions) ++ complaint repetitions))
                ⊎ ((st'' : State) × Step g st' st'')))
main_ends fuel m repetitions pid a b shut_a shut_b lt hi two awake enough =
    let (g, st, run, started) =
      main-Started fuel m repetitions pid a b shut_a shut_b lt hi two awake enough in
    (
      g,
      st,
      run,
      λ n st' ran.
          let (s, used) = Steps-IsSound g started.game st.output st st' n started.sound ran in
          (
            omega (arith, started.bound, started.rounds_given),
            elim (IsSound-Step g started.game st.output st' s) [
              | inl (out, shown) ↦ inl (
                out,
                shown
                    ∙ ap (λ l. whole (rounds g) ++ l) started.complaint
                    ∙ ap (λ k. whole k ++ complaint repetitions) started.rounds_given,
              )
              | inr step ↦ inr step
            ],
          ),
    )
