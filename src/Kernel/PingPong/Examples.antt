-- ===== src/Kernel/PingPong/Examples.antt =====
-- Two rounds on a machine whose semaphores are all closed.
use operating_system_fa_maf.Common.{ℕ, ◌≤◌, ◌≡◌, ◌⊎◌, refl, List, ◌++◌, some, none, done, arith}
use operating_system_fa_maf.Common.Int.{pos}
use operating_system_fa_maf.Kernel.Sem.{Machine, closed, running}
use operating_system_fa_maf.Kernel.PingPong.{
  Game, State, Who, child, parent, Line, exited, main, Step, Steps,
}
use operating_system_fa_maf.Kernel.PingPong.Turns.{whole}
use operating_system_fa_maf.Kernel.PingPong.Plays.{
  Alternates, complaint, main-Alternates, main_ends,
}

abbrev fresh : Machine
fresh = record {
  semaphores = λ i. record { value = pos 0; status = closed };
  procs = λ j. record { state = running; chan = none };
}

abbrev pids : Who → ℕ
pids child = 4
pids parent = 3

main-Alternates_example :
    (g : Game) × (st : State) × (main 65 fresh (pos 2) (some pids) ≡ done (g, st))
    × ((n : ℕ) (st' : State)
        → Steps g st n st'
        → (ls : List Line) × (st'.output ≡ ls ++ complaint (pos 2)) × Alternates 2 ls)
main-Alternates_example =
    main-Alternates 65 fresh (pos 2) pids 0 1 refl refl (omega arith) (omega arith) (omega arith)
      (λ w. refl) (omega arith)

main_ends_example :
    (g : Game) × (st : State) × (main 65 fresh (pos 2) (some pids) ≡ done (g, st))
    × ((n : ℕ) (st' : State)
        → Steps g st n st'
        → (n ≤ 34)
          × ((((w : Who) → st'.pcs w ≡ exited) × (st'.output ≡ whole 2 ++ complaint (pos 2)))
              ⊎ ((st'' : State) × Step g st' st'')))
main_ends_example =
    main_ends 65 fresh (pos 2) pids 0 1 refl refl (omega arith) (omega arith) (omega arith)
      (λ w. refl) (omega arith)
