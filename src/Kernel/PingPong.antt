-- ===== src/Kernel/PingPong.antt =====
-- lab2/user/pingpong.c: two processes that take turns through two semaphores of Kernel.Sem. A system
-- call of a semaphore is one action of a process, and so is a line that it prints; the processes act
-- in any order. Memory and the numbers of the processes are left out.
pub mod Turns
pub mod Pcs
pub mod Keeps
pub mod Down
pub mod Up
pub mod Actions
pub mod Finish
pub mod Setup
pub mod Plays
mod Examples
use operating_system_fa_maf.Common.{
  ℕ, zero, suc, ◌+◌, ◌≡◌, Bool, true, false, List, [], ◌∷◌, ◌++◌, Option, none, some, ltb, ◌==◌,
  if◌then◌else◌, Run, done, fault, out_of_fuel, ◌>>=◌,
}
use operating_system_fa_maf.Common.Int.{ℤ, pos, negsuc, pos_part}
use operating_system_fa_maf.Kernel.Sem.{Machine, is_sleeping, sem_open, sem_close, sem_up, sem_down}

-- A line of the program's output.
pub data Line : Type 0 where
  no_rounds no_fork ping pong : Line

-- The two processes behind `fork`: the child prints ping, the parent pong.
pub data Who : Type 0 where
  child parent : Who

abbrev pub other : Who → Who
other child = parent
other parent = child

-- Where a process stands: in a round, before its `sem_down`, its `printf` or its `sem_up`; before
-- the closing of the first or of the second semaphore; behind `exit`.
pub data Pc : Type 0 where
  at_down at_print at_up : ℕ → Pc
  at_close_first at_close_second exited : Pc

-- What a process is given: the number of rounds, the two semaphores, and how the kernel knows it.
pub record Game : Type 0 where
  pub repetitions : ℤ
  pub sem_name_f : ℕ
  pub sem_name_s : ℕ
  pub pid : Who → ℕ

-- The lines that were printed stand with the last one first.
pub record State : Type 0 where
  pub machine : Machine
  pub output : List Line
  pub pcs : Who → Pc

-- The arguments of `print_ping` and `print_pong`: the one waits on the first semaphore and raises
-- the second, the other does the reverse.
abbrev pub waits_on : Game → Who → ℕ
waits_on g child = g.sem_name_f
waits_on g parent = g.sem_name_s

abbrev pub prints : Who → Line
prints child = ping
prints parent = pong

-- The test of the `for` loop.
abbrev pub loop_head : Game → ℕ → Pc
loop_head g i = if ltb i (pos_part g.repetitions) then at_down i else at_close_first

abbrev pub set_pc : (Who → Pc) → Who → Pc → Who → Pc
set_pc pcs child pc child = pc
set_pc pcs child pc parent = pcs parent
set_pc pcs parent pc child = pcs child
set_pc pcs parent pc parent = pc

abbrev pub at_pc : State → Who → Pc → State
at_pc st w pc = record st { pcs = set_pc st.pcs w pc }

-- Behind `sem_down`: a process that has gone to sleep will try again.
abbrev pub after_down : State → Who → ℕ → Option ℕ × Machine → State
after_down st w i (none, m) = record st { machine = m }
after_down st w i (some r, m) = at_pc (record st { machine = m }) w (at_print i)

-- The next action of a process that stands at `pc`.
unfoldable pub act : Game → State → Who → Pc → Run State
act g st w (at_down i) =
    sem_down st.machine (g.pid w) (pos (waits_on g w)) >>= λ r. done (after_down st w i r)
act g st w (at_print i) = done (at_pc (record st { output = prints w ∷ st.output }) w (at_up i))
act g st w (at_up i) = sem_up st.machine (g.pid w) (pos (waits_on g (other w))) >>= λ r.
    done (at_pc (record st { machine = r.1 }) w (loop_head g (suc i)))
act g st w at_close_first = sem_close st.machine (pos g.sem_name_f) >>= λ r.
    done (at_pc (record st { machine = r.1 }) w at_close_second)
act g st w at_close_second = sem_close st.machine (pos g.sem_name_s) >>= λ r.
    done (at_pc (record st { machine = r.1 }) w exited)
act g st w exited = fault

-- Either process acts, unless it sleeps or has exited.
pub data Step (g : Game) (st : State) : State → Type 0 where
  acts :
      {st' : State} (w : Who)
      → is_sleeping (st.machine.procs (g.pid w)).state ≡ false
      → act g st w (st.pcs w) ≡ done st'
      → Step g st st'

pub data Steps (g : Game) (st : State) : ℕ → State → Type 0 where
  here : Steps g st 0 st
  next : {st' st'' : State} (n : ℕ) → Steps g st n st' → Step g st' st'' → Steps g st (suc n) st''

-- A `while` loop that opens the first semaphore it can, from `sem` on.
unfoldable pub open_from : (fuel : ℕ) → Machine → (sem value : ℕ) → Run (ℕ × Machine)
open_from zero m sem value = out_of_fuel
open_from (suc fuel) m sem value = sem_open m (pos sem) (pos value) >>= λ r. elim (r.0 == 0) [
  | true ↦ open_from fuel r.1 (suc sem) value
  | false ↦ done (sem, r.1)
]

-- `main` up to the loops, with what `fork` gives: the kernel's numbers of the processes, or a failure,
-- where the program ends with the semaphores open.
unfoldable pub main :
    (fuel : ℕ) → Machine → (repetitions : ℤ) → Option (Who → ℕ) → Run (Game × State)
unfolding open_from
main fuel m repetitions forked =
    let lines = if ltb (pos_part repetitions) 1 then no_rounds ∷ [] else [] in
    open_from fuel m 0 1 >>= λ f. open_from fuel f.1 (suc f.0) 0 >>= λ s. elim forked [
      | none ↦ done (
        record { repetitions = repetitions; sem_name_f = f.0; sem_name_s = s.0; pid = λ w. 0 },
        record { machine = s.1; output = no_fork ∷ lines; pcs = λ w. exited },
      )
      | some pid ↦
          let g : Game = record {
            repetitions = repetitions;
            sem_name_f = f.0;
            sem_name_s = s.0;
            pid = pid;
          } in
          done (g, record { machine = s.1; output = lines; pcs = λ w. loop_head g 0 })
    ]
