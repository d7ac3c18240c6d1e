-- ===== src/Kernel/Sem.antt =====
-- lab2/kernel/sem.c: named semaphores, with `sleep` and `wakeup` of lab2/kernel/proc.c. The arrays
-- are functions of the index, and an index outside of them is a fault. Each critical section runs
-- whole, as the spin lock of the semaphore and of the process make it do; `sem_down` is modelled
-- round by round, since the process gives up the lock while it sleeps. The tests of `sem_open` stand
-- before its critical section, `open_store`; `sem_open` is the call with nobody in between.
pub mod Wakeup
pub mod Closed
pub mod Calls
mod Examples
use operating_system_fa_maf.Common.{
  ℕ, zero, suc, ◌+◌, ◌-◌, ◌<◌, ◌≡◌, Bool, true, false, ◌&&◌, ◌||◌, not, Option, none, some, ltb,
  ◌==◌, if◌then◌else◌, Run, done, fault,
}
use operating_system_fa_maf.Common.Int.{ℤ, pos, negsuc, is_neg, is_zero, pos_part, succ_ℤ, pred_ℤ}

abbrev pub maxsem : ℕ
maxsem = 64

abbrev pub nproc : ℕ
nproc = 64

abbrev pub int_max : ℕ
int_max = 0x7fff_ffff

pub data SemStatus : Type 0 where
  closed opened : SemStatus

pub record Semaphore : Type 0 where
  pub value : ℤ
  pub status : SemStatus

pub data ProcState : Type 0 where
  unused used sleeping runnable running zombie : ProcState

-- `chan` is the semaphore on whose address the process sleeps.
pub record Proc : Type 0 where
  pub state : ProcState
  pub chan : Option ℕ

pub record Machine : Type 0 where
  pub semaphores : ℕ → Semaphore
  pub procs : ℕ → Proc

abbrev pub is_open : SemStatus → Bool
is_open closed = false
is_open opened = true

abbrev pub is_sleeping : ProcState → Bool
is_sleeping sleeping = true
is_sleeping _ = false

abbrev pub on_chan : Option ℕ → ℕ → Bool
on_chan none i = false
on_chan (some j) i = j == i

-- `&semaphores[sem]`, where it is in the array.
abbrev pub index : ℤ → Option ℕ
index (pos n) = if ltb n maxsem then some n else none
index (negsuc n) = none

unfoldable pub update_sem : Machine → ℕ → Semaphore → Machine
update_sem m i s = record m { semaphores = λ j. if j == i then s else m.semaphores j }

-- `wakeup` of lab2/kernel/proc.c, called by the process `me`.
unfoldable pub wakeup : Machine → (me chan : ℕ) → Machine
wakeup m me chan = record m {
  procs = λ j.
      if not (j == me) && (is_sleeping (m.procs j).state && on_chan (m.procs j).chan chan)
      then record (m.procs j) { state = runnable }
      else m.procs j;
}

-- `sleep` of lab2/kernel/proc.c, up to the switch to the scheduler.
unfoldable pub sleep : Machine → (me chan : ℕ) → Machine
sleep m me chan = record m {
  procs = λ j. if j == me then record { state = sleeping; chan = some chan } else m.procs j;
}

unfoldable pub seminit : Machine → Machine
seminit m = record m { semaphores = λ j. record { value = pos 0; status = closed } }

-- The `while` loop of `get_closed_sem`, with `left` rounds left before `sem + 1` is MAXSEM.
unfoldable pub closed_loop : Machine → (left sem : ℕ) → ℕ
closed_loop m zero sem = sem
closed_loop m (suc left) sem =
    let rest = closed_loop m left (sem + 1) in
    if is_open (m.semaphores sem).status then rest else sem

unfoldable pub get_closed_sem : Machine → ℕ
get_closed_sem m = closed_loop m (maxsem - 1) 0

-- The critical section.
abbrev pub open_store : Machine → ℕ → (value : ℤ) → Machine
open_store m i value = update_sem m i (record { value = value; status = opened })

-- The first test reads the array.
unfoldable pub sem_open : Machine → (sem value : ℤ) → Run (ℕ × Machine)
sem_open m sem value = elim (index sem) [
  | none ↦ fault
  | some i ↦
      if is_open (m.semaphores i).status
        || (is_neg sem || (ltb maxsem (pos_part sem) || is_neg value))
      then done (0, m)
      else done (1, open_store m i value)
]

-- The lock that is acquired first stands in the array.
unfoldable pub sem_close : Machine → ℤ → Run (ℕ × Machine)
sem_close m sem = elim (index sem) [
  | none ↦ fault
  | some i ↦
      if is_neg sem || not (ltb (pos_part sem) maxsem)
      then done (0, m)
      else done (1, update_sem m i (record (m.semaphores i) { status = closed }))
]

-- An `int` that is INT_MAX cannot be increased.
unfoldable pub sem_up : Machine → (me : ℕ) → ℤ → Run (ℕ × Machine)
sem_up m me sem = elim (index sem) [
  | none ↦ fault
  | some i ↦
      let m1 = if is_zero (m.semaphores i).value then wakeup m me i else m in
      let v = (m.semaphores i).value in
      if pos_part v == int_max
      then fault
      else done (1, update_sem m1 i (record (m.semaphores i) { value = succ_ℤ v }))
]

-- One round of `sem_down`: `none` if the process has gone to sleep and will try again.
unfoldable pub sem_down : Machine → (me : ℕ) → ℤ → Run (Option ℕ × Machine)
sem_down m me sem = elim (index sem) [
  | none ↦ fault
  | some i ↦
      let v = (m.semaphores i).value in
      if is_zero v
      then done (none, sleep m me i)
      else done (some 1, update_sem m i (record (m.semaphores i) { value = pred_ℤ v }))
]
