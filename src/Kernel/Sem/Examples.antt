-- ===== src/Kernel/Sem/Examples.antt =====
-- Two processes and a semaphore.
use operating_system_fa_maf.Common.{
  ℕ, ◌<◌, ◌≡◌, refl, ◌⊎◌, true, false, none, some, ◌==◌, if◌then◌else◌, arith, done,
}
use operating_system_fa_maf.Common.Int.{pos}
use operating_system_fa_maf.Kernel.Sem.{
  Machine, opened, closed, running, sleeping, is_open, seminit, sem_open, sem_up, sem_down, sleep,
  update_sem, get_closed_sem, wakeup,
}
use operating_system_fa_maf.Kernel.Sem.Wakeup.{
  IsSound, sleeps_on, Reach, here, next, open_call, down_call, Reach-IsSound, sem_open_loses_wakeup,
}
use operating_system_fa_maf.Kernel.Sem.Closed.{get_closed_sem_lem}

abbrev two_running : Machine
two_running = record {
  semaphores = λ i. record { value = pos 7; status = closed };
  procs = λ j. record { state = running; chan = none };
}

abbrev start : Machine
start = record {
  semaphores = λ i. record { value = pos 0; status = closed };
  procs = λ j. record { state = running; chan = none };
}

abbrev opened_zero : Machine
opened_zero = record start {
  semaphores =
      λ j. if j == 3 then record { value = pos 0; status = opened } else start.semaphores j;
}

-- Process 0 waits on semaphore 3.
abbrev waiting : Machine
waiting = record opened_zero {
  procs = λ j. if j == 0 then record { state = sleeping; chan = some 3 } else opened_zero.procs j;
}

walk : Reach (seminit two_running) waiting
unfolding seminit sem_open sem_down update_sem sleep
walk =
    next (next here (open_call (pos 3) (pos 0) 1 refl (λ j i e. refl)))
      (down_call 0 (pos 3) none refl refl)

-- Opened with 0, and waited for by process 0, which then sleeps.
Reach-IsSound_example : IsSound waiting
Reach-IsSound_example = Reach-IsSound two_running (λ j. refl) walk

-- The same process still waits when the semaphore has been closed.
abbrev shut : Machine
shut = record waiting { semaphores = λ j. record { value = pos 0; status = closed } }

sem_open_loses_wakeup_example :
    (m' : Machine) × (sem_open shut (pos 3) (pos 2) ≡ done (1, m'))
    × (sleeps_on m' 0 3 ≡ true)
    × (¬ IsSound m')
sem_open_loses_wakeup_example = sem_open_loses_wakeup shut 3 0 1 (omega arith) refl refl

get_closed_sem_lem_example :
    ((j : ℕ) → j < get_closed_sem opened_zero → is_open (opened_zero.semaphores j).status ≡ true)
    × (((get_closed_sem opened_zero < 63)
          × (is_open (opened_zero.semaphores (get_closed_sem opened_zero)).status ≡ false))
        ⊎ (get_closed_sem opened_zero ≡ 63))
get_closed_sem_lem_example = get_closed_sem_lem opened_zero

abbrev raised : Machine
unfolding update_sem wakeup
raised = update_sem (wakeup waiting 1 3) 3 (record { value = pos 1; status = opened })

raised_eq : sem_up waiting 1 (pos 3) ≡ done (1, raised)
unfolding sem_up raised update_sem
raised_eq = refl
