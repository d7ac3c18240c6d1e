-- ===== src/Kernel/Sem/Wakeup.antt =====
-- No wakeup is lost: nobody sleeps on a semaphore whose value is not zero.
use operating_system_fa_maf.Common.{
  ℕ, zero, suc, ◌<◌, ◌≡◌, refl, inl, inr, Bool, true, false, ◌&&◌, ◌||◌, not, Option, some, ltb,
  ◌==◌, if◌then◌else◌, done, arith, Bool-cases, Option-cases, subst, sym, Ensures,
}
use operating_system_fa_maf.Common.Int.{ℤ, pos, negsuc, is_neg, is_zero, pos_part, succ_ℤ, pred_ℤ}
use operating_system_fa_maf.Kernel.Sem.{
  Proc, Machine, closed, opened, running, is_open, is_sleeping, on_chan, index, update_sem, wakeup,
  sleep, seminit, open_store, sem_open, sem_close, sem_up, sem_down, maxsem, int_max,
}

abbrev pub sleeps_on : Machine → (j i : ℕ) → Bool
sleeps_on m j i = is_sleeping (m.procs j).state && on_chan (m.procs j).chan i

-- Values are never negative, and where a process sleeps the value is zero.
pub record IsSound (m : Machine) : Type 0 where
  pub nonneg : (i : ℕ) → is_neg (m.semaphores i).value ≡ false
  pub no_lost : (j i : ℕ) → sleeps_on m j i ≡ true → is_zero (m.semaphores i).value ≡ true

-- What the processes of the machine can do: call the operations, be scheduled, give up the CPU.
-- A semaphore is opened while nobody sleeps on it, by a call or, since the tests of `sem_open` are
-- not under the lock, by a process that has passed them before and stores now, whatever the others
-- have done since. Who was woken in `sem_down` calls it again.
pub data Step (m : Machine) : Machine → Type 0 where
  open_call :
      {m' : Machine} (sem value : ℤ) (r : ℕ)
      → sem_open m sem value ≡ done (r, m')
      → ((j i : ℕ) → index sem ≡ some i → sleeps_on m j i ≡ false)
      → Step m m'
  open_later :
      {m' : Machine} (i : ℕ) (value : ℤ)
      → is_neg value ≡ false
      → ((j : ℕ) → sleeps_on m j i ≡ false)
      → m' ≡ open_store m i value
      → Step m m'
  close_call : {m' : Machine} (sem : ℤ) (r : ℕ) → sem_close m sem ≡ done (r, m') → Step m m'
  up_call :
      {m' : Machine} (me : ℕ) (sem : ℤ) (r : ℕ)
      → (m.procs me).state ≡ running
      → sem_up m me sem ≡ done (r, m')
      → Step m m'
  down_call :
      {m' : Machine} (me : ℕ) (sem : ℤ) (r : Option ℕ)
      → (m.procs me).state ≡ running
      → sem_down m me sem ≡ done (r, m')
      → Step m m'
  switch :
      {m' : Machine} (me : ℕ) (p : Proc)
      → is_sleeping p.state ≡ false
      → m' ≡ record m { procs = λ j. if j == me then p else m.procs j }
      → Step m m'

pub data Reach (m : Machine) : Machine → Type 0 where
  here : Reach m m
  next : {m' m'' : Machine} → Reach m m' → Step m' m'' → Reach m m''

succ_ℤ_nonneg :
    (v : ℤ) → is_neg v ≡ false → (is_neg (succ_ℤ v) ≡ false) × (is_zero (succ_ℤ v) ≡ false)
succ_ℤ_nonneg (pos n) h = (refl, refl)
succ_ℤ_nonneg (negsuc n) h = cc

pred_ℤ_nonneg : (v : ℤ) → is_neg v ≡ false → is_zero v ≡ false → is_neg (pred_ℤ v) ≡ false
pred_ℤ_nonneg (pos zero) h z = cc
pred_ℤ_nonneg (pos (suc n)) h z = refl
pred_ℤ_nonneg (negsuc n) h z = cc

is_zero-neg : (v : ℤ) → is_zero v ≡ true → is_neg v ≡ false
is_zero-neg (pos n) h = refl
is_zero-neg (negsuc n) h = cc

-- Who sleeps after a wakeup slept before, on another semaphore.
sleeps_on-wakeup :
    (m : Machine) (me j i k : ℕ)
    → is_sleeping (m.procs me).state ≡ false
    → sleeps_on (wakeup m me i) j k ≡ true
    → (sleeps_on m j k ≡ true) × ((k == i) ≡ false)
unfolding wakeup
sleeps_on-wakeup m me j i k awake h = ground arith

module _ {m : Machine} (sound : IsSound m) where
  open-IsSound :
      (i : ℕ) (v : ℤ)
      → is_neg v ≡ false
      → ((j : ℕ) → sleeps_on m j i ≡ false)
      → IsSound (open_store m i v)
  unfolding update_sem
  open-IsSound i v pos_v quiet = record {
    nonneg = λ k. ground (arith, sound.nonneg k);
    no_lost = λ j k h. ground (arith, sound.no_lost j k, quiet j);
  }

  close-IsSound : (i : ℕ) → IsSound (update_sem m i (record (m.semaphores i) { status = closed }))
  unfolding update_sem
  close-IsSound i = record {
    nonneg = λ k. ground (arith, sound.nonneg k, sound.nonneg i);
    no_lost = λ j k h. ground (arith, sound.no_lost j k, sound.no_lost j i);
  }

  down-IsSound :
      (i : ℕ)
      → is_zero (m.semaphores i).value ≡ false
      → IsSound (update_sem m i (record (m.semaphores i) { value = pred_ℤ (m.semaphores i).value }))
  unfolding update_sem
  down-IsSound i busy = record {
    nonneg =
        λ k. ground (arith, sound.nonneg k, pred_ℤ_nonneg (m.semaphores i).value (sound.nonneg i));
    no_lost = λ j k h. ground (arith, sound.no_lost j k, sound.no_lost j i);
  }

  sleep-IsSound : (me i : ℕ) → is_zero (m.semaphores i).value ≡ true → IsSound (sleep m me i)
  unfolding sleep
  sleep-IsSound me i zero_v = record {
    nonneg = sound.nonneg;
    no_lost = λ j k h. ground (arith, sound.no_lost j k);
  }

  wake-IsSound :
      (me i : ℕ)
      → is_sleeping (m.procs me).state ≡ false
      → IsSound (
          update_sem
            (wakeup m me i)
            i
            (record (m.semaphores i) { value = succ_ℤ (m.semaphores i).value }))
  unfolding update_sem wakeup
  wake-IsSound me i awake = record {
    nonneg =
        λ k. ground (arith, sound.nonneg k, succ_ℤ_nonneg (m.semaphores i).value (sound.nonneg i));
    no_lost = λ j k h.
        let (slept, other) = sleeps_on-wakeup m me j i k awake h in
        rw other (sound.no_lost j k slept);
  }

  up-IsSound :
      (i : ℕ)
      → is_zero (m.semaphores i).value ≡ false
      → IsSound (update_sem m i (record (m.semaphores i) { value = succ_ℤ (m.semaphores i).value }))
  unfolding update_sem
  up-IsSound i busy = record {
    nonneg =
        λ k. ground (arith, sound.nonneg k, succ_ℤ_nonneg (m.semaphores i).value (sound.nonneg i));
    no_lost = λ j k h. ground (arith, sound.no_lost j k, sound.no_lost j i);
  }

  switch-IsSound :
      (me : ℕ) (p : Proc)
      → is_sleeping p.state ≡ false
      → IsSound (record m { procs = λ j. if j == me then p else m.procs j })
  switch-IsSound me p awake = record {
    nonneg = sound.nonneg;
    no_lost = λ j k h. ground (arith, sound.no_lost j k);
  }

abbrev Sound : {A : Type 0} → A × Machine → Type 0
Sound r = IsSound r.1

-- What each call has done when it returns.
module _ (m : Machine) (sound : IsSound m) where
  sem_open-IsSound :
      (sem value : ℤ)
      → ((j i : ℕ) → index sem ≡ some i → sleeps_on m j i ≡ false)
      → Ensures Sound (sem_open m sem value)
  unfolding sem_open
  sem_open-IsSound sem value quiet = elim (Option-cases (index sem)) [
    | inl out ↦ rw (out, sem_open) tt
    | inr (i, at) ↦
        elim (Bool-cases (
          is_open (m.semaphores i).status
          || (is_neg sem || (ltb maxsem (pos_part sem) || is_neg value)))) [
            | inl bad ↦ rw (at, sem_open, bad) sound
            | inr ok ↦
                rw (at, sem_open, ok)
                  (open-IsSound sound i value (ground arith) (λ j. quiet j i at))
          ]
  ]

  sem_close-IsSound : (sem : ℤ) → Ensures Sound (sem_close m sem)
  unfolding sem_close
  sem_close-IsSound sem = elim (Option-cases (index sem)) [
    | inl out ↦ rw (out, sem_close) tt
    | inr (i, at) ↦ elim (Bool-cases (is_neg sem || not (ltb (pos_part sem) maxsem))) [
      | inl bad ↦ rw (at, sem_close, bad) sound
      | inr ok ↦ rw (at, sem_close, ok) (close-IsSound sound i)
    ]
  ]

  sem_up-IsSound :
      (me : ℕ) (sem : ℤ) → (m.procs me).state ≡ running → Ensures Sound (sem_up m me sem)
  unfolding sem_up
  sem_up-IsSound me sem runs = elim (Option-cases (index sem)) [
    | inl out ↦ rw (out, sem_up) tt
    | inr (i, at) ↦ elim (Bool-cases (pos_part (m.semaphores i).value == int_max)) [
      | inl full ↦ rw (at, sem_up, full) tt
      | inr fits ↦ elim (Bool-cases (is_zero (m.semaphores i).value)) [
        | inl z ↦ rw (at, sem_up, fits, z) (wake-IsSound sound me i (rw runs))
        | inr nz ↦ rw (at, sem_up, fits, nz) (up-IsSound sound i nz)
      ]
    ]
  ]

  sem_down-IsSound : (me : ℕ) (sem : ℤ) → Ensures Sound (sem_down m me sem)
  unfolding sem_down
  sem_down-IsSound me sem = elim (Option-cases (index sem)) [
    | inl out ↦ rw (out, sem_down) tt
    | inr (i, at) ↦ elim (Bool-cases (is_zero (m.semaphores i).value)) [
      | inl z ↦ rw (at, sem_down, z) (sleep-IsSound sound me i z)
      | inr nz ↦ rw (at, sem_down, nz) (down-IsSound sound i nz)
    ]
  ]

-- Each step of the machine keeps every value from being negative, and nobody is left asleep on a
-- semaphore whose value is not zero.
pub Step-IsSound : {m m' : Machine} → Step m m' → IsSound m → IsSound m'
Step-IsSound {m} (open_call sem value r h quiet) sound =
    subst (Ensures Sound) h (sem_open-IsSound m sound sem value quiet)
Step-IsSound (open_later i value nonneg quiet e) sound =
    subst IsSound (sym e) (open-IsSound sound i value nonneg quiet)
Step-IsSound {m} (close_call sem r h) sound =
    subst (Ensures Sound) h (sem_close-IsSound m sound sem)
Step-IsSound {m} (up_call me sem r runs h) sound =
    subst (Ensures Sound) h (sem_up-IsSound m sound me sem runs)
Step-IsSound {m} (down_call me sem r runs h) sound =
    subst (Ensures Sound) h (sem_down-IsSound m sound me sem)
Step-IsSound (switch me p awake e) sound = subst IsSound (sym e) (switch-IsSound sound me p awake)

seminit-IsSound :
    (m : Machine) → ((j : ℕ) → is_sleeping (m.procs j).state ≡ false) → IsSound (seminit m)
unfolding seminit
seminit-IsSound m awake = record { nonneg = λ i. refl; no_lost = λ j i h. refl }

-- From the machine that seminit sets up with nobody asleep, where the processes call the
-- operations in any order and a semaphore is opened only while nobody sleeps on it, no value
-- becomes negative and no wakeup is lost: where a process sleeps the value is zero.
pub Reach-IsSound :
    (m : Machine)
    → ((j : ℕ) → is_sleeping (m.procs j).state ≡ false)
    → {m' : Machine} → Reach (seminit m) m'
    → IsSound m'
Reach-IsSound m awake here = seminit-IsSound m awake
Reach-IsSound m awake (next r st) = Step-IsSound st (Reach-IsSound m awake r)

-- Opening a semaphore wakes nobody: where a process sleeps on a closed semaphore, opening it with
-- a value that is not zero leaves that process asleep, and the machine is sound no more.
pub sem_open_loses_wakeup :
    (m : Machine) (i j v : ℕ)
    → i < maxsem
    → (m.semaphores i).status ≡ closed
    → sleeps_on m j i ≡ true
    → (m' : Machine) × (sem_open m (pos i) (pos (suc v)) ≡ done (1, m'))
      × (sleeps_on m' j i ≡ true)
      × (¬ IsSound m')
unfolding sem_open update_sem
sem_open_loses_wakeup m i j v inside shut asleep = (
  update_sem m i (record { value = pos (suc v); status = opened }),
  ground arith,
  asleep,
  λ bad. ground (arith, bad.no_lost j i asleep),
)
