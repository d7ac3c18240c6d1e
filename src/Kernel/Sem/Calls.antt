-- ===== src/Kernel/Sem/Calls.antt =====
-- What each operation gives on a semaphore of the array whose value is known.
use operating_system_fa_maf.Common.{
  ℕ, ◌<◌, ◌≡◌, refl, ap, sym, ◌∙◌, true, false, none, some, ltb, ◌==◌, done, lt→ltb, eq→==,
  Bool-cases, inl, inr, ==→eq,
}
use operating_system_fa_maf.Common.Int.{pos}
use operating_system_fa_maf.Kernel.Sem.{
  Machine, Semaphore, closed, is_sleeping, update_sem, wakeup, sleep, sem_close, sem_up, sem_down,
  maxsem, sleeping,
}

module _ (m : Machine) (i : ℕ) where
  pub update_sem_self : (s : Semaphore) → (update_sem m i s).semaphores i ≡ s
  unfolding update_sem
  update_sem_self s = rw (eq→== i i refl) refl

  pub update_sem_other :
      (s : Semaphore) (j : ℕ) → (j == i) ≡ false → (update_sem m i s).semaphores j ≡ m.semaphores j
  unfolding update_sem
  update_sem_other s j ne = rw ne refl

  pub update_sem-procs : (s : Semaphore) (j : ℕ) → (update_sem m i s).procs j ≡ m.procs j
  unfolding update_sem
  update_sem-procs s j = refl

  pub update_sem-value :
      (s : Semaphore) (j : ℕ)
      → s.value ≡ (m.semaphores i).value
      → ((update_sem m i s).semaphores j).value ≡ (m.semaphores j).value
  unfolding update_sem
  update_sem-value s j same = elim (Bool-cases (j == i)) [
    | inl e ↦ rw e (same ∙ ap (λ k. (m.semaphores k).value) (sym (==→eq j i e)))
    | inr ne ↦ rw ne refl
  ]

  module _ (small : i < maxsem) where
    pub sem_down_taken :
        (me : ℕ)
        → (m.semaphores i).value ≡ pos 1
        → sem_down m me (pos i)
          ≡ done (some 1, update_sem m i (record (m.semaphores i) { value = pos 0 }))
    unfolding sem_down
    sem_down_taken me e = rw (sem_down, lt→ltb i maxsem small, e) refl

    pub sem_down_asleep :
        (me : ℕ)
        → (m.semaphores i).value ≡ pos 0
        → sem_down m me (pos i) ≡ done (none, sleep m me i)
    unfolding sem_down
    sem_down_asleep me e = rw (sem_down, lt→ltb i maxsem small, e) refl

    pub sem_up_raised :
        (me : ℕ)
        → (m.semaphores i).value ≡ pos 0
        → sem_up m me (pos i)
          ≡ done (1, update_sem (wakeup m me i) i (record (m.semaphores i) { value = pos 1 }))
    unfolding sem_up
    sem_up_raised me e = rw (sem_up, lt→ltb i maxsem small, e) refl

    pub sem_close_lem :
        sem_close m (pos i) ≡ done (1, update_sem m i (record (m.semaphores i) { status = closed }))
    unfolding sem_close
    sem_close_lem =
        let inside : ltb i maxsem ≡ true = lt→ltb i maxsem small in
        rw (sem_close, inside) (rw inside refl)

-- The processes behind a wakeup and a falling asleep.
module _ (m : Machine) (me chan : ℕ) where
  pub sleep_self : (sleep m me chan).procs me ≡ record { state = sleeping; chan = some chan }
  unfolding sleep
  sleep_self = rw (eq→== me me refl) refl

  pub sleep_other : (j : ℕ) → (j == me) ≡ false → (sleep m me chan).procs j ≡ m.procs j
  unfolding sleep
  sleep_other j ne = rw ne refl

  pub wakeup_self : (wakeup m me chan).procs me ≡ m.procs me
  unfolding wakeup
  wakeup_self = rw (eq→== me me refl) refl

  pub wakeup_awake :
      (j : ℕ)
      → (j == me) ≡ false
      → (is_sleeping (m.procs j).state ≡ true → (m.procs j).chan ≡ some chan)
      → is_sleeping ((wakeup m me chan).procs j).state ≡ false
  unfolding wakeup
  wakeup_awake j ne on = elim (Bool-cases (is_sleeping (m.procs j).state)) [
    | inl asleep ↦ rw (ne, asleep, on asleep, eq→== chan chan refl) refl
    | inr awake ↦ rw (ne, awake) awake
  ]
