-- ===== src/Kernel/Sem/Closed.antt =====
-- The search for a closed semaphore, and a rise undone by a fall.
use operating_system_fa_maf.Common.{
  ℕ, zero, suc, ◌+◌, ◌≤◌, ◌<◌, ◌≡◌, refl, ◌⊎◌, inl, inr, true, false, ◌==◌, arith, Bool-cases, done,
  some,
}
use operating_system_fa_maf.Common.Int.{ℤ, pos, negsuc, is_neg, is_zero, succ_ℤ, pred_ℤ}
use operating_system_fa_maf.Kernel.Sem.{
  Machine, is_open, closed_loop, get_closed_sem, sem_up, sem_down, update_sem, wakeup, maxsem,
}

-- The loop, from `sem` with `left` rounds to go.
closed_loop_lem :
    (m : Machine) (left sem : ℕ)
    → ((j : ℕ) → sem ≤ j → j < closed_loop m left sem → is_open (m.semaphores j).status ≡ true)
      × (((closed_loop m left sem < sem + left)
            × (is_open (m.semaphores (closed_loop m left sem)).status ≡ false))
          ⊎ (closed_loop m left sem ≡ sem + left))
unfolding closed_loop
closed_loop_lem m zero sem = (λ j lo hi. absurd (omega arith), inr (omega arith))
closed_loop_lem m (suc left) sem = elim (Bool-cases (is_open (m.semaphores sem).status)) [
  | inl opened ↦
      let (below, found) = closed_loop_lem m left (sem + 1) in
      rw opened (
        λ j lo hi. elim (Bool-cases (j == sem)) [
          | inl e ↦ ground arith
          | inr ne ↦ below j (ground arith) hi
        ],
        ground (arith, found),
      )
  | inr shut ↦ rw shut (λ j lo hi. absurd (omega arith), inl (omega arith, shut))
]

-- All semaphores below the result of get_closed_sem are open; the result is closed, or it is the
-- last semaphore, whose status is never looked at.
pub get_closed_sem_lem :
    (m : Machine)
    → ((j : ℕ) → j < get_closed_sem m → is_open (m.semaphores j).status ≡ true)
      × (((get_closed_sem m < 63) × (is_open (m.semaphores (get_closed_sem m)).status ≡ false))
          ⊎ (get_closed_sem m ≡ 63))
unfolding get_closed_sem
get_closed_sem_lem m =
    let (below, found) = closed_loop_lem m 63 0 in
    (λ j hi. below j (omega arith) hi, ground (arith, found))

pred-succ : (v : ℤ) → is_neg v ≡ false → (pred_ℤ (succ_ℤ v) ≡ v) × (is_zero (succ_ℤ v) ≡ false)
pred-succ (pos n) h = (refl, refl)
pred-succ (negsuc n) h = cc

-- What a rise that returns has done to its semaphore.
sem_up-semaphore :
    (m m1 : Machine) (me i r : ℕ)
    → sem_up m me (pos i) ≡ done (r, m1)
    → (i < maxsem)
      × (m1.semaphores i ≡ record (m.semaphores i) { value = succ_ℤ (m.semaphores i).value })
unfolding sem_up update_sem wakeup
sem_up-semaphore m m1 me i r h = ground arith

-- After a rise that returns, from a value that is not negative, a fall by the same process does
-- not wait, and the semaphore is as it was before.
sem_down-sem_up :
    (m m1 : Machine) (me i r : ℕ)
    → is_neg (m.semaphores i).value ≡ false
    → sem_up m me (pos i) ≡ done (r, m1)
    → (m2 : Machine) × (sem_down m1 me (pos i) ≡ done (some 1, m2))
      × (m2.semaphores i ≡ m.semaphores i)
unfolding sem_down update_sem
sem_down-sem_up m m1 me i r nonneg h =
    let (inside, raised) = sem_up-semaphore m m1 me i r h in
    let (undone, waits) = pred-succ (m.semaphores i).value nonneg in
    let ready : is_zero (m1.semaphores i).value ≡ false = rw raised waits in
    let back : pred_ℤ (m1.semaphores i).value ≡ (m.semaphores i).value = rw raised undone in
    let kept : (m1.semaphores i).status ≡ (m.semaphores i).status = rw raised in
    (
      update_sem m1 i (record (m1.semaphores i) { value = pred_ℤ (m1.semaphores i).value }),
      ground arith,
      ground arith,
    )
