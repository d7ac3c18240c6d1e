-- ===== src/Kernel/PingPong/Setup.antt =====
-- What `main` sets up: two semaphores of its own, and two processes before their loops.
use operating_system_fa_maf.Common.{
  ℕ, zero, suc, ◌+◌, ◌-◌, ◌*◌, ◌<◌, ◌≤◌, ◌≡◌, ◌≢◌, refl, sym, ap, ◌∙◌, inl, inr, not, Bool, true,
  false, [], ◌∷◌, arith, done, some, ltb, if◌then◌else◌, lt→ltb, le→ltb, ne→==, Bool-cases,
}
use operating_system_fa_maf.Common.Int.{ℤ, pos, pos_part}
use operating_system_fa_maf.Kernel.Sem.{
  Machine, Semaphore, opened, is_open, is_sleeping, update_sem, sem_open, maxsem,
}
use operating_system_fa_maf.Kernel.Sem.Calls.{update_sem_self, update_sem_other, update_sem-procs}
use operating_system_fa_maf.Kernel.PingPong.{
  Game, State, Who, child, parent, no_rounds, loop_head, open_from, main,
}
use operating_system_fa_maf.Kernel.PingPong.Turns.{
  due, IsGame, IsSound, rounds, measure, work, is_awake, awake_count, value,
}
use operating_system_fa_maf.Kernel.PingPong.Pcs.{loop_head-IsHead}

abbrev pub open_with : ℕ → Semaphore
open_with value = record { value = pos value; status = opened }

open_ne :
    (m : Machine) (i j : ℕ)
    → is_open (m.semaphores i).status ≡ true
    → is_open (m.semaphores j).status ≡ false
    → i ≢ j
open_ne m i j taken shut e =
    let same : is_open (m.semaphores i).status ≡ is_open (m.semaphores j).status =
      ap (λ k. is_open (m.semaphores k).status) e in
    let clash : true ≡ false = sym taken ∙ same ∙ shut in cc

-- Where a semaphore from `sem` on is closed, one up to it is opened.
pub open_from_lem :
    (fuel : ℕ) (m : Machine) (sem value last : ℕ)
    → sem ≤ last
    → last < maxsem
    → is_open (m.semaphores last).status ≡ false
    → last - sem < fuel
    → (i : ℕ) × (open_from fuel m sem value ≡ done (i, update_sem m i (open_with value)))
      × (sem ≤ i)
      × (i ≤ last)
unfolding open_from sem_open
open_from_lem zero m sem value last lo hi shut enough = absurd (omega arith)
open_from_lem (suc fuel) m sem value last lo hi shut enough =
    let inside : ltb sem maxsem ≡ true = lt→ltb sem maxsem (omega arith) in
    let not_past : ltb maxsem sem ≡ false = le→ltb maxsem sem (omega arith) in
    elim (Bool-cases (is_open (m.semaphores sem).status)) [
      | inl taken ↦
          let below : sem ≢ last = open_ne m sem last taken shut in
          let (i, run, lo', hi') =
            open_from_lem fuel m (suc sem) value last (omega arith) hi shut (omega arith) in
          (i, rw (open_from, sem_open, inside) (rw taken run), omega arith, hi')
      | inr free ↦
          (sem, rw (open_from, sem_open, inside) (rw (free, not_past) refl), omega arith, lo)
    ]

-- `main` has started: the game is sound, nothing is printed yet but the complaint about the rounds,
-- and the measure is what the rounds give.
pub record Started (repetitions : ℤ) (pid : Who → ℕ) (g : Game) (st : State) : Type 0 where
  pub rounds_given : rounds g ≡ pos_part repetitions
  pub game : IsGame g
  pub sound : IsSound g st.output st
  pub complaint : st.output ≡ (if ltb (pos_part repetitions) 1 then no_rounds ∷ [] else [])
  pub bound : measure g st ≤ 12 * rounds g + 10

work-start : (g : Game) → work g (loop_head g 0) ≤ 3 * rounds g + 2
work-start g = elim (Bool-cases (ltb 0 (rounds g))) [
  | inl some_rounds ↦ rw some_rounds (omega arith)
  | inr none_at_all ↦ rw none_at_all (omega arith)
]

awake_count-le : (b : Bool) → awake_count b ≤ 1
awake_count-le true = omega arith
awake_count-le false = omega arith

measure-start :
    (g : Game) (st : State)
    → ((w : Who) → st.pcs w ≡ loop_head g 0)
    → measure g st ≤ 12 * rounds g + 10
measure-start g st starts = omega (
  arith,
  ap (work g) (starts child),
  ap (work g) (starts parent),
  work-start g,
  awake_count-le (is_awake g st child),
  awake_count-le (is_awake g st parent),
)

-- With the semaphores `f` and `s` opened, one after the other, on a machine where neither process
-- sleeps.
module _ (m : Machine) (repetitions : ℤ) (pid : Who → ℕ) (f s : ℕ) (f_first : f < s)
    (s_small : s < maxsem) where
  abbrev opened_machine : Machine
  opened_machine = update_sem (update_sem m f (open_with 1)) s (open_with 0)

  abbrev new_game : Game
  new_game = record { repetitions = repetitions; sem_name_f = f; sem_name_s = s; pid = pid }

  abbrev new_state : State
  new_state = record {
    machine = opened_machine;
    output = if ltb (pos_part repetitions) 1 then no_rounds ∷ [] else [];
    pcs = λ w. loop_head new_game 0;
  }

  opened_up : value new_game new_state child ≡ pos 1
  opened_up =
      let m1 = update_sem m f (open_with 1) in
      ap (λ x. x.value)
        (update_sem_other m1 s (open_with 0) f (ne→== f s (λ e. absurd (omega arith)))
          ∙ update_sem_self m f (open_with 1))

  opened_down : value new_game new_state parent ≡ pos 0
  opened_down = ap (λ x. x.value) (update_sem_self (update_sem m f (open_with 1)) s (open_with 0))

  opened_awake :
      ((w : Who) → is_sleeping (m.procs (pid w)).state ≡ false)
      → (w : Who) → is_awake new_game new_state w ≢ false
  opened_awake awake w asleep =
      let m1 = update_sem m f (open_with 1) in
      let same : opened_machine.procs (pid w) ≡ m.procs (pid w) =
        update_sem-procs m1 s (open_with 0) (pid w) ∙ update_sem-procs m f (open_with 1) (pid w) in
      let clash : true ≡ false =
        sym (ap not (awake w)) ∙ ap (λ p. not (is_sleeping p.state)) (sym same) ∙ asleep in
      cc

  opened-Started :
      pid child ≢ pid parent
      → ((w : Who) → is_sleeping (m.procs (pid w)).state ≡ false)
      → Started repetitions pid new_game new_state
  opened-Started two awake = record {
    rounds_given = refl;
    game = record {
      two_sems = λ e. absurd (omega arith);
      first_small = omega arith;
      second_small = s_small;
      two_pids = two;
    };
    sound = record {
      lines = [];
      turn =
          due child 0 opened_up opened_down (loop_head-IsHead new_game 0 (omega arith))
            (loop_head-IsHead new_game 0 (omega arith)) refl;
      shown = refl;
      dozing = λ w asleep. absurd (opened_awake awake w asleep);
    };
    complaint = refl;
    bound = measure-start new_game new_state (λ w. refl);
  }

-- Where two semaphores are closed, `main` gets to the loops with two of its own.
pub main-Started :
    (fuel : ℕ) (m : Machine) (repetitions : ℤ) (pid : Who → ℕ) (a b : ℕ)
    → is_open (m.semaphores a).status ≡ false
    → is_open (m.semaphores b).status ≡ false
    → a < b
    → b < maxsem
    → pid child ≢ pid parent
    → ((w : Who) → is_sleeping (m.procs (pid w)).state ≡ false)
    → maxsem < fuel
    → (g : Game) × (st : State) × (main fuel m repetitions (some pid) ≡ done (g, st))
      × Started repetitions pid g st
unfolding main
main-Started fuel m repetitions pid a b shut_a shut_b lt hi two awake enough =
    let (f, run_f, lo_f, hi_f) =
      open_from_lem fuel m 0 1 a (omega arith) (omega arith) shut_a (omega arith) in
    let m1 = update_sem m f (open_with 1) in
    let still : is_open (m1.semaphores b).status ≡ false =
      rw (update_sem_other m f (open_with 1) b (ne→== b f (λ e. absurd (omega arith)))) shut_b in
    let (s, run_s, lo_s, hi_s) =
      open_from_lem fuel m1 (suc f) 0 b (omega arith) hi still (omega arith) in
    (
      new_game m repetitions pid f s (omega arith) (omega arith),
      new_state m repetitions pid f s (omega arith) (omega arith),
      rw (run_f, run_s) refl,
      opened-Started m repetitions pid f s (omega arith) (omega arith) two awake,
    )
