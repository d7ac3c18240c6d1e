-- ===== src/Kernel/Priority/Steps.antt =====
-- The steps that processes take under the scheduler, and what they keep.
use operating_system_fa_maf.Common.{
  ℕ, zero, suc, ◌-◌, ◌<◌, ◌≡◌, refl, sym, subst, inl, inr, true, false, not, ◌&&◌, ltb, ltb→lt,
  lt→ltb, ==→eq, ◌==◌, if◌then◌else◌, Bool-cases, arith, done, Ensures,
}
use operating_system_fa_maf.Common.Int.{
  ℤ, pos, negsuc, is_neg, is_pos, is_below, pos_part, succ_ℤ, pred_ℤ,
}
use operating_system_fa_maf.Kernel.Priority.{
  Proc, ProcState, unused, runnable, running, nprio, allocproc, freeproc, schedule, yield, sleep,
  awake, wakeup, is_runnable, is_sleeping, on_chan, int_max,
}

abbrev pub Procs : Type 0
Procs = ℕ → Proc

abbrev pub at : Procs → ℕ → (Proc → Proc) → Procs
at ps i f = λ j. if j == i then f (ps j) else ps j

-- A slot is allocated, picked by the scheduler, gives up the CPU, sleeps, finds itself awake again,
-- wakes the others, is freed, or has another state set, as `fork`, `exit` and `kill` do.
pub data Step (ps : Procs) : Procs → Type 0 where
  alloc : (i pid : ℕ) → (ps i).state ≡ unused → Step ps (at ps i (allocproc pid))
  pick :
      (i ticks : ℕ) (p : Proc)
      → (ps i).state ≡ runnable
      → schedule ticks (ps i) ≡ done p
      → Step ps (at ps i (λ q. p))
  yields : (i : ℕ) → (ps i).state ≡ running → Step ps (at ps i yield)
  sleeps : (i chan : ℕ) → (ps i).state ≡ running → Step ps (at ps i (sleep chan))
  wakes : (i : ℕ) → (ps i).state ≡ running → Step ps (at ps i awake)
  wake_others : (i chan : ℕ) → (ps i).state ≡ running → Step ps (wakeup i chan ps)
  frees : (i : ℕ) → Step ps (at ps i freeproc)
  becomes : (i : ℕ) (s : ProcState) → Step ps (at ps i (λ p. record p { state = s }))

pub data Reach (ps : Procs) : Procs → Type 0 where
  here : Reach ps ps
  next : {qs rs : Procs} → Reach ps qs → Step qs rs → Reach ps rs

-- One of the NPRIO levels, from 0 on.
abbrev pub IsLevel : ℤ → Type 0
IsLevel v = (is_neg v ≡ false) × (is_below v nprio ≡ true)

abbrev pub IsRanked : Procs → Type 0
IsRanked ps = (j : ℕ) → IsLevel (ps j).priority

yield-IsLevel : (p : Proc) → IsLevel p.priority → IsLevel (yield p).priority
unfolding yield
yield-IsLevel p h = lowered p.priority h
  where
    lowered : (v : ℤ) → IsLevel v → IsLevel (if is_pos v then pred_ℤ v else v)
    lowered (pos zero) h = h
    lowered (pos (suc n)) h = (refl, ground (arith, h.1))
    lowered (negsuc n) h = cc

sleep-IsLevel : (chan : ℕ) (p : Proc) → IsLevel p.priority → IsLevel (sleep chan p).priority
unfolding sleep
sleep-IsLevel chan p h = raised p.priority h
  where
    raised : (v : ℤ) → IsLevel v → IsLevel (if is_below v (nprio - 1) then succ_ℤ v else v)
    raised (pos n) h = elim (Bool-cases (ltb n 2)) [
      | inl less ↦
          let lt : n < 2 = ltb→lt n 2 less in rw less (refl, lt→ltb (suc n) 3 (omega arith))
      | inr most ↦ rw most h
    ]
    raised (negsuc n) h = cc

schedule-IsLevel :
    (ticks : ℕ) (p : Proc)
    → IsLevel p.priority
    → Ensures (λ q. IsLevel q.priority) (schedule ticks p)
unfolding schedule
schedule-IsLevel ticks p h = elim (Bool-cases (is_runnable p.state)) [
  | inl runs ↦ elim (Bool-cases (pos_part p.schedpick == int_max)) [
    | inl full ↦ rw (runs, full) tt
    | inr fits ↦ rw (runs, fits) h
  ]
  | inr idle ↦ rw idle h
]

-- What holds of every process holds of them when one has changed.
at-IsRanked :
    (ps : Procs) (i : ℕ) (f : Proc → Proc)
    → IsRanked ps
    → IsLevel (f (ps i)).priority
    → IsRanked (at ps i f)
at-IsRanked ps i f h g j = elim (Bool-cases (j == i)) [
  | inl e ↦
      let alike : j ≡ i = ==→eq j i e in
      rw e (subst (λ k. IsLevel (f (ps k)).priority) (sym alike) g)
  | inr e ↦ rw e (h j)
]

wakeup-IsRanked : (ps : Procs) (me chan : ℕ) → IsRanked ps → IsRanked (wakeup me chan ps)
unfolding wakeup
wakeup-IsRanked ps me chan h j =
    elim (Bool-cases (not (j == me) && (is_sleeping (ps j).state && on_chan (ps j).chan chan))) [
      | inl e ↦ rw e (h j)
      | inr e ↦ rw e (h j)
    ]

Step-IsRanked : {ps qs : Procs} → Step ps qs → IsRanked ps → IsRanked qs
unfolding allocproc freeproc awake
Step-IsRanked {ps} (alloc i pid e) h = at-IsRanked ps i (allocproc pid) h (refl, refl)
Step-IsRanked {ps} (pick i ticks p e picked) h =
    at-IsRanked ps i (λ q. p) h
      (subst (Ensures (λ q. IsLevel q.priority)) picked (schedule-IsLevel ticks (ps i) (h i)))
Step-IsRanked {ps} (yields i e) h = at-IsRanked ps i yield h (yield-IsLevel (ps i) (h i))
Step-IsRanked {ps} (sleeps i chan e) h =
    at-IsRanked ps i (sleep chan) h (sleep-IsLevel chan (ps i) (h i))
Step-IsRanked {ps} (wakes i e) h = at-IsRanked ps i awake h (h i)
Step-IsRanked {ps} (wake_others i chan e) h = wakeup-IsRanked ps i chan h
Step-IsRanked {ps} (frees i) h = at-IsRanked ps i freeproc h (h i)
Step-IsRanked {ps} (becomes i s) h = at-IsRanked ps i (λ p. record p { state = s }) h (h i)

-- From a table whose priorities are levels, whatever the processes do, they stay levels: none falls
-- below 0 and none reaches NPRIO.
pub Reach-IsRanked : {ps qs : Procs} → IsRanked ps → Reach ps qs → IsRanked qs
Reach-IsRanked h here = h
Reach-IsRanked h (next r st) = Step-IsRanked st (Reach-IsRanked h r)
