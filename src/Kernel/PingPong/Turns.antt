-- ===== src/Kernel/PingPong/Turns.antt =====
-- Whose turn it is: what holds of every state that the two processes reach.
use operating_system_fa_maf.Common.{
  ℕ, zero, suc, ◌+◌, ◌*◌, ◌-◌, ◌<◌, ◌≡◌, ◌≢◌, ◌∙◌, not, Bool, true, false, List, [], ◌∷◌, ◌++◌,
  some, inl, inr, ◌⊎◌, subst,
}
use operating_system_fa_maf.Common.Int.{ℤ, pos, pos_part}
use operating_system_fa_maf.Kernel.Sem.{is_sleeping, maxsem}
use operating_system_fa_maf.Kernel.PingPong.{
  Game, State, Who, child, parent, other, Pc, at_down, at_print, at_up, at_close_first,
  at_close_second, exited, Line, ping, pong, waits_on, prints,
}

abbrev pub rounds : Game → ℕ
rounds g = pos_part g.repetitions

abbrev pub value : Game → State → Who → ℤ
value g st w = (st.machine.semaphores (waits_on g w)).value

-- The lines of so many rounds, the last one first.
abbrev pub whole : ℕ → List Line
whole zero = []
whole (suc i) = pong ∷ ping ∷ whole i

-- The round that the other process is in while it is the turn of one that is in round `i`, and the
-- lines printed before that turn.
abbrev pub round_of_other : Who → ℕ → ℕ
round_of_other child i = i
round_of_other parent i = suc i

abbrev pub printed : Who → ℕ → List Line
printed child i = whole i
printed parent i = ping ∷ whole i

-- Between two rounds, or past the last one.
abbrev pub IsHead : Game → ℕ → Pc → Type 0
IsHead g i (at_down j) = (j ≡ i) × (i < rounds g)
IsHead g i (at_print j) = ⊥
IsHead g i (at_up j) = ⊥
IsHead g i at_close_first = i ≡ rounds g
IsHead g i at_close_second = i ≡ rounds g
IsHead g i exited = i ≡ rounds g

-- One turn: the semaphore of the process is up; it has taken it and will print; it has printed.
pub data Turn (g : Game) (st : State) (lines : List Line) : Type 0 where
  due :
      (w : Who) (i : ℕ)
      → value g st w ≡ pos 1
      → value g st (other w) ≡ pos 0
      → IsHead g i (st.pcs w)
      → IsHead g (round_of_other w i) (st.pcs (other w))
      → lines ≡ printed w i
      → Turn g st lines
  printing :
      (w : Who) (i : ℕ)
      → value g st w ≡ pos 0
      → value g st (other w) ≡ pos 0
      → st.pcs w ≡ at_print i
      → i < rounds g
      → IsHead g (round_of_other w i) (st.pcs (other w))
      → lines ≡ printed w i
      → Turn g st lines
  raising :
      (w : Who) (i : ℕ)
      → value g st w ≡ pos 0
      → value g st (other w) ≡ pos 0
      → st.pcs w ≡ at_up i
      → i < rounds g
      → IsHead g (round_of_other w i) (st.pcs (other w))
      → lines ≡ prints w ∷ printed w i
      → Turn g st lines

-- Who sleeps does so in `sem_down`, on a semaphore that is down.
pub record Dozes (g : Game) (st : State) (w : Who) : Type 0 where
  pub round : ℕ
  pub chan : (st.machine.procs (g.pid w)).chan ≡ some (waits_on g w)
  pub down : value g st w ≡ pos 0
  pub stands : st.pcs w ≡ at_down round

-- The semaphores are two of the array's, and the processes are two.
pub record IsGame (g : Game) : Type 0 where
  pub two_sems : g.sem_name_f ≢ g.sem_name_s
  pub first_small : g.sem_name_f < maxsem
  pub second_small : g.sem_name_s < maxsem
  pub two_pids : g.pid child ≢ g.pid parent

abbrev pub is_awake : Game → State → Who → Bool
is_awake g st w = not (is_sleeping (st.machine.procs (g.pid w)).state)

-- The lines printed since `before`, whose turn it is, and who sleeps.
pub record IsSound (g : Game) (before : List Line) (st : State) : Type 0 where
  pub lines : List Line
  pub turn : Turn g st lines
  pub shown : st.output ≡ lines ++ before
  pub dozing : (w : Who) → is_awake g st w ≡ false → Dozes g st w

-- What a process has to do, and both of them, who is awake counted once and each action twice.
abbrev pub work : Game → Pc → ℕ
work g (at_down i) = 3 * (rounds g - i) + 2
work g (at_print i) = 3 * (rounds g - i) + 1
work g (at_up i) = 3 * (rounds g - i)
work g at_close_first = 2
work g at_close_second = 1
work g exited = 0

abbrev pub awake_count : Bool → ℕ
awake_count false = 0
awake_count true = 1

abbrev pub measure : Game → State → ℕ
measure g st =
    2 * (work g (st.pcs child) + work g (st.pcs parent))
    + awake_count (is_awake g st child)
    + awake_count (is_awake g st parent)

-- A process that neither prints nor raises, nor takes its turn, leaves the turn where it is.
module _ (g : Game) (st st' : State) (lines : List Line) where
  pub Turn-moved :
      (w : Who)
      → ((v : Who) → value g st' v ≡ value g st v)
      → ((j : ℕ) → st.pcs w ≢ at_print j)
      → ((j : ℕ) → st.pcs w ≢ at_up j)
      → ((j : ℕ) → IsHead g j (st.pcs w) → IsHead g j (st'.pcs w))
      → st'.pcs (other w) ≡ st.pcs (other w)
      → Turn g st lines
      → Turn g st' lines
  Turn-moved child same np nu keep rest (due child i a b h k n) =
      due child i (same child ∙ a) (same parent ∙ b) (keep i h) (rw rest k) n
  Turn-moved child same np nu keep rest (due parent i a b h k n) =
      due parent i (same parent ∙ a) (same child ∙ b) (rw rest h) (keep (suc i) k) n
  Turn-moved child same np nu keep rest (printing child i a b e lt k n) = absurd (np i e)
  Turn-moved child same np nu keep rest (printing parent i a b e lt k n) =
      printing parent i (same parent ∙ a) (same child ∙ b) (rest ∙ e) lt (keep (suc i) k) n
  Turn-moved child same np nu keep rest (raising child i a b e lt k n) = absurd (nu i e)
  Turn-moved child same np nu keep rest (raising parent i a b e lt k n) =
      raising parent i (same parent ∙ a) (same child ∙ b) (rest ∙ e) lt (keep (suc i) k) n
  Turn-moved parent same np nu keep rest (due parent i a b h k n) =
      due parent i (same parent ∙ a) (same child ∙ b) (keep i h) (rw rest k) n
  Turn-moved parent same np nu keep rest (due child i a b h k n) =
      due child i (same child ∙ a) (same parent ∙ b) (rw rest h) (keep i k) n
  Turn-moved parent same np nu keep rest (printing parent i a b e lt k n) = absurd (np i e)
  Turn-moved parent same np nu keep rest (printing child i a b e lt k n) =
      printing child i (same child ∙ a) (same parent ∙ b) (rest ∙ e) lt (keep i k) n
  Turn-moved parent same np nu keep rest (raising parent i a b e lt k n) = absurd (nu i e)
  Turn-moved parent same np nu keep rest (raising child i a b e lt k n) =
      raising child i (same child ∙ a) (same parent ∙ b) (rest ∙ e) lt (keep i k) n

IsHead-ne_print : (g : Game) (j i : ℕ) (pc : Pc) → IsHead g j pc → pc ≢ at_print i
IsHead-ne_print g j i (at_down k) h e = cc
IsHead-ne_print g j i (at_print k) h e = absurd h
IsHead-ne_print g j i (at_up k) h e = cc
IsHead-ne_print g j i at_close_first h e = cc
IsHead-ne_print g j i at_close_second h e = cc
IsHead-ne_print g j i exited h e = cc

IsHead-ne_up : (g : Game) (j i : ℕ) (pc : Pc) → IsHead g j pc → pc ≢ at_up i
IsHead-ne_up g j i (at_down k) h e = cc
IsHead-ne_up g j i (at_print k) h e = cc
IsHead-ne_up g j i (at_up k) h e = absurd h
IsHead-ne_up g j i at_close_first h e = cc
IsHead-ne_up g j i at_close_second h e = cc
IsHead-ne_up g j i exited h e = cc

-- The turn of a process that has taken its semaphore.
pub record Holds (g : Game) (st : State) (w : Who) (i : ℕ) : Type 0 where
  pub mine : value g st w ≡ pos 0
  pub theirs : value g st (other w) ≡ pos 0
  pub more : i < rounds g
  pub rest : IsHead g (round_of_other w i) (st.pcs (other w))

module _ (g : Game) (st : State) (lines : List Line) where
  -- Who is about to print, or has printed, has the turn.
  pub Turn-print :
      (w : Who) (i : ℕ)
      → st.pcs w ≡ at_print i
      → Turn g st lines
      → Holds g st w i × (lines ≡ printed w i)
  Turn-print child i e (due child j a b h k n) = absurd (IsHead-ne_print g _ i _ h e)
  Turn-print child i e (due parent j a b h k n) = absurd (IsHead-ne_print g _ i _ k e)
  Turn-print child i e (printing child j a b f lt k n) =
      let same : j ≡ i = cc in
      (record { mine = a; theirs = b; more = rw (← same) lt; rest = rw (← same) k }, rw (← same) n)
  Turn-print child i e (printing parent j a b f lt k n) = absurd (IsHead-ne_print g _ i _ k e)
  Turn-print child i e (raising child j a b f lt k n) = cc
  Turn-print child i e (raising parent j a b f lt k n) = absurd (IsHead-ne_print g _ i _ k e)
  Turn-print parent i e (due parent j a b h k n) = absurd (IsHead-ne_print g _ i _ h e)
  Turn-print parent i e (due child j a b h k n) = absurd (IsHead-ne_print g _ i _ k e)
  Turn-print parent i e (printing parent j a b f lt k n) =
      let same : j ≡ i = cc in
      (record { mine = a; theirs = b; more = rw (← same) lt; rest = rw (← same) k }, rw (← same) n)
  Turn-print parent i e (printing child j a b f lt k n) = absurd (IsHead-ne_print g _ i _ k e)
  Turn-print parent i e (raising parent j a b f lt k n) = cc
  Turn-print parent i e (raising child j a b f lt k n) = absurd (IsHead-ne_print g _ i _ k e)

  pub Turn-up :
      (w : Who) (i : ℕ)
      → st.pcs w ≡ at_up i
      → Turn g st lines
      → Holds g st w i × (lines ≡ prints w ∷ printed w i)
  Turn-up child i e (due child j a b h k n) = absurd (IsHead-ne_up g _ i _ h e)
  Turn-up child i e (due parent j a b h k n) = absurd (IsHead-ne_up g _ i _ k e)
  Turn-up child i e (raising child j a b f lt k n) =
      let same : j ≡ i = cc in
      (record { mine = a; theirs = b; more = rw (← same) lt; rest = rw (← same) k }, rw (← same) n)
  Turn-up child i e (raising parent j a b f lt k n) = absurd (IsHead-ne_up g _ i _ k e)
  Turn-up child i e (printing child j a b f lt k n) = cc
  Turn-up child i e (printing parent j a b f lt k n) = absurd (IsHead-ne_up g _ i _ k e)
  Turn-up parent i e (due parent j a b h k n) = absurd (IsHead-ne_up g _ i _ h e)
  Turn-up parent i e (due child j a b h k n) = absurd (IsHead-ne_up g _ i _ k e)
  Turn-up parent i e (raising parent j a b f lt k n) =
      let same : j ≡ i = cc in
      (record { mine = a; theirs = b; more = rw (← same) lt; rest = rw (← same) k }, rw (← same) n)
  Turn-up parent i e (raising child j a b f lt k n) = absurd (IsHead-ne_up g _ i _ k e)
  Turn-up parent i e (printing parent j a b f lt k n) = cc
  Turn-up parent i e (printing child j a b f lt k n) = absurd (IsHead-ne_up g _ i _ k e)

  -- Before its `sem_down` the semaphore of a process is down, or the turn is its own.
  pub Turn-down :
      (w : Who) (i : ℕ)
      → st.pcs w ≡ at_down i
      → Turn g st lines
      → (value g st w ≡ pos 0)
        ⊎ ((value g st w ≡ pos 1)
            × (value g st (other w) ≡ pos 0)
            × (i < rounds g)
            × IsHead g (round_of_other w i) (st.pcs (other w))
            × (lines ≡ printed w i))
  Turn-down child i e (due child j a b h k n) =
      let at : IsHead g j (at_down i) = subst (IsHead g j) e h in
      inr (a, b, rw at.0 at.1, rw at.0 k, rw at.0 n)
  Turn-down child i e (due parent j a b h k n) = inl b
  Turn-down child i e (printing child j a b f lt k n) = inl a
  Turn-down child i e (printing parent j a b f lt k n) = inl b
  Turn-down child i e (raising child j a b f lt k n) = inl a
  Turn-down child i e (raising parent j a b f lt k n) = inl b
  Turn-down parent i e (due parent j a b h k n) =
      let at : IsHead g j (at_down i) = subst (IsHead g j) e h in
      inr (a, b, rw at.0 at.1, rw at.0 k, rw at.0 n)
  Turn-down parent i e (due child j a b h k n) = inl b
  Turn-down parent i e (printing parent j a b f lt k n) = inl a
  Turn-down parent i e (printing child j a b f lt k n) = inl b
  Turn-down parent i e (raising parent j a b f lt k n) = inl a
  Turn-down parent i e (raising child j a b f lt k n) = inl b
