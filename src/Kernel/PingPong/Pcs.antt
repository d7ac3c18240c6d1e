-- ===== src/Kernel/PingPong/Pcs.antt =====
-- The two processes apart: their semaphores, their numbers and where they stand.
use operating_system_fa_maf.Common.{
  ℕ, suc, ◌<◌, ◌≤◌, ◌≡◌, refl, false, ltb, ◌==◌, arith, Bool-cases, inl, inr, ne→==, ltb→lt, ltb→le,
}
use operating_system_fa_maf.Kernel.Sem.{maxsem}
use operating_system_fa_maf.Kernel.PingPong.{
  Game, Who, child, parent, other, Pc, at_up, waits_on, loop_head, set_pc,
}
use operating_system_fa_maf.Kernel.PingPong.Turns.{IsGame, rounds, work, IsHead}

pub waits_on-lt : {g : Game} → IsGame g → (w : Who) → waits_on g w < maxsem
waits_on-lt game child = game.first_small
waits_on-lt game parent = game.second_small

pub waits_on-other :
    {g : Game} → IsGame g → (w : Who) → (waits_on g (other w) == waits_on g w) ≡ false
waits_on-other game child = ne→== _ _ (λ e. game.two_sems (cc e))
waits_on-other game parent = ne→== _ _ game.two_sems

pub waits_on_self :
    {g : Game} → IsGame g → (w : Who) → (waits_on g w == waits_on g (other w)) ≡ false
waits_on_self game child = ne→== _ _ game.two_sems
waits_on_self game parent = ne→== _ _ (λ e. game.two_sems (cc e))

pub pid_other : {g : Game} → IsGame g → (w : Who) → (g.pid (other w) == g.pid w) ≡ false
pid_other game child = ne→== _ _ (λ e. game.two_pids (cc e))
pid_other game parent = ne→== _ _ (λ e. game.two_pids (cc e))

pub set_pc_self : (pcs : Who → Pc) (w : Who) (pc : Pc) → set_pc pcs w pc w ≡ pc
set_pc_self pcs child pc = refl
set_pc_self pcs parent pc = refl

pub set_pc-other : (pcs : Who → Pc) (w : Who) (pc : Pc) → set_pc pcs w pc (other w) ≡ pcs (other w)
set_pc-other pcs child pc = refl
set_pc-other pcs parent pc = refl

-- Between rounds, and past the last one.
pub loop_head-IsHead : (g : Game) (i : ℕ) → i ≤ rounds g → IsHead g i (loop_head g i)
loop_head-IsHead g i le = elim (Bool-cases (ltb i (rounds g))) [
  | inl more ↦ rw more (refl, ltb→lt i (rounds g) more)
  | inr end ↦ let past : rounds g ≤ i = ltb→le i (rounds g) end in rw end (omega arith)
]

pub work-loop_head :
    (g : Game) (i : ℕ) → i < rounds g → work g (loop_head g (suc i)) < work g (at_up i)
work-loop_head g i more = elim (Bool-cases (ltb (suc i) (rounds g))) [
  | inl on ↦ let lt : suc i < rounds g = ltb→lt (suc i) (rounds g) on in rw on (omega arith)
  | inr end ↦ rw end (omega arith)
]
