-- ===== src/Fat/File/Room.antt =====
-- The room that the clusters of a chain have behind an offset.
use operating_system_fa_maf.Common.{
  ℕ, suc, ◌+◌, ◌-◌, ◌*◌, ◌/◌, ◌%◌, ◌^◌, min, ◌≤◌, ◌<◌, ◌≡◌, refl, sym, ap, inl, inr, ◌∙◌, true,
  false, List, arith, ltb, ltb→lt, length-drop, Bool-cases, drop, length,
}
use native.Mathlib.Nat.{mod-lt, mod-add-mod, mod_self, div-add-mod'}
use operating_system_fa_maf.Fat.Table.{
  FatTable, is_eoc, end_of_chain, is_valid_cluster_number, get_cluster_remaining_bytes,
}
use operating_system_fa_maf.Fat.Table.Chain.{IsFat32}

-- The next multiple of `b` behind an offset.
pub round_up : (offset b : ℕ) → 0 < b → (offset + (b - offset % b)) % b ≡ 0
round_up offset b h =
    let whole : offset % b + (b - offset % b) ≡ b = omega (arith, mod-lt offset h) in
    sym (mod-add-mod offset b (b - offset % b)) ∙ ap (λ x. x % b) whole ∙ mod_self b

-- The bytes from an offset in its cluster to the end of a chain of `n` clusters.
abbrev pub room : FatTable → ℕ → ℕ → ℕ
room t n offset = n * 2 ^ t.cluster_order - offset % 2 ^ t.cluster_order

-- The chain's end is no cluster of the volume.
pub is_valid-end : (t : FatTable) → IsFat32 t → is_valid_cluster_number t end_of_chain ≡ false
unfolding is_valid_cluster_number
is_valid-end t fat = ground arith

pub is_eoc-end : is_eoc end_of_chain ≡ true
unfolding is_eoc
is_eoc-end = refl

pub remaining-eq :
    (t : FatTable) (remaining offset : ℕ)
    → get_cluster_remaining_bytes t remaining offset
      ≡ min (2 ^ t.cluster_order - offset % 2 ^ t.cluster_order) remaining
unfolding get_cluster_remaining_bytes
remaining-eq t remaining offset = refl

-- What is left of a chain behind an offset, in bytes.
pub room-drop :
    (b q offset : ℕ) (cs : List ℕ)
    → offset / b ≡ q
    → q ≤ length cs
    → length (drop q cs) * b - offset % b ≡ length cs * b - offset
room-drop b q offset cs e within =
    let parts : offset / b * b + offset % b ≡ offset = div-add-mod' offset b in
    let size : length cs ≡ length (drop q cs) + q = omega (arith, length-drop q cs) in
    omega (arith, parts, ap (λ (x : ℕ). x * b) e, ap (λ (x : ℕ). x * b) size)

-- What a round takes from the room behind an offset.
pub room-step :
    (b n offset remaining count : ℕ)
    → 0 < b
    → count ≡ min (b - offset % b) remaining
    → (remaining - count - (n * b - (offset + count) % b) ≡ remaining - (suc n * b - offset % b))
      × (count + min (remaining - count) (n * b - (offset + count) % b)
          ≡ min remaining (suc n * b - offset % b))
room-step b n offset remaining count pos e = elim (Bool-cases (ltb (b - offset % b) remaining)) [
  | inl more ↦
      let small = mod-lt offset pos in
      let gap : count ≡ b - offset % b = omega (arith, ltb→lt _ _ more) in
      let aligned : (offset + count) % b ≡ 0 = rw gap (round_up offset b pos) in
      (omega (arith, ltb→lt _ _ more), omega (arith, ltb→lt _ _ more))
  | inr last ↦
      let small = mod-lt offset pos in
      let all : count ≡ remaining = ground (arith, e) in (omega arith, omega arith)
]
