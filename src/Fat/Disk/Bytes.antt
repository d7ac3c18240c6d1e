-- ===== src/Fat/Disk/Bytes.antt =====
-- The bytes of a chain of clusters on a volume, and what a write into the chain makes of them.
use native.Mathlib.Nat.{mul-le-mul_right}
use operating_system_fa_maf.Common.{
  ℕ, suc, ◌+◌, ◌-◌, ◌*◌, ◌%◌, ◌^◌, ◌≤◌, ◌<◌, ◌≡◌, ◌≢◌, refl, sym, inl, inr, ◌⊎◌, ◌∙◌, true, false,
  List, [], ◌∷◌, arith, ltb, ◌==◌, if◌then◌else◌, Bool-cases, length, ltb→lt, ltb→le, ap, subst,
}
use operating_system_fa_maf.Fat.Table.{FatTable, is_valid_cluster_number, cluster_offset}
use operating_system_fa_maf.Fat.Table.Chain.{has, IsFat32}
use operating_system_fa_maf.Fat.Disk.{patch}
use operating_system_fa_maf.Fat.Disk.Patch.{patch-new, patch_inside, patch_below, patch_above}

abbrev pub cluster_bytes : FatTable → ℕ
cluster_bytes t = 2 ^ t.cluster_order

module _ (t : FatTable) where
  -- The byte at a position of the clusters of a list.
  abbrev pub byte : (ℕ → ℕ) → List ℕ → ℕ → ℕ
  byte disk [] r = 0
  byte disk (c ∷ cs) r =
      if ltb r (cluster_bytes t)
      then disk (cluster_offset t c + r)
      else byte disk cs (r - cluster_bytes t)

  -- A place in none of the clusters.
  abbrev pub Outside : List ℕ → ℕ → Type 0
  Outside [] i = Unit {0}
  Outside (c ∷ cs) i =
      ((i < cluster_offset t c) ⊎ (cluster_offset t c + cluster_bytes t ≤ i)) × Outside cs i

  abbrev pub AllValid : List ℕ → Type 0
  AllValid [] = Unit {0}
  AllValid (c ∷ cs) = (is_valid_cluster_number t c ≡ true) × AllValid cs

  index_gap :
      (a b i : ℕ) → a < b → i < a * cluster_bytes t + cluster_bytes t → i < b * cluster_bytes t
  index_gap a b i lt h =
      let more : suc a * cluster_bytes t ≤ b * cluster_bytes t =
        mul-le-mul_right (cluster_bytes t) lt in
      omega arith

  index_apart :
      (a b i : ℕ)
      → a ≢ b
      → a * cluster_bytes t ≤ i
      → i < a * cluster_bytes t + cluster_bytes t
      → (i < b * cluster_bytes t) ⊎ (b * cluster_bytes t + cluster_bytes t ≤ i)
  index_apart a b i ne lo hi = elim (Bool-cases (ltb a b)) [
    | inl less ↦ inl (index_gap a b i (ltb→lt a b less) hi)
    | inr not_less ↦
        let greater : b < a = omega (arith, ltb→le a b not_less) in
        let more : suc b * cluster_bytes t ≤ a * cluster_bytes t =
          mul-le-mul_right (cluster_bytes t) greater in
        inr (omega arith)
  ]

  -- Two clusters of the volume have no place in common.
  pub apart :
      (c d i : ℕ)
      → IsFat32 t
      → is_valid_cluster_number t c ≡ true
      → is_valid_cluster_number t d ≡ true
      → (c == d) ≡ false
      → cluster_offset t c ≤ i
      → i < cluster_offset t c + cluster_bytes t
      → (i < cluster_offset t d) ⊎ (cluster_offset t d + cluster_bytes t ≤ i)
  unfolding is_valid_cluster_number cluster_offset
  apart c d i fat valid_c valid_d ne lo hi =
      let differ : (c + 2 ^ 32 - 2) % 2 ^ 32 ≢ (d + 2 ^ 32 - 2) % 2 ^ 32 = ground arith in
      let start = t.data_start_offset in
      elim (index_apart ((c + 2 ^ 32 - 2) % 2 ^ 32) ((d + 2 ^ 32 - 2) % 2 ^ 32) (i - start) differ
        (omega arith) (omega arith)) [
          | inl before ↦ inl (omega arith)
          | inr behind ↦ inr (omega arith)
        ]

  -- A place in one cluster is in none of the others.
  Outside-apart :
      (c i : ℕ) (cs : List ℕ)
      → IsFat32 t
      → is_valid_cluster_number t c ≡ true
      → AllValid cs
      → has c cs ≡ false
      → cluster_offset t c ≤ i
      → i < cluster_offset t c + cluster_bytes t
      → Outside cs i
  Outside-apart c i [] fat valid all fresh lo hi = tt
  Outside-apart c i (d ∷ cs) fat valid all fresh lo hi =
      let ne : (c == d) ≡ false = ground arith in
      let rest : has c cs ≡ false = ground arith in
      (apart c d i fat valid all.0 ne lo hi, Outside-apart c i cs fat valid all.1 rest lo hi)

  -- Where no cluster is touched the bytes stay.
  pub byte-same :
      (disk disk' : ℕ → ℕ) (c : ℕ) (cs : List ℕ)
      → IsFat32 t
      → is_valid_cluster_number t c ≡ true
      → AllValid cs
      → has c cs ≡ false
      → ((i : ℕ)
          → (i < cluster_offset t c) ⊎ (cluster_offset t c + cluster_bytes t ≤ i)
          → disk' i ≡ disk i)
      → (r : ℕ) → byte disk' cs r ≡ byte disk cs r
  byte-same disk disk' c [] fat valid all fresh same r = refl
  byte-same disk disk' c (d ∷ cs) fat valid all fresh same r =
      let ne : (d == c) ≡ false = ground arith in
      let rest : has c cs ≡ false = ground arith in
      elim (Bool-cases (ltb r (cluster_bytes t))) [
        | inl here ↦ rw here (
            same (cluster_offset t d + r) (
              apart d c (cluster_offset t d + r) fat all.0 valid ne (omega arith)
                (omega (arith, ltb→lt r (cluster_bytes t) here))))
        | inr there ↦
            rw there (byte-same disk disk' c cs fat valid all.1 rest same (r - cluster_bytes t))
      ]

  -- The bytes of the clusters, with `n` of them overwritten from position `o` on; every other place
  -- is as it was.
  abbrev pub Filled : List ℕ → (o n : ℕ) → (ℕ → ℕ) → (disk disk' : ℕ → ℕ) → Type 0
  Filled cs o n new disk disk' =
      ((r : ℕ) → r < length cs * cluster_bytes t → byte disk' cs r ≡ patch (byte disk cs) o n new r)
      × ((i : ℕ) → Outside cs i → disk' i ≡ disk i)

  -- Nothing is written.
  pub Filled-none : (cs : List ℕ) (o : ℕ) (new disk : ℕ → ℕ) → Filled cs o 0 new disk disk
  Filled-none cs o new disk = (
    λ r lt. elim (Bool-cases (ltb r o)) [
      | inl before ↦ sym (patch_below (byte disk cs) o 0 new r (ltb→lt r o before))
      | inr from ↦
          let le : o ≤ r = ltb→le r o from in
          sym (patch_above (byte disk cs) o 0 new r (omega arith))
    ],
    λ i out. refl,
  )

  pub Filled-eq :
      (cs : List ℕ) (o n m : ℕ) (new disk disk' : ℕ → ℕ)
      → n ≡ m
      → Filled cs o n new disk disk'
      → Filled cs o m new disk disk'
  Filled-eq cs o n m new disk disk' e f = subst (λ k. Filled cs o k new disk disk') e f

  pub Filled-new :
      (cs : List ℕ) (o n : ℕ) (new new' disk disk' : ℕ → ℕ)
      → ((j : ℕ) → new j ≡ new' j)
      → Filled cs o n new disk disk'
      → Filled cs o n new' disk disk'
  Filled-new cs o n new new' disk disk' same f =
      ((λ r lt. f.0 r lt ∙ patch-new (byte disk cs) o n new new' r same), f.1)

  -- A write into the first cluster, and then one into the clusters behind it.
  module _ (disk d1 d2 : ℕ → ℕ) (c : ℕ) (cs : List ℕ) (o count left n : ℕ) (new : ℕ → ℕ)
      (fat : IsFat32 t) (valid : is_valid_cluster_number t c ≡ true) (all : AllValid cs)
      (fresh : has c cs ≡ false) (inside : o + count ≤ cluster_bytes t)
      (goes_on : (o + count ≡ cluster_bytes t) ⊎ (n ≡ 0))
      (first : (i : ℕ) → d1 i ≡ patch disk (cluster_offset t c + o) count new i)
      (rest : Filled cs 0 n (λ j. new (count + j)) d1 d2) where
    around :
        (i : ℕ)
        → (i < cluster_offset t c) ⊎ (cluster_offset t c + cluster_bytes t ≤ i)
        → patch disk (cluster_offset t c + o) count new i ≡ disk i
    around i (inl before) = patch_below disk (cluster_offset t c + o) count new i (omega arith)
    around i (inr behind) = patch_above disk (cluster_offset t c + o) count new i (omega arith)

    first_cluster :
        (r : ℕ)
        → r < cluster_bytes t
        → d2 (cluster_offset t c + r)
          ≡ patch (λ x. disk (cluster_offset t c + x)) o (count + n) new r
    first_cluster r lt =
        let co = cluster_offset t c in
        let kept : d2 (co + r) ≡ patch disk (co + o) count new (co + r) =
          rest.1 (co + r)
            (Outside-apart c (co + r) cs fat valid all fresh (omega arith) (omega arith))
          ∙ first (co + r) in
        elim (Bool-cases (ltb r o)) [
          | inl before ↦
              let lo : r < o = ltb→lt r o before in
              kept
              ∙ patch_below disk (co + o) count new (co + r) (omega arith)
              ∙ sym (patch_below (λ x. disk (co + x)) o (count + n) new r lo)
          | inr from ↦
              let lo : o ≤ r = ltb→le r o from in
              elim (Bool-cases (ltb r (o + count))) [
                | inl now ↦
                    let hi : r < o + count = ltb→lt r (o + count) now in
                    kept
                    ∙ patch_inside disk (co + o) count new (co + r) (omega arith) (omega arith)
                    ∙ ap new (omega arith)
                    ∙ sym (patch_inside (λ x. disk (co + x)) o (count + n) new r lo (omega arith))
                | inr past ↦
                    let hi : o + count ≤ r = ltb→le r (o + count) past in
                    let last : n ≡ 0 = omega (arith, goes_on) in
                    kept
                    ∙ patch_above disk (co + o) count new (co + r) (omega arith)
                    ∙ sym (patch_above (λ x. disk (co + x)) o (count + n) new r (omega arith))
              ]
        ]

    later_clusters :
        (r : ℕ)
        → cluster_bytes t ≤ r
        → r < suc (length cs) * cluster_bytes t
        → byte d2 cs (r - cluster_bytes t)
          ≡ patch (λ x. byte disk cs (x - cluster_bytes t)) o (count + n) new r
    later_clusters r le lt =
        let b = cluster_bytes t in
        let there = rest.0 (r - b) (omega arith) in
        let outside = λ (i : ℕ) (out : (i < cluster_offset t c) ⊎ (cluster_offset t c + b ≤ i)).
          first i ∙ around i out in
        elim (Bool-cases (ltb (r - b) n)) [
          | inl now ↦
              let hi : r - b < n = ltb→lt (r - b) n now in
              let whole : o + count ≡ b = omega (arith, goes_on) in
              there
              ∙ patch_inside (byte d1 cs) 0 n (λ j. new (count + j)) (r - b) (omega arith)
                  (omega arith)
              ∙ ap new (omega arith)
              ∙ sym (
                  patch_inside (λ x. byte disk cs (x - b)) o (count + n) new r (omega arith)
                    (omega arith))
          | inr past ↦
              let hi : n ≤ r - b = ltb→le (r - b) n past in
              there
              ∙ patch_above (byte d1 cs) 0 n (λ j. new (count + j)) (r - b) (omega arith)
              ∙ byte-same disk d1 c cs fat valid all fresh outside (r - b)
              ∙ sym (patch_above (λ x. byte disk cs (x - b)) o (count + n) new r (omega arith))
        ]

    pub Filled-link : Filled (c ∷ cs) o (count + n) new disk d2
    Filled-link = (
      λ r lt. elim (Bool-cases (ltb r (cluster_bytes t))) [
        | inl here ↦ rw here (first_cluster r (ltb→lt r (cluster_bytes t) here))
        | inr there ↦ rw there (later_clusters r (ltb→le r (cluster_bytes t) there) lt)
      ],
      λ i out. rest.1 i out.1 ∙ first i ∙ around i out.0,
    )
