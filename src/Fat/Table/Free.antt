-- ===== src/Fat/Table/Free.antt =====
-- The search for a free cluster, `fat_table_get_next_free_cluster`.

use operating_system_fa_maf.Common.{
  ℕ, zero, suc, ◌+◌, ◌-◌, ◌≤◌, ◌<◌, ◌≡◌, ◌≢◌, ◌⊎◌, inl, inr, true, false, none, some, arith, ltb,
  ◌==◌, Bool-cases, Option-cases,
}
use operating_system_fa_maf.Fat.Table.{
  FatTable, is_valid_cluster_number, free_loop, get_next_free_cluster, end_of_chain,
}

-- `k` is the first free word from word `i` on.
abbrev pub IsFirstFree : FatTable → ℕ → ℕ → Type 0
IsFirstFree t i k = (i ≤ k) × (t.fat_map k ≡ 0) × ((j : ℕ) → i ≤ j → j < k → t.fat_map j ≢ 0)

IsFirstFree-step :
    (t : FatTable) (i k : ℕ)
    → (t.fat_map i == 0) ≡ false
    → IsFirstFree t (i + 1) k
    → IsFirstFree t i k
IsFirstFree-step t i k miss (le, free, least) = (
  omega arith,
  free,
  λ j lo hi. elim (Bool-cases (j == i)) [
    | inl e ↦ ground arith
    | inr e ↦ least j (ground arith) hi
  ],
)

free_loop_sound :
    (t : FatTable) (left i k : ℕ) → free_loop t left i ≡ some k → IsFirstFree t i k × (k < i + left)
unfolding free_loop
free_loop_sound t zero i k h = absurd (cc)
free_loop_sound t (suc left) i k h = elim (Bool-cases (t.fat_map i == 0)) [
  | inl hit ↦
      let e : i ≡ k = ground arith in
      ((omega arith, ground arith, λ j lo hi. absurd (omega arith)), omega arith)
  | inr miss ↦
      let ih = free_loop_sound t left (i + 1) k (ground arith) in
      (IsFirstFree-step t i k miss ih.0, omega (arith, ih.1))
]

free_loop-none :
    (t : FatTable) (left i j : ℕ)
    → free_loop t left i ≡ none
    → i ≤ j
    → j < i + left
    → t.fat_map j ≢ 0
unfolding free_loop
free_loop-none t zero i j h lo hi = absurd (omega arith)
free_loop-none t (suc left) i j h lo hi = elim (Bool-cases (t.fat_map i == 0)) [
  | inl hit ↦ ground arith
  | inr miss ↦ elim (Bool-cases (j == i)) [
    | inl e ↦ ground arith
    | inr e ↦ free_loop-none t left (i + 1) j (ground arith) (ground arith) (omega arith)
  ]
]

-- If some cluster of the volume is free and the whole volume is mapped, the search returns the
-- least free cluster.
pub get_next_free_cluster-least :
    (t : FatTable) (j : ℕ)
    → t.num_data_clusters + 2 ≤ t.fat_entries
    → is_valid_cluster_number t j ≡ true
    → t.fat_map j ≡ 0
    → (k : ℕ) × (get_next_free_cluster t ≡ some k)
      × (is_valid_cluster_number t k ≡ true)
      × (t.fat_map k ≡ 0)
      × ((i : ℕ) → 2 ≤ i → i < k → t.fat_map i ≢ 0)
unfolding get_next_free_cluster is_valid_cluster_number
get_next_free_cluster-least t j mapped valid free =
    elim (Option-cases (free_loop t (t.fat_entries - 2) 2)) [
      | inl e ↦
          absurd (free_loop-none t (t.fat_entries - 2) 2 j e (ground arith) (ground arith) free)
      | inr (k, e) ↦ found k e (free_loop_sound t (t.fat_entries - 2) 2 k e)
    ]
  where
    found :
        (k : ℕ)
        → free_loop t (t.fat_entries - 2) 2 ≡ some k
        → IsFirstFree t 2 k × (k < 2 + (t.fat_entries - 2))
        → (k : ℕ) × (get_next_free_cluster t ≡ some k)
          × (is_valid_cluster_number t k ≡ true)
          × (t.fat_map k ≡ 0)
          × ((i : ℕ) → 2 ≤ i → i < k → t.fat_map i ≢ 0)
    found k e ((le, zeroed, least), below) = elim (Bool-cases (ltb j k)) [
      | inl lt ↦ absurd (least j (ground arith) (ground arith) free)
      | inr ge ↦ (k, ground arith, ground arith, zeroed, least)
    ]

-- If every cluster of the volume is in use, the search never returns a cluster of the volume: it
-- returns the end-of-chain mark, or reads past the end of the mapped table.
get_next_free_cluster_full :
    (t : FatTable)
    → ((j : ℕ) → is_valid_cluster_number t j ≡ true → t.fat_map j ≢ 0)
    → (get_next_free_cluster t ≡ some end_of_chain) ⊎ (get_next_free_cluster t ≡ none)
unfolding get_next_free_cluster is_valid_cluster_number
get_next_free_cluster_full t used = elim (Option-cases (free_loop t (t.fat_entries - 2) 2)) [
  | inl e ↦ inr (ground arith)
  | inr (k, e) ↦
      let s = free_loop_sound t (t.fat_entries - 2) 2 k e in
      elim (Bool-cases (ltb k (t.num_data_clusters + 2))) [
        | inl lt ↦ absurd (used k (ground (arith, s)) s.0.1)
        | inr ge ↦ inl (ground arith)
      ]
]
