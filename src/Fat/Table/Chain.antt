-- ===== src/Fat/Table/Chain.antt =====
-- The chain of clusters of a file, as `fat_table_get_next_cluster` walks it.
use operating_system_fa_maf.Common.{
  ℕ, ◌+◌, ◌≤◌, ◌≡◌, refl, ◌⊎◌, ◌∙◌, Bool, true, false, ◌||◌, List, [], ◌∷◌, arith, ◌==◌,
  if◌then◌else◌,
}
use operating_system_fa_maf.Fat.Table.{
  FatTable, is_valid_cluster_number, get_next_cluster, end_of_chain, is_eoc, store_entry,
}

abbrev pub has : ℕ → List ℕ → Bool
has a [] = false
has a (x ∷ xs) = (a == x) || has a xs

-- From `c` the table leads through the distinct clusters of the list to the end-of-chain mark.
pub data Chain (t : FatTable) : ℕ → List ℕ → Type 0 where
  stop : {c : ℕ} → c ≡ end_of_chain → Chain t c []
  link :
      {c n : ℕ} {cs : List ℕ}
      → is_valid_cluster_number t c ≡ true
      → get_next_cluster t c ≡ n
      → has c cs ≡ false
      → Chain t n cs
      → Chain t c (c ∷ cs)

-- The clusters of a FAT32 volume lie below the marks.
abbrev pub IsFat32 : FatTable → Type 0
IsFat32 t = t.num_data_clusters + 2 ≤ end_of_chain

pub is_eoc-valid :
    (t : FatTable) (c : ℕ) → IsFat32 t → is_valid_cluster_number t c ≡ true → is_eoc c ≡ false
unfolding is_eoc is_valid_cluster_number
is_eoc-valid t c fat valid = ground arith

-- The walk yields a cluster of the volume or the mark, and nothing else.
pub get_next_cluster_cases :
    (t : FatTable) (c : ℕ)
    → (is_valid_cluster_number t (get_next_cluster t c) ≡ true)
      ⊎ (get_next_cluster t c ≡ end_of_chain)
unfolding get_next_cluster is_valid_cluster_number
get_next_cluster_cases t c = ground arith

pub is_valid-store :
    (t : FatTable) (c v i : ℕ)
    → is_valid_cluster_number (store_entry t c v) i ≡ is_valid_cluster_number t i
unfolding store_entry is_valid_cluster_number
is_valid-store t c v i = refl

pub get_next_cluster-store_ne :
    (t : FatTable) (c v i : ℕ)
    → (i == c) ≡ false
    → get_next_cluster (store_entry t c v) i ≡ get_next_cluster t i
unfolding get_next_cluster store_entry is_valid_cluster_number
get_next_cluster-store_ne t c v i h = rw h

pub get_next_cluster-store_self :
    (t : FatTable) (c v : ℕ)
    → get_next_cluster (store_entry t c v) c
      ≡ (if is_valid_cluster_number t v then v else end_of_chain)
unfolding get_next_cluster store_entry is_valid_cluster_number
get_next_cluster-store_self t c v = ground arith

-- A chain outlives a store to a word that is not on it.
pub Chain-store :
    (t : FatTable) (c v : ℕ) {n : ℕ} {cs : List ℕ}
    → Chain t n cs
    → has c cs ≡ false
    → Chain (store_entry t c v) n cs
Chain-store t c v (stop e) out = stop e
Chain-store t c v (link {c = d} {n} {cs} valid next fresh rest) out =
    link (is_valid-store t c v d ∙ valid) (get_next_cluster-store_ne t c v d (ground arith) ∙ next)
      fresh (Chain-store t c v rest (ground arith))

-- More generally it lives in every table that agrees on its words.
pub Chain-agree :
    (t u : FatTable) {n : ℕ} {cs : List ℕ}
    → u.num_data_clusters ≡ t.num_data_clusters
    → Chain t n cs
    → ((i : ℕ) → has i cs ≡ true → u.fat_map i ≡ t.fat_map i)
    → Chain u n cs
unfolding get_next_cluster is_valid_cluster_number
Chain-agree t u size (stop e) same = stop e
Chain-agree t u size (link {c} {n} {cs} valid next fresh rest) same =
    link (rw size valid) (rw (size, same c (ground arith)) next) fresh
      (Chain-agree t u size rest (λ i h. same i (ground arith)))
