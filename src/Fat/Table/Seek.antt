-- ===== src/Fat/Table/Seek.antt =====
-- Walking a chain by an offset, `fat_table_seek_cluster`, and cutting it at a position.
use operating_system_fa_maf.Common.{
  ℕ, zero, suc, ◌/◌, ◌%◌, ◌^◌, ◌≤◌, ◌<◌, ◌≡◌, refl, ◌⊎◌, inl, inr, true, false, List, [], ◌∷◌,
  arith, leb, ◌==◌, Bool-cases, length, take, drop, get_or,
}
use operating_system_fa_maf.Fat.Table.{
  FatTable, is_valid_cluster_number, get_next_cluster, end_of_chain, seek_loop, seek_cluster,
  eoverflow,
}
use operating_system_fa_maf.Fat.Table.Chain.{has, Chain, stop, link, IsFat32}

-- The marks are no cluster numbers of a FAT32 volume.
pub end_of_chain-valid :
    (t : FatTable) (c : ℕ)
    → IsFat32 t
    → is_valid_cluster_number t c ≡ true
    → (c == end_of_chain) ≡ false
unfolding is_valid_cluster_number
end_of_chain-valid t c fat valid = ground arith

-- Within the chain the walk stops at the cluster in that place, or at the mark right behind it.
pub seek_loop-Chain :
    (t : FatTable) (moves errno : ℕ) {c : ℕ} {cs : List ℕ}
    → IsFat32 t
    → Chain t c cs
    → moves ≤ length cs
    → (d : ℕ) × (seek_loop t moves errno c ≡ (d, errno)) × Chain t d (drop moves cs)
unfolding seek_loop
seek_loop-Chain t zero errno {c} fat ch within = (c, refl, ch)
seek_loop-Chain t (suc moves) errno fat (stop e) within = absurd (omega arith)
seek_loop-Chain t (suc moves) errno {c} fat (link valid next fresh rest) within =
    rw (end_of_chain-valid t c fat valid, next)
      (seek_loop-Chain t moves errno fat rest (omega arith))

pub seek_loop-past :
    (t : FatTable) (moves errno : ℕ) {c : ℕ} {cs : List ℕ}
    → IsFat32 t
    → Chain t c cs
    → length cs < moves
    → seek_loop t moves errno c ≡ (0, eoverflow)
unfolding seek_loop
seek_loop-past t zero errno fat ch past = absurd (omega arith)
seek_loop-past t (suc moves) errno fat (stop e) past = rw e
seek_loop-past t (suc moves) errno {c} fat (link valid next fresh rest) past =
    rw (end_of_chain-valid t c fat valid, next)
      (seek_loop-past t moves errno fat rest (omega arith))

-- The position of an offset, a `u32`.
abbrev pub position : FatTable → ℕ → ℕ
position t offset = (offset / 2 ^ t.cluster_order) % 2 ^ 32

-- From the start of a chain of a FAT32 table the seek finds the rest of the chain at the position
-- of the offset and leaves errno, or, past the end of the chain, returns 0 with EOVERFLOW.
pub seek_cluster_lem :
    (t : FatTable) (errno c offset : ℕ) (cs : List ℕ)
    → IsFat32 t
    → Chain t c cs
    → ((position t offset ≤ length cs)
        × ((d : ℕ) × (seek_cluster t errno c offset ≡ (d, errno))
            × Chain t d (drop (position t offset) cs)))
      ⊎ ((length cs < position t offset) × (seek_cluster t errno c offset ≡ (0, eoverflow)))
unfolding seek_cluster
seek_cluster_lem t errno c offset cs fat ch =
    elim (Bool-cases (leb (position t offset) (length cs))) [
      | inl le ↦
          let within : position t offset ≤ length cs = ground arith in
          inl (within, seek_loop-Chain t (position t offset) errno fat ch within)
      | inr gt ↦
          let past : length cs < position t offset = ground arith in
          inr (past, seek_loop-past t (position t offset) errno fat ch past)
    ]

-- Cutting a list of distinct clusters.
abbrev pub IsDistinct : List ℕ → Type 0
IsDistinct [] = Unit {0}
IsDistinct (x ∷ xs) = (has x xs ≡ false) × IsDistinct xs

pub Chain-IsDistinct : (t : FatTable) {c : ℕ} {cs : List ℕ} → Chain t c cs → IsDistinct cs
Chain-IsDistinct t (stop e) = tt
Chain-IsDistinct t (link valid next fresh rest) = (fresh, Chain-IsDistinct t rest)

pub has-take : (i k : ℕ) (cs : List ℕ) → has i cs ≡ false → has i (take k cs) ≡ false
has-take i zero cs h = refl
has-take i (suc k) [] h = refl
has-take i (suc k) (c ∷ cs) h = ground (arith, has-take i k cs)

pub has-drop : (i k : ℕ) (cs : List ℕ) → has i cs ≡ false → has i (drop k cs) ≡ false
has-drop i zero cs h = h
has-drop i (suc k) [] h = refl
has-drop i (suc k) (c ∷ cs) h = has-drop i k cs (ground arith)

pub take-drop_disjoint :
    (i k : ℕ) (cs : List ℕ) → IsDistinct cs → has i (take k cs) ≡ true → has i (drop k cs) ≡ false
take-drop_disjoint i zero cs d h = cc
take-drop_disjoint i (suc k) [] d h = cc
take-drop_disjoint i (suc k) (c ∷ cs) d h = elim (Bool-cases (i == c)) [
  | inl e ↦ has-drop i k cs (ground arith)
  | inr e ↦ take-drop_disjoint i k cs d.1 (ground arith)
]

-- The front of a chain lives on in a table that keeps its words and ends it at the position `k`.
pub Chain-take :
    (t u : FatTable) (k : ℕ) {c : ℕ} {cs : List ℕ}
    → u.num_data_clusters ≡ t.num_data_clusters
    → Chain t c cs
    → k < length cs
    → ((i : ℕ) → has i (take k cs) ≡ true → u.fat_map i ≡ t.fat_map i)
    → get_next_cluster u (get_or cs k 0) ≡ end_of_chain
    → Chain u c (take (suc k) cs)
unfolding get_next_cluster is_valid_cluster_number
Chain-take t u k size (stop e) within same ends = absurd (omega arith)
Chain-take t u zero size (link valid next fresh rest) within same ends =
    link (rw size valid) ends refl (stop refl)
Chain-take t u (suc k) size (link {c} {n} {cs} valid next fresh rest) within same ends =
    link (rw size valid) (rw (size, same c (ground arith)) next) (has-take c (suc k) cs fresh)
      (Chain-take t u k size rest (omega arith) (λ i h. same i (ground arith)) ends)

-- What the walk finds at a position inside the chain.
pub drop-get_or :
    (k : ℕ) (cs : List ℕ) → k < length cs → drop k cs ≡ get_or cs k 0 ∷ drop (suc k) cs
drop-get_or zero [] h = absurd (omega arith)
drop-get_or zero (c ∷ cs) h = refl
drop-get_or (suc k) [] h = absurd (omega arith)
drop-get_or (suc k) (c ∷ cs) h = drop-get_or k cs (omega arith)
