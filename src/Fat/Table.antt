-- ===== src/Fat/Table.antt =====
-- lab4/esqueleto/fat_table.c: the table of clusters and the chains in it. The mapped table is a
-- function from an index to the 32-bit word there; `fat_entries` is the number of words mapped.
-- `offset & (2 ^ k - 1)` is `offset % 2 ^ k`, `x >> k` is `x / 2 ^ k` and `x << k` is `x * 2 ^ k`.
pub mod Free
pub mod Chain
pub mod Seek
pub mod Release
mod Examples
use operating_system_fa_maf.Common.{
  ℕ, zero, suc, ◌+◌, ◌-◌, ◌*◌, ◌/◌, ◌%◌, ◌^◌, min, Bool, ◌&&◌, ◌||◌, Option, none, some, List, [],
  ◌∷◌, ltb, leb, ◌==◌, if◌then◌else◌,
}
use mathlib.Core.Option
use operating_system_fa_maf.Fat.Os.{Os, Transfer, moved, failed}

abbrev pub end_of_chain : ℕ
end_of_chain = 0x0fff_fff8

abbrev pub end_of_chain2 : ℕ
end_of_chain2 = 0x0fff_ffff

abbrev pub cluster_free : ℕ
cluster_free = 0

abbrev pub eio : ℕ
eio = 5

abbrev pub eoverflow : ℕ
eoverflow = 75

pub record FatTable : Type 0 where
  pub fat_map : ℕ → ℕ
  pub fat_entries : ℕ
  pub fat_offset : ℕ
  pub num_data_clusters : ℕ
  pub data_start_offset : ℕ
  pub cluster_order : ℕ

-- A mounted table, the world outside and `errno`.
pub record Mount (W : Type 0) : Type 0 where
  pub table : FatTable
  pub world : W
  pub errno : ℕ

unfoldable pub is_valid_cluster_number : FatTable → ℕ → Bool
is_valid_cluster_number t cluster = leb 2 cluster && ltb cluster (t.num_data_clusters + 2)

unfoldable pub get_next_cluster : FatTable → ℕ → ℕ
unfolding is_valid_cluster_number
get_next_cluster t cur =
    let next = t.fat_map cur in if is_valid_cluster_number t next then next else end_of_chain

unfoldable pub bytes_per_cluster : FatTable → ℕ
bytes_per_cluster t = 2 ^ t.cluster_order

unfoldable pub mask_offset : ℕ → FatTable → ℕ
unfolding bytes_per_cluster
mask_offset offset t = offset % bytes_per_cluster t

unfoldable pub get_cluster_remaining_bytes : FatTable → ℕ → ℕ → ℕ
unfolding bytes_per_cluster mask_offset
get_cluster_remaining_bytes t remaining offset =
    min (bytes_per_cluster t - mask_offset offset t) remaining

-- The result is a `u32`.
unfoldable pub get_clusters_for_size : FatTable → ℕ → ℕ
unfolding bytes_per_cluster
get_clusters_for_size t size = ((size + (bytes_per_cluster t - 1)) / 2 ^ t.cluster_order) % 2 ^ 32

-- The `while` loop of `fat_table_get_next_free_cluster`, from word `i` on, with `left` words left
-- in the mapping; `none` is a read past its end.
unfoldable pub free_loop : FatTable → (left : ℕ) → ℕ → Option ℕ
free_loop t zero i = none
free_loop t (suc left) i =
    let rest = free_loop t left (i + 1) in if t.fat_map i == cluster_free then some i else rest

unfoldable pub get_next_free_cluster : FatTable → Option ℕ
unfolding free_loop is_valid_cluster_number
get_next_free_cluster t =
    Option.map (λ i. if is_valid_cluster_number t i then i else end_of_chain)
      (free_loop t (t.fat_entries - 2) 2)

-- `cluster - 2` is computed in `u32`.
unfoldable pub cluster_offset : FatTable → ℕ → ℕ
cluster_offset t cluster =
    t.data_start_offset + ((cluster + 2 ^ 32 - 2) % 2 ^ 32) * 2 ^ t.cluster_order

unfoldable pub is_cluster_used : FatTable → ℕ → Bool
is_cluster_used t cluster = if t.fat_map cluster == 0 then Bool.false else Bool.true

unfoldable pub is_eoc : ℕ → Bool
is_eoc cluster = (cluster == end_of_chain) || (cluster == end_of_chain2)

-- The four bytes of a word, low byte first.
unfoldable pub le32 : ℕ → List ℕ
le32 n = n % 256 ∷ (n / 256) % 256 ∷ (n / 65536) % 256 ∷ (n / 16777216) % 256 ∷ []

-- A store into the mapped table.
unfoldable pub store_entry : FatTable → ℕ → ℕ → FatTable
store_entry t cur next = record t { fat_map = λ i. if i == cur then next else t.fat_map i }

-- The part of `fat_table_set_next_cluster` behind its `pwrite`.
unfoldable pub commit_entry : {W : Type 0} → Mount W → ℕ → ℕ → Transfer × W → Mount W
unfolding store_entry
commit_entry s cur next (moved zero, w) = record s { world = w; errno = eio }
commit_entry s cur next (moved (suc n), w) = record s {
  world = w;
  table = store_entry s.table cur next;
}
commit_entry s cur next (failed e, w) = record s { world = w; errno = eio }

-- `cur_cluster * 4` is computed in `u32`.
unfoldable pub set_next_cluster : (os : Os) → Mount os.World → ℕ → ℕ → Mount os.World
unfolding commit_entry le32
set_next_cluster os s cur next =
    commit_entry s cur next
      (os.pwrite s.world (le32 next) ((cur * 4) % 2 ^ 32 + s.table.fat_offset))

-- The `for` loop of `fat_table_seek_cluster`, by the positions left to move: a cluster and `errno`.
unfoldable pub seek_loop : FatTable → ℕ → (errno : ℕ) → ℕ → ℕ × ℕ
seek_loop t zero errno cluster = (cluster, errno)
seek_loop t (suc moves) errno cluster =
    let rest = seek_loop t moves errno (get_next_cluster t cluster) in
    if cluster == end_of_chain then (0, eoverflow) else rest

unfoldable pub seek_cluster : FatTable → (errno : ℕ) → ℕ → ℕ → ℕ × ℕ
unfolding seek_loop get_next_cluster
seek_cluster t errno start offset =
    seek_loop t ((offset / 2 ^ t.cluster_order) % 2 ^ 32) errno start

-- The `while` loop that ends `fat_file_truncate` and makes up `fat_file_remove`
-- (lab4/esqueleto/fat_file.c), on fuel; `none` means that the fuel ran out.
unfoldable pub free_chain : (os : Os) → (fuel : ℕ) → ℕ → Mount os.World → Option (Mount os.World)
free_chain os zero last s = none
free_chain os (suc fuel) last s =
    let rest =
      free_chain os fuel (get_next_cluster s.table last)
        (set_next_cluster os s last cluster_free) in
    if is_eoc last then some s else rest
