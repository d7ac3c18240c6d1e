-- ===== src/Fat/Table/Examples.antt =====
-- Runs on the small table.
use operating_system_fa_maf.Common.{
  ℕ, ◌≤◌, ◌<◌, ◌≡◌, ◌≢◌, refl, ◌⊎◌, true, some, [], ◌∷◌, drop, arith,
}
use operating_system_fa_maf.Fat.Table.{
  FatTable, Mount, end_of_chain, is_valid_cluster_number, get_next_free_cluster, seek_cluster,
  eoverflow, free_chain,
}
use operating_system_fa_maf.Fat.Table.Chain.{Chain}
use operating_system_fa_maf.Fat.Table.Free.{get_next_free_cluster-least}
use operating_system_fa_maf.Fat.Table.Seek.{position, seek_cluster_lem}
use operating_system_fa_maf.Fat.Table.Release.{Released, free_chain-Released}
use operating_system_fa_maf.Fat.Sample.{
  small_os, small_table, small_table-IsFat32, small_mount, small-Chain,
}

get_next_free_cluster-least_example :
    (k : ℕ) × (get_next_free_cluster small_table ≡ some k)
    × (is_valid_cluster_number small_table k ≡ true)
    × (small_table.fat_map k ≡ 0)
    × ((i : ℕ) → 2 ≤ i → i < k → small_table.fat_map i ≢ 0)
unfolding is_valid_cluster_number
get_next_free_cluster-least_example =
    get_next_free_cluster-least small_table 5 (omega arith) refl refl

abbrev full_table : FatTable
full_table = record small_table { fat_map = λ i. end_of_chain }

seek_cluster_lem_example :
    ((position small_table 9 ≤ 3)
      × ((d : ℕ) × (seek_cluster small_table 0 2 9 ≡ (d, 0))
          × Chain small_table d (drop (position small_table 9) (2 ∷ 3 ∷ 4 ∷ []))))
    ⊎ ((3 < position small_table 9) × (seek_cluster small_table 0 2 9 ≡ (0, eoverflow)))
seek_cluster_lem_example =
    seek_cluster_lem small_table 0 2 9 (2 ∷ 3 ∷ 4 ∷ []) small_table-IsFat32 small-Chain

free_chain-Released_example :
    (s' : Mount ℕ) × (free_chain small_os 5 2 small_mount ≡ some s')
    × Released small_mount (2 ∷ 3 ∷ 4 ∷ []) s'
free_chain-Released_example =
    free_chain-Released small_os 5 small_mount small_table-IsFat32 small-Chain (omega arith)
