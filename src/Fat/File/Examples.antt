-- ===== src/Fat/File/Examples.antt =====
-- Runs on the small volume.
use operating_system_fa_maf.Common.{
  ℕ, ◌+◌, ◌*◌, ◌-◌, ◌^◌, ◌≡◌, refl, min, max, true, false, List, [], ◌∷◌, length, arith, done,
}
use operating_system_fa_maf.Fat.Table.{
  Mount, cluster_free, bytes_per_cluster, get_clusters_for_size,
}
use operating_system_fa_maf.Fat.Table.Chain.{has}
use operating_system_fa_maf.Fat.Dentry.{write_dir_entry}
use operating_system_fa_maf.Fat.File.{After, Outcome, truncate, remove, pwrite, pread}
use operating_system_fa_maf.Fat.File.Truncate.{Cut, truncate_cuts}
use operating_system_fa_maf.Fat.File.Remove.{remove_frees}
use operating_system_fa_maf.Fat.File.Grow.{pwrite-table}
use operating_system_fa_maf.Fat.File.Pwrite.{pwrite_fills}
use operating_system_fa_maf.Fat.File.Pread.{pread_reads}
use operating_system_fa_maf.Fat.Sample.{
  small_os, small_os-Writes, small_os-Reads, small_table, small_table-IsFat32, small_mount,
  small-Chain, small_file,
}

-- From 11 bytes to 6 of a file of three clusters of four bytes.
truncate_cuts_example :
    (r : After ℕ) × (truncate small_os 5 small_file 6 9 small_mount ≡ done r)
    × Cut small_table 2 (2 ∷ 3 ∷ 4 ∷ []) 1 r.mount.table
    × (r.file.dentry.file_size ≡ 6)
unfolding get_clusters_for_size bytes_per_cluster
truncate_cuts_example =
    truncate_cuts small_os 5 small_file 6 9 small_mount (2 ∷ 3 ∷ 4 ∷ []) small_os-Writes
      small_table-IsFat32 small-Chain refl (omega arith) (omega arith) (omega arith) (omega arith)
      (omega arith)

remove_frees_example :
    (s1 s' : Mount ℕ) × (remove small_os 5 small_file 9 small_mount ≡ done s')
    × (s' ≡ write_dir_entry small_os s1 9 small_file.dentry 0)
    × ((i : ℕ) → has i (2 ∷ 3 ∷ 4 ∷ []) ≡ true → s'.table.fat_map i ≡ cluster_free)
    × ((i : ℕ) → has i (2 ∷ 3 ∷ 4 ∷ []) ≡ false → s'.table.fat_map i ≡ small_table.fat_map i)
remove_frees_example =
    remove_frees small_os 5 small_file 9 small_mount (2 ∷ 3 ∷ 4 ∷ []) small_os-Writes
      small_table-IsFat32 small-Chain refl (omega arith)

-- Six bytes at 9: the clusters have room for three.
pwrite_fills_example :
    (o : Outcome ℕ) × (pwrite small_os 9 9 small_file (1 ∷ 2 ∷ 3 ∷ 4 ∷ 5 ∷ 6 ∷ []) 6 9 9 small_mount
      ≡ done o)
    × (o.count ≡ min 6 (3 * 2 ^ 2 - 9))
    × (o.after.file.dentry.file_size ≡ max 11 (9 + o.count))
    × (o.after.mount.table ≡ small_table)
pwrite_fills_example =
    pwrite_fills small_os 9 9 small_file (1 ∷ 2 ∷ 3 ∷ 4 ∷ 5 ∷ 6 ∷ []) 6 9 9 small_mount
      (2 ∷ 3 ∷ 4 ∷ []) small_os-Writes small_table-IsFat32 small-Chain refl (omega arith)
      (omega arith) (omega arith) (omega arith) (omega arith) (omega arith)

pread_reads_example :
    (o : Outcome ℕ) × (pread small_os 9 9 small_file 6 3 9 small_mount ≡ done o)
    × (o.count ≡ min (min 6 (11 - 3)) (3 * 2 ^ 2 - 3))
    × (length o.content ≡ o.count)
    × (o.after.file.dentry.file_size ≡ 11)
    × (o.after.mount.table ≡ small_table)
pread_reads_example =
    pread_reads small_os 9 9 small_file 6 3 9 small_mount (2 ∷ 3 ∷ 4 ∷ []) small_os-Reads
      small_table-IsFat32 small-Chain refl (omega arith) (omega arith) (omega arith) (omega arith)
      (omega arith)

abbrev six : List ℕ
six = 1 ∷ 2 ∷ 3 ∷ 4 ∷ 5 ∷ 6 ∷ []

-- The same write, as a run.
six_written : (o : Outcome ℕ) × (pwrite small_os 9 9 small_file six 6 9 9 small_mount ≡ done o)
six_written =
    let r =
      pwrite_fills small_os 9 9 small_file six 6 9 9 small_mount (2 ∷ 3 ∷ 4 ∷ []) small_os-Writes
        small_table-IsFat32 small-Chain refl (omega arith) (omega arith) (omega arith) (omega arith)
        (omega arith) (omega arith) in
    (r.0, r.1)

pwrite-table_example : six_written.0.after.mount.table ≡ small_table
pwrite-table_example = pwrite-table small_os 9 9 small_file six 6 9 9 small_mount six_written.1
