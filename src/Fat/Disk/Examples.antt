-- ===== src/Fat/Disk/Examples.antt =====
-- A volume in memory, and a write across two of its clusters.
use operating_system_fa_maf.Common.{
  ℕ, zero, suc, ◌+◌, ◌-◌, ◌*◌, ◌^◌, ◌≤◌, ◌<◌, ◌≡◌, ◌≢◌, false, ◌++◌, drop, refl, min, List, [], ◌∷◌,
  length, get_or, take, arith, done,
}
use operating_system_fa_maf.Fat.Os.{Os, moved, bytes}
use operating_system_fa_maf.Fat.Table.{
  FatTable, Mount, end_of_chain, get_next_cluster, is_valid_cluster_number,
}
use operating_system_fa_maf.Fat.Table.Chain.{Chain, stop, link}
use operating_system_fa_maf.Fat.File.{FatFile, Outcome, pwrite, pread}
use operating_system_fa_maf.Fat.Disk.{Disk, patch}
use operating_system_fa_maf.Fat.Disk.Cells.{cells, length-cells, get_or-cells}
use operating_system_fa_maf.Fat.Disk.Entry.{IsApart}
use operating_system_fa_maf.Fat.Disk.Listing.{cluster_entries, Listed}
use operating_system_fa_maf.Fat.Disk.Persist.{fat_file_read_children-write_dir_entry}
use operating_system_fa_maf.Fat.Dentry.{write_dir_entry, dentry_bytes, dentry_written, le16}
use operating_system_fa_maf.Fat.Directory.{Directory, last}
use operating_system_fa_maf.Fat.Directory.Clusters.{fat_file_read_children}
use operating_system_fa_maf.Fat.Dentry.Read.{IsEntry}
use operating_system_fa_maf.Fat.Disk.RoundTrip.{pread-pwrite}
use operating_system_fa_maf.Fat.Sample.{small_time, small_dentry}

abbrev memory_os : Os
memory_os = record {
  World = ℕ → ℕ;
  pwrite = λ w buf offset. (moved (length buf), patch w offset (length buf) (λ j. get_or buf j 0));
  pread = λ w n offset. (bytes (cells w n offset), w);
  gmtime_now = λ w. small_time;
}

memory_stores :
    (w : ℕ → ℕ) (buf : List ℕ) (offset : ℕ)
    → 1 ≤ length buf
    → (m : ℕ) × (w' : ℕ → ℕ) × (memory_os.pwrite w buf offset ≡ (moved (suc m), w'))
      × (suc m ≤ length buf)
      × ((i : ℕ) → w' i ≡ patch w offset (suc m) (λ j. get_or buf j 0) i)
memory_stores w [] offset h = absurd (omega arith)
memory_stores w (b ∷ bs) offset h = (length bs, _, refl, omega arith, λ i. refl)

memory_loads :
    (w : ℕ → ℕ) (n offset : ℕ)
    → n ≢ 0
    → (b : ℕ) × (bs : List ℕ) × (w' : ℕ → ℕ) × (memory_os.pread w n offset ≡ (bytes (b ∷ bs), w'))
      × (length (b ∷ bs) ≤ n)
      × ((j : ℕ) → j < length (b ∷ bs) → get_or (b ∷ bs) j 0 ≡ w (offset + j))
      × ((i : ℕ) → w' i ≡ w i)
memory_loads w zero offset h = absurd (h refl)
memory_loads w (suc n) offset h = (
  w offset,
  cells w n (suc offset),
  w,
  refl,
  omega (arith, length-cells w n (suc offset)),
  (λ j lt. get_or-cells w (suc n) offset j (omega (arith, length-cells w n (suc offset)))),
  λ i. refl,
)

abbrev memory : Disk memory_os
memory = record { at = λ w. w; stores = memory_stores; loads = memory_loads }

-- Clusters of 32 bytes: 2 and 3 are the file's, 4 is the directory's.
abbrev disk_table : FatTable
disk_table = record {
  fat_map = λ i. get_or (0 ∷ 0 ∷ 3 ∷ end_of_chain ∷ end_of_chain ∷ []) i 0;
  fat_entries = 5;
  fat_offset = 32;
  num_data_clusters = 3;
  data_start_offset = 64;
  cluster_order = 5;
}

abbrev disk_mount : Mount (ℕ → ℕ)
disk_mount = record { table = disk_table; world = λ i. 0; errno = 0 }

disk-Chain : Chain disk_table 2 (2 ∷ 3 ∷ [])
unfolding get_next_cluster is_valid_cluster_number
disk-Chain =
    link {c = 2} {n = 3} refl refl refl (link {c = 3} {n = end_of_chain} refl refl refl (stop refl))

abbrev disk_file : FatFile
disk_file = record {
  dentry = record (small_dentry) { file_size = 30 };
  start_cluster = 2;
  pos_in_parent = 0;
}

disk_file-IsApart : IsApart disk_table (2 ∷ 3 ∷ []) disk_file 4
unfolding is_valid_cluster_number
disk_file-IsApart = record {
  base = refl;
  ext = refl;
  valid = refl;
  apart = refl;
  fits = omega arith;
}

abbrev six : List ℕ
six = 1 ∷ 2 ∷ 3 ∷ 4 ∷ 5 ∷ 6 ∷ []

pread-pwrite_example :
    (o u : Outcome (ℕ → ℕ)) × (pwrite memory_os 9 9 disk_file six 6 30 4 disk_mount ≡ done o)
    × (o.count ≡ min 6 (2 * 2 ^ 5 - 30))
    × (pread memory_os 9 9 o.after.file o.count 30 4 (record (o.after.mount) { errno = 0 })
        ≡ done u)
    × (u.count ≡ o.count)
    × (u.content ≡ take o.count six)
pread-pwrite_example =
    pread-pwrite memory_os memory 9 9 disk_file six 6 30 4 disk_mount (2 ∷ 3 ∷ []) (omega arith)
      disk-Chain disk_file-IsApart refl (omega arith) (omega arith) (omega arith) (omega arith)
      (omega arith) (omega arith)

-- The directory of cluster 4, and an entry for its only place.
abbrev root_directory : Directory
root_directory = record { filepath = b'/' ∷ []; nentries = 0; children_read = false }

small_dentry-IsEntry : IsEntry small_dentry
small_dentry-IsEntry = record {
  base = refl;
  ext = refl;
  create_time = omega arith;
  create_date = omega arith;
  last_access_date = omega arith;
  start_cluster_high = omega arith;
  last_modified_time = omega arith;
  last_modified_date = omega arith;
  start_cluster_low = omega arith;
  file_size = omega arith;
}

root-Chain : Chain disk_table 4 (4 ∷ [])
unfolding get_next_cluster is_valid_cluster_number
root-Chain = link {c = 4} {n = end_of_chain} refl refl refl (stop refl)

entry_written : (write_dir_entry memory_os disk_mount 4 small_dentry 0).errno ≡ 0
unfolding write_dir_entry dentry_written dentry_bytes le16
entry_written = refl

fat_file_read_children-write_dir_entry_example :
    Listed memory_os memory
      ((take 0 (cluster_entries disk_table (λ i. 0) 4)
          ++ small_dentry ∷ drop 1 (cluster_entries disk_table (λ i. 0) 4))
        ∷ [])
      root_directory
      []
      (fat_file_read_children memory_os 40 3 4 root_directory
        (write_dir_entry memory_os disk_mount 4 small_dentry 0))
unfolding last
fat_file_read_children-write_dir_entry_example =
    fat_file_read_children-write_dir_entry memory_os memory 40 3 4 0 0 small_dentry root_directory
      disk_mount [] (omega arith) root-Chain small_dentry-IsEntry (omega arith) entry_written
      (omega arith) (omega arith) refl
