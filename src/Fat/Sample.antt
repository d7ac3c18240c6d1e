-- ===== src/Fat/Sample.antt =====
-- A small volume and a small operating system for the tests: four clusters of four bytes, three of
-- them a chain, and calls that read and write all that they are asked for.
use operating_system_fa_maf.Common.{
  ℕ, zero, suc, ◌≤◌, refl, [], ◌∷◌, length, get_or, replicate, arith,
}
use operating_system_fa_maf.Fat.Os.{Os, Tm, moved, bytes}
use operating_system_fa_maf.Fat.Io.Complete.{Reads, Writes}
use operating_system_fa_maf.Fat.Table.{
  FatTable, Mount, end_of_chain, get_next_cluster, is_valid_cluster_number,
}
use operating_system_fa_maf.Fat.Table.Chain.{Chain, stop, link, IsFat32}
use operating_system_fa_maf.Fat.Dentry.{Dentry}
use operating_system_fa_maf.Fat.File.{FatFile}

abbrev pub small_time : Tm
small_time = record {
  tm_sec = 31;
  tm_min = 59;
  tm_hour = 23;
  tm_mday = 6;
  tm_mon = 10;
  tm_year = 123;
}

-- The world counts the calls.
abbrev pub small_os : Os
small_os = record {
  World = ℕ;
  pwrite = λ w buf offset. (moved (length buf), suc w);
  pread = λ w n offset. (bytes (replicate n 7), suc w);
  gmtime_now = λ w. small_time;
}

pub small_os-Writes : Writes small_os
small_os-Writes w [] offset h = absurd (omega arith)
small_os-Writes w (b ∷ bs) offset h = (length bs, suc w, refl, omega arith)

length-replicate : (n : ℕ) → length {A = ℕ} (replicate n 7) ≤ n
length-replicate zero = omega arith
length-replicate (suc n) = omega (arith, length-replicate n)

pub small_os-Reads : Reads small_os
small_os-Reads w zero offset h = absurd (h refl)
small_os-Reads w (suc n) offset h =
    (7, replicate n 7, suc w, refl, omega (arith, length-replicate n))

abbrev pub small_words : ℕ → ℕ
small_words i = get_or (0 ∷ 0 ∷ 3 ∷ 4 ∷ end_of_chain ∷ []) i 0

abbrev pub small_table : FatTable
small_table = record {
  fat_map = small_words;
  fat_entries = 6;
  fat_offset = 32;
  num_data_clusters = 4;
  data_start_offset = 64;
  cluster_order = 2;
}

abbrev pub small_mount : Mount ℕ
small_mount = record { table = small_table; world = 0; errno = 0 }

pub small_table-IsFat32 : IsFat32 small_table
small_table-IsFat32 = omega arith

pub small-Chain : Chain small_table 2 (2 ∷ 3 ∷ 4 ∷ [])
unfolding get_next_cluster is_valid_cluster_number
small-Chain = link {c = 2} {n = 3} refl refl refl (
    link {c = 3} {n = 4} refl refl refl
      (link {c = 4} {n = end_of_chain} refl refl refl (stop refl)))

abbrev pub small_dentry : Dentry
small_dentry = record {
  base_name = b'N' ∷ b'O' ∷ b'T' ∷ b'E' ∷ b'S' ∷ b' ' ∷ b' ' ∷ b' ' ∷ [];
  extension = b'T' ∷ b'X' ∷ b'T' ∷ [];
  attribs = 32;
  reserved = 0;
  create_time_fine_res = 0;
  create_time = 0;
  create_date = 0;
  last_access_date = 0;
  start_cluster_high = 0;
  last_modified_time = 0;
  last_modified_date = 0;
  start_cluster_low = 2;
  file_size = 11;
}

abbrev pub small_file : FatFile
small_file = record { dentry = small_dentry; start_cluster = 2; pos_in_parent = 0 }
