-- ===== src/Fat/Dentry.antt =====
-- Directory entries, `struct fat_dir_entry_s` of lab4/esqueleto/fat_file.h, and the functions of
-- lab4/esqueleto/fat_file.c that fill one in and write one to the volume.
pub mod Cluster
pub mod Write
pub mod Read
use Prim.Native.Nat.{bit_or}
use operating_system_fa_maf.Common.{
  ℕ, zero, suc, ◌+◌, ◌-◌, ◌*◌, ◌/◌, ◌%◌, ◌^◌, Bool, true, false, not, ◌||◌, List, [], ◌∷◌, ◌++◌,
  leb, ltb, if◌then◌else◌,
}
use operating_system_fa_maf.Fat.Os.{Os, Tm, Transfer, moved, failed}
use operating_system_fa_maf.Fat.Table.{
  FatTable, Mount, bytes_per_cluster, cluster_offset, le32, eio,
}
use operating_system_fa_maf.Fat.Time.{fill_date, fill_time}

abbrev pub enospc : ℕ
enospc = 28

-- `base_name` has 8 bytes and `extension` 3.
pub record Dentry : Type 0 where
  pub base_name : List ℕ
  pub extension : List ℕ
  pub attribs : ℕ
  pub reserved : ℕ
  pub create_time_fine_res : ℕ
  pub create_time : ℕ
  pub create_date : ℕ
  pub last_access_date : ℕ
  pub start_cluster_high : ℕ
  pub last_modified_time : ℕ
  pub last_modified_date : ℕ
  pub start_cluster_low : ℕ
  pub file_size : ℕ

-- `fill_create` without `fill_modified` is refused, and nothing is filled in.
unfoldable pub fill_dentry_time_now : Tm → (fill_create fill_modified : Bool) → Dentry → Dentry
unfolding fill_date fill_time
fill_dentry_time_now now true false d = d
fill_dentry_time_now now true true d = record d {
  last_modified_date = fill_date now;
  last_modified_time = fill_time now;
  last_access_date = fill_date now;
  create_date = fill_date now;
  create_time = fill_time now;
}
fill_dentry_time_now now false true d = record d {
  last_modified_date = fill_date now;
  last_modified_time = fill_time now;
  last_access_date = fill_date now;
}
fill_dentry_time_now now false false d = record d { last_access_date = fill_date now }

-- The four bytes of the word, split over two 16-bit fields.
unfoldable pub set_first_cluster : Dentry → ℕ → Dentry
set_first_cluster d cluster = record d {
  start_cluster_low = cluster % 2 ^ 16;
  start_cluster_high = (cluster / 2 ^ 16) % 2 ^ 16;
}

unfoldable pub file_start_cluster : Dentry → ℕ
file_start_cluster d = bit_or d.start_cluster_low (d.start_cluster_high * 2 ^ 16)

unfoldable pub le16 : ℕ → List ℕ
le16 n = n % 256 ∷ (n / 256) % 256 ∷ []

-- The 32 bytes of the packed structure, in the order of its members.
unfoldable pub dentry_bytes : Dentry → List ℕ
unfolding le16 le32
dentry_bytes d =
    d.base_name
    ++ d.extension
    ++ d.attribs ∷ d.reserved ∷ d.create_time_fine_res ∷ le16 d.create_time
    ++ le16 d.create_date
    ++ le16 d.last_access_date
    ++ le16 d.start_cluster_high
    ++ le16 d.last_modified_time
    ++ le16 d.last_modified_date
    ++ le16 d.start_cluster_low
    ++ le32 d.file_size

-- The part of `write_dir_entry` behind its `pwrite`. The count is compared as a `size_t`, so the
-- -1 of a failed write is no short write: `errno` is what `pwrite` set.
unfoldable pub dentry_written : {W : Type 0} → Mount W → Transfer × W → Mount W
dentry_written s (moved n, w) =
    if ltb n 32 then record s { world = w; errno = eio } else record s { world = w }
dentry_written s (failed e, w) = record s { world = w; errno = e }

unfoldable pub write_dir_entry :
    (os : Os) → Mount os.World → (parent_start : ℕ) → Dentry → (nentry : ℕ) → Mount os.World
unfolding dentry_written dentry_bytes bytes_per_cluster cluster_offset
write_dir_entry os s parent_start d nentry =
    if leb (bytes_per_cluster s.table) (nentry * 32)
    then record s { errno = enospc }
    else dentry_written s
        (os.pwrite s.world (dentry_bytes d) (nentry * 32 + cluster_offset s.table parent_start))
