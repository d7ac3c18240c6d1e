-- ===== src/Fat/Handle.antt =====
-- lab4/esqueleto/fat_file.c: how a file comes to be, and what else its structure is used for. A new
-- structure is always found memory for; a pointer to one is `Option`, NULL being `none`.
use Prim.Native.Nat.{bit_and, bit_or}
use operating_system_fa_maf.Common.{
  ℕ, ◌+◌, ◌-◌, ◌%◌, ◌^◌, Bool, true, false, not, Option, none, some, List, [], ◌==◌, leb,
  if◌then◌else◌, Run, done, fault, ◌>>=◌,
}
use operating_system_fa_maf.Fat.Os.{Os, Tm}
use operating_system_fa_maf.Fat.Libc.{Libc}
use operating_system_fa_maf.Fat.Table.{
  FatTable, Mount, end_of_chain, bytes_per_cluster, get_clusters_for_size, get_next_free_cluster,
  is_cluster_used, set_next_cluster,
}
use operating_system_fa_maf.Fat.Time.{fill_date, fill_time, unix_tm}
use operating_system_fa_maf.Fat.Dentry.{
  Dentry, fill_dentry_time_now, set_first_cluster, file_start_cluster, write_dir_entry, enospc,
}
use operating_system_fa_maf.Fat.Filename.{build_filename}
use operating_system_fa_maf.Fat.Filename.Split.{filename_from_path}
use operating_system_fa_maf.Fat.Directory.{set_head}

-- `struct fat_file_s` without its table. `nentries` is the union's only member that is ever read.
pub record Handle : Type 0 where
  pub dentry : Option Dentry
  pub name : List ℕ
  pub filepath : List ℕ
  pub start_cluster : ℕ
  pub nentries : ℕ
  pub pos_in_parent : ℕ
  pub num_times_opened : ℕ
  pub children_read : Bool

abbrev pub file_attribute_readonly : ℕ
file_attribute_readonly = 0x01

abbrev pub file_attribute_system : ℕ
file_attribute_system = 0x04

abbrev pub file_attribute_directory : ℕ
file_attribute_directory = 0x10

abbrev pub file_attribute_archive : ℕ
file_attribute_archive = 0x20

-- The entry with the fields of its name, as `fat_file_init_direntry` fills it in.
unfoldable pub new_entry :
    (now : Tm) → (is_dir : Bool) → (start_cluster : ℕ) → List ℕ × List ℕ → Dentry
new_entry now is_dir start_cluster (base, ext) =
    let blank : Dentry = record {
      base_name = base;
      extension = ext;
      attribs = if is_dir then file_attribute_directory else file_attribute_archive;
      reserved = 0;
      create_time_fine_res = 0;
      create_time = 0;
      create_date = 0;
      last_access_date = 0;
      start_cluster_high = 0;
      last_modified_time = 0;
      last_modified_date = 0;
      start_cluster_low = 0;
      file_size = 0;
    } in
    set_first_cluster (fill_dentry_time_now now true true blank) start_cluster

unfoldable pub fat_file_init_direntry :
    {W : Type 0}
    → Libc W
    → (now : Tm) → (is_dir : Bool) → (filepath : List ℕ) → (start_cluster : ℕ) → Run Dentry
unfolding new_entry
fat_file_init_direntry c now is_dir filepath start_cluster =
    filename_from_path (c.base_memory filepath) >>= λ names.
    done (new_entry now is_dir start_cluster names)

unfoldable pub fat_file_init_empty : (filepath : List ℕ) → Handle
fat_file_init_empty filepath = record {
  dentry = none;
  name = [];
  filepath = filepath;
  start_cluster = 0;
  nentries = 0;
  pos_in_parent = 0;
  num_times_opened = 0;
  children_read = false;
}

-- The last part of `fat_file_init`: the entry is there, and the cluster is to be taken.
unfoldable pub take_cluster :
    (os : Os)
    → (filepath : List ℕ) → (start_cluster : ℕ) → Mount os.World
    → Dentry
    → Option Handle × Mount os.World
unfolding fat_file_init_empty
take_cluster os filepath start_cluster s d =
    let file : Handle = record (fat_file_init_empty filepath) {
      dentry = some d;
      name = build_filename d.base_name d.extension;
      start_cluster = file_start_cluster d;
    } in
    let s1 = set_next_cluster os s start_cluster end_of_chain in
    if s1.errno == 0 then (some file, s1) else (none, s1)

-- The part that follows the search for a cluster, whose word is read where it is mapped.
unfoldable pub init_at :
    (os : Os)
    → Libc os.World
    → (is_dir : Bool) → (filepath : List ℕ) → Mount os.World
    → (start_cluster : ℕ) → Run (Option Handle × Mount os.World)
unfolding take_cluster
init_at os c is_dir filepath s start_cluster =
    let taken =
      fat_file_init_direntry c (os.gmtime_now s.world) is_dir filepath start_cluster >>= λ d.
      done (take_cluster os filepath start_cluster s d) in
    if leb s.table.fat_entries start_cluster
    then fault
    else if is_cluster_used s.table start_cluster
    then done (none, record s { errno = enospc })
    else taken

-- No `errno` is negative, so that the test behind `fat_file_init_empty` never holds.
unfoldable pub fat_file_init :
    (os : Os)
    → Libc os.World
    → (is_dir : Bool) → (filepath : List ℕ) → Mount os.World
    → Run (Option Handle × Mount os.World)
unfolding init_at
fat_file_init os c is_dir filepath s = elim (get_next_free_cluster s.table) [
  | none ↦ fault
  | some start_cluster ↦ init_at os c is_dir filepath s start_cluster
]

unfoldable pub fat_file_is_directory : Handle → Bool
fat_file_is_directory file = elim (file.dentry) [
  | none ↦ true
  | some d ↦ not (bit_and d.attribs file_attribute_directory == 0)
]

-- The counter has 31 bits.
unfoldable pub fat_file_inc_num_times_opened : Handle → Handle
fat_file_inc_num_times_opened file = record file {
  num_times_opened = (file.num_times_opened + 1) % 2 ^ 31;
}

unfoldable pub fat_file_dec_num_times_opened : Handle → Handle
fat_file_dec_num_times_opened file = record file {
  num_times_opened = (file.num_times_opened + 2 ^ 31 - 1) % 2 ^ 31;
}

-- `struct stat`, the members that are set.
pub record Stat : Type 0 where
  pub st_nlink : ℕ
  pub st_mode : ℕ
  pub st_size : ℕ
  pub st_blocks : ℕ
  pub st_blksize : ℕ
  pub st_ctime : ℕ
  pub st_atime : ℕ
  pub st_mtime : ℕ

-- The root has no entry, which is followed all the same. S_IFDIR is 0o040000, S_IFREG 0o100000.
unfoldable pub fat_file_to_stbuf : {W : Type 0} → Libc W → FatTable → Handle → Run Stat
unfolding fat_file_is_directory
fat_file_to_stbuf c t file = elim (file.dentry) [
  | none ↦ fault
  | some d ↦ done (record {
    st_nlink = 1;
    st_mode =
        bit_or (if fat_file_is_directory file then 16384 else 32768)
          (if bit_and d.attribs file_attribute_readonly == 0 then 511 else 365);
    st_size = d.file_size;
    st_blocks = get_clusters_for_size t d.file_size;
    st_blksize = bytes_per_cluster t;
    st_ctime = c.mktime (unix_tm d.create_date d.create_time);
    st_atime = c.mktime (unix_tm d.last_access_date 0);
    st_mtime = c.mktime (unix_tm d.last_modified_date d.last_modified_time);
  })
]

-- A function of the file's entry, which is followed.
abbrev pub with_entry : {B : Type 0} → Handle → (Dentry → B) → Run B
with_entry file f = elim (file.dentry) [ none ↦ fault | some d ↦ done (f d) ]

-- `accessed` and `modified` are what `gmtime_r` makes of the two times.
unfoldable pub fat_utime :
    (os : Os)
    → (accessed modified : Tm) → Handle
    → (parent : Handle) → Mount os.World
    → Run (Handle × Mount os.World)
fat_utime os accessed modified file parent s = with_entry file λ d.
    let d1 : Dentry = record d {
      last_access_date = fill_date accessed;
      last_modified_date = fill_date modified;
      last_modified_time = fill_time modified;
    } in
    (
      record file { dentry = some d1 },
      write_dir_entry os s parent.start_cluster d1 file.pos_in_parent,
    )

-- The parent, the child and the mount.
unfoldable pub fat_file_dentry_add_child :
    (os : Os) → (parent child : Handle) → Mount os.World → Run (Handle × Handle × Mount os.World)
fat_file_dentry_add_child os parent child s = with_entry child λ d.
    let s1 = write_dir_entry os s parent.start_cluster d parent.nentries in
    if s1.errno == 0
    then (
      record parent { nentries = (parent.nentries + 1) % 2 ^ 32 },
      record child { pos_in_parent = parent.nentries },
      s1,
    )
    else (parent, child, s1)

unfoldable pub fat_file_hide :
    (os : Os) → (file parent : Handle) → Mount os.World → Run (Handle × Mount os.World)
fat_file_hide os file parent s = with_entry file λ d.
    let d1 : Dentry = record d {
      base_name = set_head 0xe5 d.base_name;
      attribs = file_attribute_system;
    } in
    (
      record file { dentry = some d1 },
      write_dir_entry os s parent.start_cluster d1 file.pos_in_parent,
    )
