-- ===== src/Fat/File.antt =====
-- lab4/esqueleto/fat_file.c: reading, writing, shortening and removing a file.
pub mod Truncate
pub mod Remove
pub mod Room
pub mod Grow
pub mod Pwrite
pub mod Pread
mod Examples
use operating_system_fa_maf.Common.{
  ℕ, zero, suc, ◌+◌, ◌-◌, ◌*◌, ◌/◌, ◌%◌, ◌^◌, min, max, Bool, true, false, not, ◌&&◌, ◌||◌, Option,
  none, some, List, [], ◌∷◌, ◌++◌, leb, ltb, ◌==◌, if◌then◌else◌, drop, Run, done, fault,
  out_of_fuel, ◌>>=◌,
}
use operating_system_fa_maf.Fat.Os.{Os}
use operating_system_fa_maf.Fat.Io.{Io, full_pread, full_pwrite}
use operating_system_fa_maf.Fat.Table.{
  FatTable, Mount, end_of_chain, cluster_free, eoverflow, is_valid_cluster_number, get_next_cluster,
  get_cluster_remaining_bytes, get_clusters_for_size, get_next_free_cluster, cluster_offset,
  mask_offset, set_next_cluster, seek_cluster, is_eoc, free_chain,
}
use operating_system_fa_maf.Fat.Dentry.{Dentry, fill_dentry_time_now, write_dir_entry}

-- The members of `struct fat_file_s` that these functions use; a parent is known by its start
-- cluster, the only member of it that they read.
pub record FatFile : Type 0 where
  pub dentry : Dentry
  pub start_cluster : ℕ
  pub pos_in_parent : ℕ

-- A file and the mount, after an operation.
pub record After (W : Type 0) : Type 0 where
  pub file : FatFile
  pub mount : Mount W

-- The last lines of each operation: the entry with its new times is written to the parent.
unfoldable pub update_entry :
    (os : Os) → (fill_modified : Bool) → FatFile → (parent : ℕ) → Mount os.World → After os.World
update_entry os fill_modified file parent s =
    let d = fill_dentry_time_now (os.gmtime_now s.world) false fill_modified file.dentry in
    record {
      file = record file { dentry = d };
      mount = write_dir_entry os s parent d file.pos_in_parent;
    }

-- `fat_file_truncate` from the seek on, given the cluster that becomes the last.
unfoldable pub cut_at :
    (os : Os)
    → (fuel : ℕ) → FatFile
    → (offset parent last : ℕ) → Mount os.World
    → Run (After os.World)
cut_at os fuel file offset parent last s =
    let next = get_next_cluster s.table last in
    let s1 = set_next_cluster os s last end_of_chain in
    if s1.errno == 0
    then elim (free_chain os fuel next s1) [
      | none ↦ out_of_fuel
      | some s2 ↦ done (
          update_entry os true
            (record file { dentry = record (file.dentry) { file_size = offset } }) parent s2)
    ]
    else done (record { file = file; mount = s1 })

-- `fuel` bounds the rounds of the loop that frees the clusters behind the cut.
unfoldable pub truncate :
    (os : Os) → (fuel : ℕ) → FatFile → (offset parent : ℕ) → Mount os.World → Run (After os.World)
truncate os fuel file offset parent s =
    let current = max 1 (get_clusters_for_size s.table file.dentry.file_size) in
    let new = max 1 (get_clusters_for_size s.table offset) in
    let (last, errno) = seek_cluster s.table s.errno file.start_cluster offset in
    let rest = cut_at os fuel file offset parent last s in
    if ltb file.dentry.file_size offset || leb current new
    then done (record { file = file; mount = s })
    else if errno == 0
    then rest
    else done (record { file = file; mount = record s { errno = errno } })

-- `fat_file_remove`; it writes the entry as it is.
unfoldable pub remove :
    (os : Os) → (fuel : ℕ) → FatFile → (parent : ℕ) → Mount os.World → Run (Mount os.World)
remove os fuel file parent s =
    if s.errno == 0
    then elim (free_chain os fuel file.start_cluster s) [
      | none ↦ out_of_fuel
      | some s1 ↦ done (write_dir_entry os s1 parent file.dentry file.pos_in_parent)
    ]
    else done s

-- The cluster behind `cluster`, and the mount; a search that runs past the table is a fault.
unfoldable pub get_next_or_add_cluster : (os : Os) → ℕ → Mount os.World → Run (ℕ × Mount os.World)
get_next_or_add_cluster os cluster s =
    if is_eoc cluster
    then elim (get_next_free_cluster s.table) [
      | none ↦ fault
      | some next ↦
          let s1 = set_next_cluster os s cluster next in
          let s2 = set_next_cluster os s1 next end_of_chain in
          if s2.errno == 0 then done (next, s2) else done (0, s2)
    ]
    else done (get_next_cluster s.table cluster, s)

-- The variables of a read or write loop when it ends.
pub record Progress (W : Type 0) : Type 0 where
  pub remaining : ℕ
  pub content : List ℕ
  pub mount : Mount W

-- The next round of a loop, from the cluster, the offset, the bytes remaining, the buffer and the
-- mount.
abbrev pub Round : Type 0 → Type 0
Round W = ℕ → ℕ → ℕ → List ℕ → Mount W → Run (Progress W)

-- The end of the body of the loop of `fat_file_pwrite`, once it has found the next cluster.
unfoldable pub write_on :
    {W : Type 0} → Round W → (offset left : ℕ) → List ℕ → ℕ × Mount W → Run (Progress W)
write_on k offset left buf (next, s) =
    if not (s.errno == 0) || not (is_valid_cluster_number s.table next)
    then done (record { remaining = left; content = []; mount = s })
    else k next offset left buf s

-- The body behind the call of `full_pwrite`, which was given `count` bytes.
unfoldable pub after_full_pwrite :
    (os : Os)
    → Round os.World
    → (cluster offset remaining : ℕ) → List ℕ
    → Mount os.World
    → (count : ℕ) → Io os.World
    → Run (Progress os.World)
after_full_pwrite os k cluster offset remaining buf s count io =
    let s1 : Mount os.World = record s { world = io.world; errno = io.errno } in
    let left = remaining - io.count in
    if (io.count == count) && ltb 0 left
    then get_next_or_add_cluster os cluster s1
      >>= write_on k (offset + io.count) left (drop io.count buf)
    else done (record { remaining = left; content = []; mount = s1 })

-- The `while` loop of `fat_file_pwrite`; `io_fuel` is for each call of `full_pwrite`.
unfoldable pub write_loop : (os : Os) → (io_fuel fuel : ℕ) → Round os.World
write_loop os io_fuel zero cluster offset remaining buf s = out_of_fuel
write_loop os io_fuel (suc fuel) cluster offset remaining buf s =
    let count = get_cluster_remaining_bytes s.table remaining offset in
    let body =
      full_pwrite os io_fuel s.world s.errno buf count
        (cluster_offset s.table cluster + mask_offset offset s.table)
      >>= after_full_pwrite os (write_loop os io_fuel fuel) cluster offset remaining buf s count in
    if ltb 0 remaining && not (is_eoc cluster)
    then body
    else done (record { remaining = remaining; content = []; mount = s })

-- What a read or a write returns, beside its effects.
pub record Outcome (W : Type 0) : Type 0 where
  pub count : ℕ
  pub content : List ℕ
  pub after : After W

-- The end of `fat_file_pwrite`: the size grows to the last byte written.
unfoldable pub write_finish :
    (os : Os) → FatFile → (size offset parent : ℕ) → Progress os.World → Run (Outcome os.World)
write_finish os file size offset parent p =
    let last = offset + size - p.remaining in
    let d : Dentry =
      if ltb file.dentry.file_size last
      then record (file.dentry) { file_size = last % 2 ^ 32 }
      else file.dentry in
    done (record {
      count = size - p.remaining;
      content = [];
      after = update_entry os true (record file { dentry = d }) parent p.mount;
    })

-- A read or write that stops before its loop.
abbrev pub nothing_moved : {W : Type 0} → FatFile → Mount W → Run (Outcome W)
nothing_moved file s =
    done (record { count = 0; content = []; after = record { file = file; mount = s } })

unfoldable pub pwrite :
    (os : Os)
    → (io_fuel fuel : ℕ) → FatFile
    → List ℕ
    → (size offset parent : ℕ) → Mount os.World
    → Run (Outcome os.World)
pwrite os io_fuel fuel file buf size offset parent s =
    let (cluster, errno) = seek_cluster s.table s.errno file.start_cluster offset in
    if ltb file.dentry.file_size offset
    then nothing_moved file (record s { errno = eoverflow })
    else if errno == 0
    then write_loop os io_fuel fuel cluster offset size buf (record s { errno = errno })
      >>= write_finish os file size offset parent
    else nothing_moved file (record s { errno = errno })

-- The body of the loop of `fat_file_pread` behind its call of `full_pread`, asked for `count` bytes;
-- the list is the part of the buffer that has been counted.
unfoldable pub after_full_pread :
    {W : Type 0}
    → Round W
    → (cluster offset remaining : ℕ) → List ℕ
    → Mount W
    → (count : ℕ) → Io W
    → Run (Progress W)
after_full_pread k cluster offset remaining got s count io =
    let s1 = record s { world = io.world; errno = io.errno } in
    if io.count == count
    then k (get_next_cluster s.table cluster) (offset + io.count) (remaining - io.count)
        (got ++ io.content) s1
    else done (record { remaining = remaining; content = got; mount = s1 })

unfoldable pub read_loop : (os : Os) → (io_fuel fuel : ℕ) → Round os.World
read_loop os io_fuel zero cluster offset remaining got s = out_of_fuel
read_loop os io_fuel (suc fuel) cluster offset remaining got s =
    let count = get_cluster_remaining_bytes s.table remaining offset in
    let body =
      full_pread os io_fuel s.world s.errno count
        (cluster_offset s.table cluster + mask_offset offset s.table)
      >>= after_full_pread (read_loop os io_fuel fuel) cluster offset remaining got s count in
    if ltb 0 remaining && not (cluster == end_of_chain)
    then body
    else done (record { remaining = remaining; content = got; mount = s })

unfoldable pub read_finish :
    (os : Os) → FatFile → (size parent : ℕ) → Progress os.World → Run (Outcome os.World)
read_finish os file size parent p = done (record {
  count = size - p.remaining;
  content = p.content;
  after = update_entry os false file parent p.mount;
})

unfoldable pub pread :
    (os : Os)
    → (io_fuel fuel : ℕ) → FatFile
    → (size offset parent : ℕ) → Mount os.World
    → Run (Outcome os.World)
pread os io_fuel fuel file asked offset parent s =
    let size = min asked (file.dentry.file_size - offset) in
    let (cluster, errno) = seek_cluster s.table s.errno file.start_cluster offset in
    if ltb file.dentry.file_size offset
    then nothing_moved file (record s { errno = eoverflow })
    else if size == 0
    then nothing_moved file s
    else if errno == 0
    then read_loop os io_fuel fuel cluster offset size [] (record s { errno = errno })
      >>= read_finish os file size parent
    else nothing_moved file (record s { errno = errno })
