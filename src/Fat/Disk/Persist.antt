-- ===== src/Fat/Disk/Persist.antt =====
-- An entry that write_dir_entry of lab4/esqueleto/fat_file.c has written, among those that are read.
use operating_system_fa_maf.Common.{
  ℕ, suc, ◌+◌, ◌*◌, ◌/◌, ◌^◌, ◌≤◌, ◌<◌, ◌≡◌, refl, sym, ap, subst, inl, inr, ◌∙◌, true, false, List,
  [], ◌∷◌, ◌++◌, map, length, get_or, arith, take, drop, ◌==◌, ltb, leb, Bool-cases, ltb→le,
}
use operating_system_fa_maf.Fat.Os.{Os}
use operating_system_fa_maf.Fat.Table.{
  Mount, is_valid_cluster_number, cluster_offset, bytes_per_cluster,
}
use operating_system_fa_maf.Fat.Table.Chain.{Chain, IsFat32, has}
use operating_system_fa_maf.Fat.Dentry.{Dentry, write_dir_entry, dentry_written, dentry_bytes}
use operating_system_fa_maf.Fat.Dentry.Read.{entries_of, IsEntry, entries_of-dentry_bytes}
use operating_system_fa_maf.Fat.Dentry.Write.{write_dir_entry-table}
use operating_system_fa_maf.Fat.Directory.{last, Directory}
use operating_system_fa_maf.Fat.Directory.Clusters.{fat_file_read_children}
use operating_system_fa_maf.Fat.Table.Seek.{Chain-IsDistinct}
use operating_system_fa_maf.Fat.Disk.{Disk, patch}
use operating_system_fa_maf.Fat.Disk.Patch.{patch_inside, patch_below, patch_above}
use operating_system_fa_maf.Fat.Disk.Cells.{cells, length-cells, cells-ext, cells-append, cells-of}
use operating_system_fa_maf.Fat.Disk.Entries.{entries_of-append, take-entries_of, drop-entries_of}
use operating_system_fa_maf.Fat.Disk.Bytes.{cluster_bytes, AllValid, apart}
use operating_system_fa_maf.Fat.Disk.Wrote.{Chain-AllValid}
use operating_system_fa_maf.Fat.Disk.Entry.{length-dentry_bytes, write_dir_entry-outside}
use operating_system_fa_maf.Fat.Disk.Listing.{
  cluster_entries, cluster_entries-ext, Listed, fat_file_read_children-Listed,
}

module _ (os : Os) (disk : Disk os) where
  -- Without an error all the bytes of an entry are written.
  write_dir_entry-patch :
      (s : Mount os.World) (parent : ℕ) (d : Dentry) (nentry i : ℕ)
      → length (dentry_bytes d) ≡ 32
      → nentry * 32 + 32 ≤ cluster_bytes s.table
      → (write_dir_entry os s parent d nentry).errno ≡ 0
      → disk.at (write_dir_entry os s parent d nentry).world i
        ≡ patch
            (disk.at s.world)
            (nentry * 32 + cluster_offset s.table parent)
            32
            (λ j. get_or (dentry_bytes d) j 0)
            i
  unfolding write_dir_entry dentry_written bytes_per_cluster
  write_dir_entry-patch s parent d nentry i size fits =
      let room_for : leb (2 ^ s.table.cluster_order) (nentry * 32) ≡ false = ground arith in
      let (m, w', wrote, short, placed) =
        disk.stores s.world (dentry_bytes d) (nentry * 32 + cluster_offset s.table parent)
          (omega (arith, size)) in
      elim (Bool-cases (ltb (suc m) 32)) [
        | inl less ↦ rw (room_for, wrote, less) (λ calm. absurd (omega (arith, calm)))
        | inr enough ↦
            let all : suc m ≡ 32 = omega (arith, size, ltb→le (suc m) 32 enough) in
            rw (room_for, wrote, enough) (λ calm. placed i ∙ rw all refl)
      ]

  -- The bytes of the cluster are those before the entry, the entry's and those behind it.
  cells-write_dir_entry :
      (s : Mount os.World) (parent : ℕ) (d : Dentry) (nentry more : ℕ)
      → length (dentry_bytes d) ≡ 32
      → cluster_bytes s.table ≡ nentry * 32 + (32 + more)
      → (write_dir_entry os s parent d nentry).errno ≡ 0
      → cells
          (disk.at (write_dir_entry os s parent d nentry).world)
          (nentry * 32 + (32 + more))
          (cluster_offset s.table parent)
        ≡ cells (disk.at s.world) (nentry * 32) (cluster_offset s.table parent)
          ++ (dentry_bytes d
              ++ cells (disk.at s.world) more (cluster_offset s.table parent + nentry * 32 + 32))
  cells-write_dir_entry s parent d nentry more size whole calm =
      let co = cluster_offset s.table parent in
      let a = nentry * 32 in
      let w = disk.at s.world in
      let w' = disk.at (write_dir_entry os s parent d nentry).world in
      let new = λ (j : ℕ). get_or (dentry_bytes d) j 0 in
      let fits : nentry * 32 + 32 ≤ cluster_bytes s.table = omega (arith, whole) in
      let written = λ (i : ℕ). write_dir_entry-patch s parent d nentry i size fits calm in
      let before : cells w' a co ≡ cells w a co =
        cells-ext w w' a co
          (λ j lt. written (co + j) ∙ patch_below w (a + co) 32 new (co + j) (omega arith)) in
      let entry : cells w' 32 (co + a) ≡ dentry_bytes d = sym (
        cells-of w' (co + a) (dentry_bytes d) (λ j lt. sym (
          written (co + a + j)
          ∙ patch_inside w (a + co) 32 new (co + a + j) (omega arith) (omega (arith, size))
          ∙ ap new (omega arith)))
        ∙ ap (λ k. cells w' k (co + a)) size) in
      let behind : cells w' more (co + a + 32) ≡ cells w more (co + a + 32) =
        cells-ext w w' more (co + a + 32) (λ j lt.
          written (co + a + 32 + j)
          ∙ patch_above w (a + co) 32 new (co + a + 32 + j) (omega arith)) in
      cells-append w' a (32 + more) co
      ∙ ap (λ xs. cells w' a co ++ xs) (cells-append w' 32 more (co + a))
      ∙ ap (λ xs. xs ++ (cells w' 32 (co + a) ++ cells w' more (co + a + 32))) before
      ∙ ap (λ xs. cells w a co ++ (xs ++ cells w' more (co + a + 32))) entry
      ∙ ap (λ xs. cells w a co ++ (dentry_bytes d ++ xs)) behind

  -- So the entries of the cluster are those that there were, but for the one that is written.
  cluster_entries-write_dir_entry :
      (s : Mount os.World) (parent : ℕ) (d : Dentry) (nentry m : ℕ)
      → IsEntry d
      → cluster_bytes s.table ≡ (nentry + suc m) * 32
      → (write_dir_entry os s parent d nentry).errno ≡ 0
      → cluster_entries s.table (disk.at (write_dir_entry os s parent d nentry).world) parent
        ≡ take nentry (cluster_entries s.table (disk.at s.world) parent)
          ++ d ∷ drop (suc nentry) (cluster_entries s.table (disk.at s.world) parent)
  cluster_entries-write_dir_entry s parent d nentry m h whole calm =
      let co = cluster_offset s.table parent in
      let a = nentry * 32 in
      let w = disk.at s.world in
      let w' = disk.at (write_dir_entry os s parent d nentry).world in
      let size : length (dentry_bytes d) ≡ 32 = length-dentry_bytes d h.base h.ext in
      let parts : cluster_bytes s.table ≡ nentry * 32 + (32 + m * 32) = omega (arith, whole) in
      let count : cluster_bytes s.table / 32 ≡ nentry + suc m = omega (arith, whole) in
      let split : (x : ℕ → ℕ)
          → cluster_entries s.table x parent
            ≡ entries_of (nentry + suc m) (cells x (nentry * 32 + (32 + m * 32)) co) =
        λ x.
          ap (λ k. entries_of k (cells x (cluster_bytes s.table) co)) count
          ∙ ap (λ k. entries_of (nentry + suc m) (cells x k co)) parts in
      let before : take nentry (cluster_entries s.table w parent)
          ≡ entries_of nentry (cells w a co) =
        ap (take nentry)
          (split w ∙ ap (entries_of (nentry + suc m)) (cells-append w a (32 + m * 32) co))
        ∙ take-entries_of nentry (suc m) (cells w a co) _ (length-cells w a co) in
      let behind : drop (suc nentry) (cluster_entries s.table w parent)
          ≡ entries_of m (cells w (m * 32) (co + a + 32)) =
        ap (drop (suc nentry)) (
          split w
          ∙ ap (λ k. entries_of k (cells w (nentry * 32 + (32 + m * 32)) co)) (omega arith)
          ∙ ap (λ k. entries_of (suc nentry + m) (cells w k co)) (omega arith)
          ∙ ap (entries_of (suc nentry + m)) (cells-append w (suc nentry * 32) (m * 32) co))
        ∙ drop-entries_of (suc nentry) m (cells w (suc nentry * 32) co) _
            (length-cells w (suc nentry * 32) co)
        ∙ ap (λ k. entries_of m (cells w (m * 32) k)) (omega arith) in
      split w'
      ∙ ap (entries_of (nentry + suc m))
          (cells-write_dir_entry s parent d nentry (m * 32) size parts calm)
      ∙ entries_of-append nentry (suc m) (cells w a co) _ (length-cells w a co)
      ∙ ap (λ es. entries_of nentry (cells w a co) ++ es)
          (entries_of-dentry_bytes d m (cells w (m * 32) (co + a + 32)) h)
      ∙ ap (λ es. es ++ d ∷ entries_of m (cells w (m * 32) (co + a + 32))) (sym before)
      ∙ ap (λ es. take nentry (cluster_entries s.table w parent) ++ d ∷ es) (sym behind)

  -- The other clusters have the entries that they had.
  others-write_dir_entry :
      (s : Mount os.World) (parent : ℕ) (d : Dentry) (nentry : ℕ) (cs : List ℕ)
      → IsFat32 s.table
      → length (dentry_bytes d) ≡ 32
      → nentry * 32 + 32 ≤ cluster_bytes s.table
      → is_valid_cluster_number s.table parent ≡ true
      → AllValid s.table cs
      → has parent cs ≡ false
      → map (cluster_entries s.table (disk.at (write_dir_entry os s parent d nentry).world)) cs
        ≡ map (cluster_entries s.table (disk.at s.world)) cs
  others-write_dir_entry s parent d nentry [] fat size fits valid all fresh = refl
  others-write_dir_entry s parent d nentry (c ∷ cs) fat size fits valid all fresh =
      let ne : (c == parent) ≡ false = ground arith in
      let first =
        cluster_entries-ext s.table (disk.at s.world)
          (disk.at (write_dir_entry os s parent d nentry).world) c
          (λ j lt.
            write_dir_entry-outside os disk s parent d nentry (cluster_offset s.table c + j) size
              fits
              (apart s.table c parent (cluster_offset s.table c + j) fat all.0 valid ne
                (omega arith) (omega arith))) in
      let rest =
        others-write_dir_entry s parent d nentry cs fat size fits valid all.1 (ground arith) in
      rw (first, rest) refl

  -- What is written to a directory is listed: on a mount of a FAT32 table, of a volume that keeps what
  -- is written to it, with more fuel than a cluster has bytes and the directory clusters, where an
  -- entry of the format's widths is written without an error to a place in the first cluster of a
  -- directory, whose clusters are divided into entries and whose path ends in a separator, reading
  -- the children of the directory returns: the children are those of the entries that there were,
  -- with the one at that place replaced by the new one.
  pub fat_file_read_children-write_dir_entry :
      (io_fuel fuel parent nentry m : ℕ) (d : Dentry) (dir : Directory) (s : Mount os.World)
      (cs : List ℕ)
      → IsFat32 s.table
      → Chain s.table parent (parent ∷ cs)
      → IsEntry d
      → 2 ^ s.table.cluster_order ≡ (nentry + suc m) * 32
      → (write_dir_entry os s parent d nentry).errno ≡ 0
      → 2 ^ s.table.cluster_order < io_fuel
      → suc (length cs) < fuel
      → last 0 dir.filepath ≡ b'/'
      → Listed os disk
          ((take nentry (cluster_entries s.table (disk.at s.world) parent)
              ++ d ∷ drop (suc nentry) (cluster_entries s.table (disk.at s.world) parent))
            ∷ map (cluster_entries s.table (disk.at s.world)) cs)
          dir
          []
          (fat_file_read_children os io_fuel fuel parent dir (write_dir_entry os s parent d nentry))
  fat_file_read_children-write_dir_entry io_fuel fuel parent nentry m d dir s cs fat ch h whole calm
        io_enough enough slash =
      let size : length (dentry_bytes d) ≡ 32 = length-dentry_bytes d h.base h.ext in
      let s1 = write_dir_entry os s parent d nentry in
      let first = cluster_entries-write_dir_entry s parent d nentry m h whole calm in
      let rest =
        others-write_dir_entry s parent d nentry cs fat size (omega (arith, whole))
          (Chain-AllValid s.table ch).0 (Chain-AllValid s.table ch).1
          ((Chain-IsDistinct s.table ch).0) in
      subst
        (λ ess. Listed os disk ess dir [] (fat_file_read_children os io_fuel fuel parent dir s1))
        (ap (λ es. es ∷ map (cluster_entries s.table (disk.at s1.world)) cs) first
          ∙ ap
              (λ ess.
                (take nentry (cluster_entries s.table (disk.at s.world) parent)
                  ++ d ∷ drop (suc nentry) (cluster_entries s.table (disk.at s.world) parent))
                ∷ ess)
              rest)
        (fat_file_read_children-Listed os disk io_fuel fuel s.table s1 dir
          (write_dir_entry-table os s parent d nentry) fat ch io_enough enough slash)
