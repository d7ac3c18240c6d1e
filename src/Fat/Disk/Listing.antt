-- ===== src/Fat/Disk/Listing.antt =====
-- Reading the children of a directory on a volume that keeps its bytes, behind the writing of an entry.
use operating_system_fa_maf.Common.{
  ℕ, zero, suc, ◌+◌, ◌/◌, ◌<◌, ◌≡◌, refl, ap, subst, ◌∙◌, true, List, [], ◌∷◌, map, length, arith,
  Run, done, ◌==◌, eq→==,
}
use operating_system_fa_maf.Fat.Os.{Os}
use operating_system_fa_maf.Fat.Table.{FatTable, Mount, cluster_offset, bytes_per_cluster, is_eoc}
use operating_system_fa_maf.Fat.Table.Chain.{Chain, stop, link, IsFat32, is_eoc-valid}
use operating_system_fa_maf.Fat.Dentry.{Dentry}
use operating_system_fa_maf.Fat.Dentry.Read.{entries_of}
use operating_system_fa_maf.Fat.Directory.{last, Directory, Child}
use operating_system_fa_maf.Fat.Directory.Children.{cluster_read, read_cluster_dir_entries-slash}
use operating_system_fa_maf.Fat.Directory.Clusters.{
  ChildrenRead, after_cluster, clusters_loop, fat_file_read_children,
}
use operating_system_fa_maf.Fat.File.Room.{is_eoc-end}
use operating_system_fa_maf.Fat.Disk.{Disk}
use operating_system_fa_maf.Fat.Disk.FullIo.{full_pread-Fetched}
use operating_system_fa_maf.Fat.Disk.Cells.{cells, cells-ext, cells-of}
use operating_system_fa_maf.Fat.Disk.Bytes.{cluster_bytes}
use operating_system_fa_maf.Fat.Disk.Wrote.{Chain-AllValid}
use operating_system_fa_maf.Fat.Disk.ReadLoop.{nothing_got}

-- The entries in a cluster of the volume.
abbrev pub cluster_entries : FatTable → (ℕ → ℕ) → ℕ → List Dentry
cluster_entries t disk c =
    entries_of (cluster_bytes t / 32) (cells disk (cluster_bytes t) (cluster_offset t c))

-- The directory and its children behind the reading of some clusters, where its path ends in a
-- separator.
abbrev pub gather : List (List Dentry) → Directory → List Child → Directory × List Child
gather [] dir elems = (dir, elems)
gather (es ∷ ess) dir elems = let r = cluster_read es dir elems in gather ess r.0 r.1

pub cluster_entries-ext :
    (t : FatTable) (disk disk' : ℕ → ℕ) (c : ℕ)
    → ((j : ℕ)
        → j < cluster_bytes t
        → disk' (cluster_offset t c + j) ≡ disk (cluster_offset t c + j))
    → cluster_entries t disk' c ≡ cluster_entries t disk c
cluster_entries-ext t disk disk' c same =
    ap (entries_of (cluster_bytes t / 32))
      (cells-ext disk disk' (cluster_bytes t) (cluster_offset t c) same)

cluster_entries-same :
    (t : FatTable) (disk disk' : ℕ → ℕ) (cs : List ℕ)
    → ((i : ℕ) → disk' i ≡ disk i)
    → map (cluster_entries t disk') cs ≡ map (cluster_entries t disk) cs
cluster_entries-same t disk disk' [] same = refl
cluster_entries-same t disk disk' (c ∷ cs) same =
    rw
      (
        cluster_entries-ext t disk disk' c (λ j lt. same (cluster_offset t c + j)),
        cluster_entries-same t disk disk' cs same,
      )
      refl

module _ (os : Os) (disk : Disk os) where
  -- The children are those of these entries, one list for each cluster.
  abbrev pub Listed :
      (ess : List (List Dentry)) → Directory → List Child → Run (ChildrenRead os.World) → Type 0
  Listed ess dir elems r =
      (s' : Mount os.World) × (r
        ≡ done (
          record ((gather ess dir elems).0) { children_read = true },
          (gather ess dir elems).1,
          s',
        ))

  -- The loop reads every cluster of a chain.
  clusters_loop-Listed :
      (io_fuel fuel : ℕ) (s : Mount os.World) {c : ℕ} {cs : List ℕ} (dir : Directory)
      (elems : List Child)
      → IsFat32 s.table
      → Chain s.table c cs
      → cluster_bytes s.table < io_fuel
      → length cs < fuel
      → last 0 dir.filepath ≡ b'/'
      → Listed
          (map (cluster_entries s.table (disk.at s.world)) cs)
          dir
          elems
          (clusters_loop os io_fuel fuel c dir elems s)
  unfolding clusters_loop after_cluster bytes_per_cluster
  clusters_loop-Listed io_fuel zero s dir elems fat ch io_enough enough slash = absurd (omega arith)
  clusters_loop-Listed io_fuel (suc fuel) s {c} dir elems fat (stop e) io_enough enough slash =
      let ends : is_eoc c ≡ true = rw e is_eoc-end in rw ends (s, refl)
  clusters_loop-Listed io_fuel (suc fuel) s {c} dir elems fat (link {n} {cs} valid next fresh rest)
        io_enough enough slash =
      let t = s.table in
      let (io, e, full, quiet, len, found, still) =
        full_pread-Fetched os disk io_fuel s.world s.errno (cluster_bytes t) (cluster_offset t c)
          io_enough in
      let size : length io.content ≡ cluster_bytes t = omega (arith, len) in
      let whole : (io.count == cluster_bytes t) ≡ true = eq→== _ _ full in
      let bytes : io.content ≡ cells (disk.at s.world) (cluster_bytes t) (cluster_offset t c) =
        cells-of (disk.at s.world) (cluster_offset t c) io.content (λ j lt.
          found j (omega (arith, size)) ∙ nothing_got (disk.at s.world) (cluster_offset t c) j)
        ∙ ap (λ k. cells (disk.at s.world) k (cluster_offset t c)) size in
      let s1 : Mount os.World = record s { world = io.world; errno = io.errno } in
      let es = cluster_entries t (disk.at s.world) c in
      let r = cluster_read es dir elems in
      let read = read_cluster_dir_entries-slash es dir elems (eq→== _ _ slash) in
      let ih =
        clusters_loop-Listed io_fuel fuel s1 r.0 r.1 fat rest io_enough (omega arith) slash in
      rw (is_eoc-valid t c fat valid, e, whole, bytes, next, read)
        (subst (λ ess. Listed ess r.0 r.1 (clusters_loop os io_fuel fuel n r.0 r.1 s1))
          (cluster_entries-same t (disk.at s.world) (disk.at io.world) cs still) ih)

  pub fat_file_read_children-Listed :
      (io_fuel fuel : ℕ) (t : FatTable) (s : Mount os.World) {c : ℕ} {cs : List ℕ} (dir : Directory)
      → s.table ≡ t
      → IsFat32 t
      → Chain t c (c ∷ cs)
      → cluster_bytes t < io_fuel
      → suc (length cs) < fuel
      → last 0 dir.filepath ≡ b'/'
      → Listed
          (map (cluster_entries t (disk.at s.world)) (c ∷ cs))
          dir
          []
          (fat_file_read_children os io_fuel fuel c dir s)
  unfolding fat_file_read_children
  fat_file_read_children-Listed io_fuel fuel t s {c} {cs} dir e =
      subst
        (λ t.
          IsFat32 t
          → Chain t c (c ∷ cs)
          → cluster_bytes t < io_fuel
          → suc (length cs) < fuel
          → last 0 dir.filepath ≡ b'/'
          → Listed (map (cluster_entries t (disk.at s.world)) (c ∷ cs)) dir []
              (fat_file_read_children os io_fuel fuel c dir s))
        e
        (λ fat ch io_enough enough slash.
          rw (Chain-AllValid s.table ch).0
            (clusters_loop-Listed io_fuel fuel s dir [] fat ch io_enough enough slash))
