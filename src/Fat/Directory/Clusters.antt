-- ===== src/Fat/Directory/Clusters.antt =====
-- `fat_file_read_children` of lab4/esqueleto/fat_file.c: the children in all clusters of a directory.
-- A list of files that is NULL is the empty list. `fuel` bounds the loop, `io_fuel` a call in it.
use operating_system_fa_maf.Common.{
  ℕ, zero, suc, ◌/◌, true, List, [], ◌==◌, if◌then◌else◌, Run, done, out_of_fuel, ◌>>=◌,
}
use operating_system_fa_maf.Fat.Os.{Os}
use operating_system_fa_maf.Fat.Io.{Io, full_pread}
use operating_system_fa_maf.Fat.Table.{
  Mount, eio, is_valid_cluster_number, get_next_cluster, bytes_per_cluster, cluster_offset, is_eoc,
}
use operating_system_fa_maf.Fat.Dentry.Read.{entries_of}
use operating_system_fa_maf.Fat.Directory.{Directory, Child, read_cluster_dir_entries}

-- The directory, its children and the mount.
abbrev pub ChildrenRead : Type 0 → Type 0
ChildrenRead W = Directory × List Child × Mount W

-- The next round, from the cluster and what there is so far.
abbrev pub Clusters : Type 0 → Type 0
Clusters W = ℕ → Directory → List Child → Mount W → Run (ChildrenRead W)

-- The body of the loop behind its call of `full_pread`.
unfoldable pub after_cluster :
    {W : Type 0}
    → Clusters W
    → (cur_cluster : ℕ) → Directory
    → List Child
    → Mount W
    → Io W
    → Run (ChildrenRead W)
after_cluster k cur_cluster dir elems s io =
    let s1 = record s { world = io.world; errno = io.errno } in
    let read =
      read_cluster_dir_entries (entries_of (bytes_per_cluster s.table / 32) io.content) dir elems
      >>= λ r. k (get_next_cluster s.table cur_cluster) r.0 r.1 s1 in
    if io.count == bytes_per_cluster s.table
    then read
    else done (dir, [], record s1 { errno = eio })

unfoldable pub clusters_loop : (os : Os) → (io_fuel fuel : ℕ) → Clusters os.World
unfolding after_cluster
clusters_loop os io_fuel zero cur_cluster dir elems s = out_of_fuel
clusters_loop os io_fuel (suc fuel) cur_cluster dir elems s =
    let body =
      full_pread os io_fuel s.world s.errno (bytes_per_cluster s.table)
        (cluster_offset s.table cur_cluster)
      >>= after_cluster (clusters_loop os io_fuel fuel) cur_cluster dir elems s in
    if is_eoc cur_cluster then done (record dir { children_read = true }, elems, s) else body

unfoldable pub fat_file_read_children :
    (os : Os)
    → (io_fuel fuel : ℕ) → (start_cluster : ℕ) → Directory
    → Mount os.World
    → Run (ChildrenRead os.World)
unfolding clusters_loop
fat_file_read_children os io_fuel fuel start_cluster dir s =
    let read = clusters_loop os io_fuel fuel start_cluster dir [] s in
    if is_valid_cluster_number s.table start_cluster
    then read
    else done (dir, [], record s { errno = eio })
