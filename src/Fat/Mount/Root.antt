-- ===== src/Fat/Mount/Root.antt =====
-- What a mounted volume has in its tree.
use operating_system_fa_maf.Common.{
  ℕ, ◌<◌, ◌≡◌, refl, sym, subst, ◌⊎◌, inl, inr, Bool, true, Option, none, some, List, ◌==◌, eq→==,
  Option-cases, Run, done,
}
use operating_system_fa_maf.Fat.Os.{Os}
use operating_system_fa_maf.Fat.Libc.{Libc}
use operating_system_fa_maf.Fat.Io.Complete.{Reads, full_pread-Ends}
use operating_system_fa_maf.Fat.Io.{Io, full_pread}
use operating_system_fa_maf.Fat.Table.{FatTable, Mount}
use operating_system_fa_maf.Fat.Volume.{
  Volume, Status, accepted, refused, map_fat, read_boot_sector,
}
use operating_system_fa_maf.Fat.Tree.{find, insert, h_tree_insert, h_tree_search, h_tree_get_data}
use operating_system_fa_maf.Fat.PathOrder.{by_path, strcmp, fat_file_cmp_path}
use operating_system_fa_maf.Fat.FsTree.{
  fat_tree_init, fat_tree_insert, fat_tree_search, search_from, fat_tree_node_search,
}
use operating_system_fa_maf.Fat.Dentry.{set_first_cluster, fill_dentry_time_now}
use operating_system_fa_maf.Fat.Filename.Split.{filename_from_path}
use operating_system_fa_maf.Fat.Hierarchy.{HNode, set_node, h_node_init, insert_linked}
use operating_system_fa_maf.Fat.Handle.{
  Handle, new_entry, fat_file_init_direntry, fat_file_init_empty, fat_file_is_directory,
}
use operating_system_fa_maf.Fat.Fuse.{FatVolume, file_search}
use operating_system_fa_maf.Fat.Mount.{
  Mounting, calloc_volume, slash, no_nodes, init_root_dir, init_file_tree, mount_table,
  fat_volume_mount,
}

Status-cases :
    {A : Type 0} (st : Status A) → ((e : ℕ) × (st ≡ refused e)) ⊎ ((a : A) × (st ≡ accepted a))
Status-cases (refused e) = inl (e, refl)
Status-cases (accepted a) = inr (a, refl)

-- The path `/` leads to a directory without a parent, without children and without an error pending.
pub record HasRoot {W : Type 0} (v : FatVolume W) : Type 0 where
  pub a : ℕ
  pub n : HNode Handle
  pub leads : file_search v slash ≡ some a
  pub there : v.nodes a ≡ some n
  pub is_dir : fat_file_is_directory n.content ≡ true
  pub no_parent : n.h_parent ≡ none
  pub no_children : n.h_children ≡ none
  pub new_addr : v.nodes v.next_addr ≡ none
  pub calm : v.mount.errno ≡ 0

-- How a mount ends, by what `open`, the boot sector and the mapping of the table give.
pub data Mounts (os : Os) (c : Libc os.World) (m : Mounting os.World) (readwrite : Bool)
    (w : os.World) (st : Status Volume) (run : Run (Option (FatVolume os.World))) : Type 0 where
  not_opened :
      (e : ℕ)
      → (m.open_volume w readwrite).0 ≡ some e
      → run ≡ done none
      → Mounts os c m readwrite w st run
  not_read :
      (e : ℕ)
      → (m.open_volume w readwrite).0 ≡ none
      → st ≡ refused e
      → run ≡ done none
      → Mounts os c m readwrite w st run
  not_mapped :
      (e : ℕ) (vol : Volume)
      → (m.open_volume w readwrite).0 ≡ none
      → st ≡ accepted vol
      → map_fat m.mmap m.page_size vol ≡ refused e
      → run ≡ done none
      → Mounts os c m readwrite w st run
  mounted :
      (vol : Volume) (table : FatTable) (v : FatVolume os.World)
      → (m.open_volume w readwrite).0 ≡ none
      → st ≡ accepted vol
      → map_fat m.mmap m.page_size vol ≡ accepted table
      → run ≡ done (some v)
      → v.mount.table ≡ table
      → HasRoot v
      → Mounts os c m readwrite w st run

module _ (os : Os) (c : Libc os.World) where
  init_file_tree-HasRoot :
      (s : Mount os.World) (vol : Volume) (names : List ℕ × List ℕ)
      → filename_from_path (c.base_memory slash) ≡ done names
      → s.errno ≡ 0
      → (v : FatVolume os.World) × (init_file_tree os c s vol ≡ done v)
        × (v.mount.table ≡ s.table)
        × HasRoot v
  unfolding init_file_tree init_root_dir fat_file_init_direntry insert_linked h_node_init set_node
      file_search fat_tree_search search_from fat_tree_node_search fat_tree_insert fat_tree_init
      h_tree_insert insert h_tree_search find h_tree_get_data strcmp fat_file_cmp_path
      fat_file_is_directory new_entry set_first_cluster fill_dentry_time_now
  init_file_tree-HasRoot s vol names named calm =
      let quiet : (s.errno == 0) ≡ true = eq→== s.errno 0 calm in
      let start = vol.root_dir_start_cluster in
      let n : HNode Handle = record {
        content = record (fat_file_init_empty slash) {
          dentry = some (new_entry (os.gmtime_now s.world) true start names);
          start_cluster = start;
        };
        h_parent = none;
        h_next_sibling = none;
        h_children = none;
      } in
      let v : FatVolume os.World = record {
        mount = s;
        file_tree =
            fat_tree_insert by_path (some (fat_tree_init by_path))
              (some (record { addr = 0; filepath = slash }));
        nodes = set_node no_nodes 0 (some n);
        next_addr = 1;
      } in
      rw (named, quiet)
        (
          v,
          refl,
          refl,
          record {
            a = 0;
            n = n;
            leads = refl;
            there = refl;
            is_dir = refl;
            no_parent = refl;
            no_children = refl;
            new_addr = refl;
            calm = calm;
          },
        )

  mount_table-Mounts :
      (m : Mounting os.World) (readwrite : Bool) (w w1 : os.World) (errno : ℕ) (st : Status Volume)
      (names : List ℕ × List ℕ)
      → filename_from_path (c.base_memory slash) ≡ done names
      → errno ≡ 0
      → (m.open_volume w readwrite).0 ≡ none
      → Mounts os c m readwrite w st (mount_table os c m w1 errno st)
  unfolding mount_table
  mount_table-Mounts m readwrite w w1 errno (refused e) names named calm opened =
      not_read e opened refl refl
  mount_table-Mounts m readwrite w w1 errno (accepted vol) names named calm opened =
      elim (Status-cases (map_fat m.mmap m.page_size vol)) [
        | inl (e, failed) ↦ not_mapped e vol opened refl failed (rw (mount_table, failed) refl)
        | inr (t, mapped) ↦
            let (v, run, table, h) =
              init_file_tree-HasRoot (record { table = t; world = w1; errno = errno }) vol names
                named calm in
            mounted vol t v opened refl mapped (rw (mount_table, mapped, run) refl) table h
      ]

  -- With no error pending, reads that make progress, more fuel than the boot sector has bytes, and a
  -- readable name of the root, the read of the boot sector ends and so does the mount. It gives NULL
  -- when the volume is not opened, its boot sector is refused or its table is not mapped;
  -- else it gives a volume with the mapped table, on which the path `/` leads to a directory without
  -- parent and children.
  pub fat_volume_mount_lem :
      (m : Mounting os.World) (io_fuel : ℕ) (readwrite : Bool) (w : os.World)
      (names : List ℕ × List ℕ)
      → Reads os
      → 128 < io_fuel
      → filename_from_path (c.base_memory slash) ≡ done names
      → (io : Io os.World) × (full_pread os io_fuel ((m.open_volume w readwrite).1) 0 128 0
          ≡ done io)
        × Mounts os c m readwrite w
            (read_boot_sector calloc_volume io.count io.errno io.content)
            (fat_volume_mount os c m io_fuel readwrite w 0)
  unfolding fat_volume_mount
  fat_volume_mount_lem m io_fuel readwrite w names reads enough named =
      let w1 = (m.open_volume w readwrite).1 in
      let (io, run, count, errno, len) = full_pread-Ends os io_fuel w1 0 128 0 reads enough in
      let st = read_boot_sector calloc_volume io.count io.errno io.content in
      (
        io,
        run,
        elim (Option-cases ((m.open_volume w readwrite).0)) [
          | inr (e, failed) ↦ not_opened e failed (rw (fat_volume_mount, failed) refl)
          | inl opened ↦
              let whole : fat_volume_mount os c m io_fuel readwrite w 0
                  ≡ mount_table os c m io.world io.errno st =
                rw (fat_volume_mount, opened, run) refl in
              subst (Mounts os c m readwrite w st) (sym whole)
                (mount_table-Mounts m readwrite w io.world io.errno st names named errno opened)
        ],
      )
