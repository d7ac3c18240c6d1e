-- ===== src/Fat/Mount.antt =====
-- lab4/esqueleto/fat_volume.c: mounting a volume, from the boot sector to the root of the tree of
-- files. `open` and `mmap` are the system's; with the volume mounted the descriptor is left out, for
-- all later calls use the one. Memory is always found, and what a failed mount frees is left out.
pub mod Root
mod Examples
use operating_system_fa_maf.Common.{
  ℕ, zero, suc, Bool, true, Option, none, some, List, [], ◌∷◌, ◌==◌, if◌then◌else◌, Run, done,
  fault, ◌>>=◌,
}
use operating_system_fa_maf.Fat.Os.{Os}
use operating_system_fa_maf.Fat.Libc.{Libc}
use operating_system_fa_maf.Fat.Io.{Io, full_pread}
use operating_system_fa_maf.Fat.Table.{FatTable, Mount}
use operating_system_fa_maf.Fat.Volume.{
  Volume, Status, accepted, refused, read_boot_sector, map_fat,
}
use operating_system_fa_maf.Fat.Tree.{leaf}
use operating_system_fa_maf.Fat.PathOrder.{FileRef, by_path}
use operating_system_fa_maf.Fat.FsTree.{fat_tree_init, fat_tree_insert}
use operating_system_fa_maf.Fat.Hierarchy.{Nodes, insert_linked}
use operating_system_fa_maf.Fat.Handle.{Handle, fat_file_init_direntry, fat_file_init_empty}
use operating_system_fa_maf.Fat.Fuse.{FatVolume}

-- What `open` does with the volume, for reading only or for both, `mmap` and `sysconf`.
pub record Mounting (W : Type 0) : Type 0 where
  pub open_volume : W → (readwrite : Bool) → Option ℕ × W
  pub mmap : ℕ → ℕ → Status (ℕ → ℕ)
  pub page_size : ℕ

-- The structure as `calloc` leaves it.
abbrev pub calloc_volume : Volume
calloc_volume = record {
  oem_name = [];
  bytes_per_sector = 0;
  sector_order = 0;
  sectors_per_cluster = 0;
  sectors_per_cluster_order = 0;
  reserved_sectors = 0;
  num_tables = 0;
  max_root_entries = 0;
  media_descriptor = 0;
  total_sectors = 0;
  sectors_per_fat = 0;
  sectors_per_track = 0;
  num_heads = 0;
  hidden_sectors = 0;
  drive_description = 0;
  version = 0;
  root_dir_start_cluster = 0;
  fs_info_sector = 0;
  alt_boot_sector = 0;
  physical_drive_num = 0;
  extended_boot_sig = 0;
  volume_id = 0;
  volume_label = [];
  fs_type = [];
  cluster_order = 0;
  num_data_clusters = 0;
}

abbrev pub slash : List ℕ
slash = b'/' ∷ []

abbrev pub no_nodes : Nodes Handle
no_nodes a = none

-- With an error pending the volume is freed, and written all the same.
unfoldable pub init_root_dir :
    (os : Os) → Libc os.World → Mount os.World → (root_dir_start_cluster : ℕ) → Run Handle
unfolding fat_file_init_empty
init_root_dir os c s start =
    fat_file_init_direntry c (os.gmtime_now s.world) true slash start >>= λ d.
    if s.errno == 0
    then done (record (fat_file_init_empty slash) { dentry = some d; start_cluster = start })
    else fault

-- The root has no parent; the tree that it comes into is a new one.
unfoldable pub init_file_tree :
    (os : Os) → Libc os.World → Mount os.World → Volume → Run (FatVolume os.World)
unfolding init_root_dir
init_file_tree os c s vol = init_root_dir os c s vol.root_dir_start_cluster >>= λ root_dir.
    insert_linked by_path (λ r. r.addr) leaf (record { addr = 0; filepath = slash }) root_dir none
      no_nodes
    >>= λ nodes. done (record {
      mount = s;
      file_tree =
          fat_tree_insert by_path (some (fat_tree_init by_path))
            (some (record { addr = 0; filepath = slash }));
      nodes = nodes;
      next_addr = 1;
    })

module _ (os : Os) (c : Libc os.World) (m : Mounting os.World) where
  -- Behind the reading of the boot sector.
  unfoldable pub mount_table :
      os.World → (errno : ℕ) → Status Volume → Run (Option (FatVolume os.World))
  unfolding init_file_tree
  mount_table w errno (refused e) = done none
  mount_table w errno (accepted vol) = elim (map_fat m.mmap m.page_size vol) [
    | refused e ↦ done none
    | accepted table ↦
        init_file_tree os c (record { table = table; world = w; errno = errno }) vol >>= λ v.
        done (some v)
  ]

  -- `io_fuel` is for the read of the boot sector; NULL is `none`.
  unfoldable pub fat_volume_mount :
      (io_fuel : ℕ)
      → (readwrite : Bool) → os.World
      → (errno : ℕ) → Run (Option (FatVolume os.World))
  unfolding mount_table
  fat_volume_mount io_fuel readwrite w errno =
      let (opened, w1) = m.open_volume w readwrite in
      elim opened [
        | some e ↦ done none
        | none ↦ full_pread os io_fuel w1 errno 128 0 >>= λ io.
            mount_table io.world io.errno
              (read_boot_sector calloc_volume io.count io.errno io.content)
      ]
