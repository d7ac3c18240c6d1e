-- ===== src/Fat/Mount/Examples.antt =====
-- A mount of a volume with sectors of 512 bytes and clusters of 8 sectors.
use operating_system_fa_maf.Common.{
  ℕ, zero, suc, ◌≡◌, refl, true, false, Bool, Option, none, some, List, ◌∷◌, ◌++◌, replicate, take,
  drop, length-take, arith, done, Run,
}
use operating_system_fa_maf.Fat.Os.{Os, bytes}
use operating_system_fa_maf.Fat.Io.{Io, full_pread, pread_loop, after_pread}
use operating_system_fa_maf.Fat.Io.Complete.{Reads}
use operating_system_fa_maf.Fat.Volume.{accepted, read_boot_sector, map_fat, is_power_of_2}
use operating_system_fa_maf.Fat.Filename.{filename_len}
use operating_system_fa_maf.Fat.Filename.Split.{filename_from_path, strrchr, copy_extension, fields}
use operating_system_fa_maf.Fat.Fuse.{FatVolume}
use operating_system_fa_maf.Fat.Mount.{
  Mounting, slash, calloc_volume, init_root_dir, init_file_tree, mount_table, fat_volume_mount,
}
use operating_system_fa_maf.Fat.Handle.{fat_file_init_direntry}
use operating_system_fa_maf.Fat.Hierarchy.{insert_linked}
use operating_system_fa_maf.Fat.Mount.Root.{Mounts, fat_volume_mount_lem}
use operating_system_fa_maf.Fat.Sample.{small_os}
use operating_system_fa_maf.Fat.Fuse.Sample.{fuse_libc}

abbrev opening : Mounting ℕ
opening = record {
  open_volume = λ w readwrite. (none, suc w);
  mmap = λ size offset. accepted (λ i. 0);
  page_size = 4096;
}

named_root :
    filename_from_path (fuse_libc.base_memory slash) ≡ done (b'n' ∷ replicate 7 0, replicate 3 0)
unfolding filename_from_path strrchr copy_extension fields filename_len
named_root = refl

-- Every read gives the boot sector from its first byte.
abbrev boot_bytes : List ℕ
boot_bytes =
    replicate 11 b'x'
    ++ 0 ∷ 2 ∷ 8 ∷ 32 ∷ 0 ∷ 2 ∷ replicate 15 0
    ++ 0 ∷ 0 ∷ 0 ∷ 2 ∷ 100 ∷ 0 ∷ 0 ∷ 0 ∷ 0 ∷ 0 ∷ 0 ∷ 0 ∷ 2 ∷ 0 ∷ 0 ∷ 0 ∷ 1 ∷ 0 ∷ replicate 78 0

abbrev boot_os : Os
boot_os = record small_os { pread = λ w n offset. (bytes (take n boot_bytes), suc w) }

boot_os-Reads : Reads boot_os
boot_os-Reads w zero offset h = absurd (h refl)
boot_os-Reads w (suc n) offset h =
    let rest = drop 1 boot_bytes in
    (b'x', take n rest, suc w, refl, omega (arith, length-take n rest))

is_mounted : Run (Option (FatVolume ℕ)) → Bool
is_mounted (done (some v)) = true
is_mounted r = false

mounts : is_mounted (fat_volume_mount boot_os fuse_libc opening 129 true 0 0) ≡ true
unfolding fat_volume_mount mount_table full_pread pread_loop after_pread read_boot_sector
    init_file_tree init_root_dir fat_file_init_direntry map_fat is_power_of_2 insert_linked
    filename_from_path strrchr copy_extension fields filename_len is_mounted
mounts = refl

fat_volume_mount_lem_example :
    (io : Io ℕ) × (full_pread boot_os 129 1 0 128 0 ≡ done io)
    × Mounts boot_os fuse_libc opening true 0
        (read_boot_sector calloc_volume io.count io.errno io.content)
        (fat_volume_mount boot_os fuse_libc opening 129 true 0 0)
fat_volume_mount_lem_example =
    fat_volume_mount_lem boot_os fuse_libc opening 129 true 0 (b'n' ∷ replicate 7 0, replicate 3 0)
      boot_os-Reads (omega arith) named_root
