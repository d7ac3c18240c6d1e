-- ===== src/Fat/Volume/Examples.antt =====
-- A boot sector of sectors of 512 bytes and clusters of 8 sectors.
use operating_system_fa_maf.Common.{
  ℕ, ◌-◌, ◌/◌, ◌^◌, ◌≡◌, refl, List, [], ◌∷◌, ◌++◌, replicate, arith,
}
use operating_system_fa_maf.Fat.Volume.{Volume, le16_at, byte_at, bsr, read_boot_sector}
use operating_system_fa_maf.Fat.Volume.Geometry.{Accepts, HasGeometry, boot_sector-HasGeometry}
use operating_system_fa_maf.Fat.Volume.Uncounted.{boot_sector-uncounted}

abbrev blank : Volume
blank = record {
  oem_name = [];
  bytes_per_sector = 0;
  sector_order = 0;
  sectors_per_cluster = 0;
  sectors_per_cluster_order = 0;
  reserved_sectors = 0;
  num_tables = 0;
  max_root_entries = 0;
  media_descriptor = 0;
  total_sectors = 0;
  sectors_per_fat = 0;
  sectors_per_track = 0;
  num_heads = 0;
  hidden_sectors = 0;
  drive_description = 0;
  version = 0;
  root_dir_start_cluster = 0;
  fs_info_sector = 0;
  alt_boot_sector = 0;
  physical_drive_num = 0;
  extended_boot_sig = 0;
  volume_id = 0;
  volume_label = [];
  fs_type = [];
  cluster_order = 0;
  num_data_clusters = 0;
}

abbrev boot_bytes : List ℕ
boot_bytes =
    replicate 11 b'x'
    ++ 0 ∷ 2 ∷ 8 ∷ 32 ∷ 0 ∷ 2 ∷ replicate 15 0
    ++ 0 ∷ 0 ∷ 0 ∷ 2 ∷ 100 ∷ 0 ∷ 0 ∷ 0 ∷ 0 ∷ 0 ∷ 0 ∷ 0 ∷ 2 ∷ 0 ∷ 0 ∷ 0 ∷ 1 ∷ 0 ∷ replicate 78 0

boot_sector-HasGeometry_example : Accepts HasGeometry (read_boot_sector blank 128 0 boot_bytes)
boot_sector-HasGeometry_example = boot_sector-HasGeometry blank 128 0 boot_bytes

-- A sector with 32 reserved sectors, whose 32-bit count of sectors is 100000.
abbrev large_bytes : List ℕ
large_bytes =
    replicate 11 b'x'
    ++ 0 ∷ 2 ∷ 8 ∷ 32 ∷ 0 ∷ 2 ∷ replicate 15 0
    ++ 0xa0
      ∷ 0x86
      ∷ 1
      ∷ 0
      ∷ 100
      ∷ 0
      ∷ 0
      ∷ 0
      ∷ 0
      ∷ 0
      ∷ 0
      ∷ 0
      ∷ 2
      ∷ 0
      ∷ 0
      ∷ 0
      ∷ 1
      ∷ 0
      ∷ replicate 78 0

boot_sector-uncounted_example :
    Accepts
      (λ v.
        v.num_data_clusters ≡ (2 ^ 32 - le16_at large_bytes 14) / 2 ^ bsr (byte_at large_bytes 13))
      (read_boot_sector blank 128 0 large_bytes)
boot_sector-uncounted_example =
    boot_sector-uncounted large_bytes blank 128 0 refl refl (omega arith)
