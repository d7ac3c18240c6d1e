-- ===== src/Fat/Volume.antt =====
-- lab4/esqueleto/fat_volume.c: the boot sector and the mapping of the table, with `bsr` and
-- `is_power_of_2` of fat_util.h and `remove_trailing_spaces` of fat_util.c. The buffer is the list of
-- its bytes, a member of `struct fat_boot_sector_disk` is read at its offset in the packed structure.
pub mod Powers
pub mod Geometry
pub mod Uncounted
mod Examples
use Prim.Native.Nat.{bit_and}
use operating_system_fa_maf.Common.{
  ℕ, zero, suc, ◌+◌, ◌-◌, ◌*◌, ◌/◌, ◌%◌, ◌^◌, ◌≤◌, ◌<◌, Bool, true, false, not, ◌&&◌, ◌||◌, List,
  [], ◌∷◌, ◌++◌, Option, none, some, ltb, leb, ◌==◌, if◌then◌else◌, take, drop, get_or,
}
use operating_system_fa_maf.Fat.Table.{FatTable}

abbrev pub einval : ℕ
einval = 22

-- What the readers return: 0, with what they have filled in, or -1, with `errno`.
pub data Status (A : Type 0) : Type 0 where
  accepted : A → Status A
  refused : ℕ → Status A

infixl 5 ◌then◌
abbrev pub ◌then◌ : {A B : Type 0} → Status A → (A → Status B) → Status B
accepted a then k = k a
refused e then k = refused e

abbrev pub byte_at : List ℕ → ℕ → ℕ
byte_at buf i = get_or buf i 0 % 256

abbrev pub le16_at : List ℕ → ℕ → ℕ
le16_at buf i = byte_at buf i + byte_at buf (i + 1) * 256

abbrev pub le32_at : List ℕ → ℕ → ℕ
le32_at buf i = le16_at buf i + le16_at buf (i + 2) * 2 ^ 16

-- The highest bit of a number. The instruction leaves the result of 0 open; the only caller that can
-- hand it 0 refuses that number right after.
unfoldable pub bsr_on : ℕ → ℕ → ℕ
bsr_on zero n = 0
bsr_on (suc fuel) n = let rest = bsr_on fuel (n / 2) in if ltb n 2 then 0 else suc rest

unfoldable pub bsr : ℕ → ℕ
unfolding bsr_on
bsr n = bsr_on n n

unfoldable pub is_power_of_2 : ℕ → Bool
is_power_of_2 n = (bit_and n (n - 1) == 0) && not (n == 0)

-- Up to the first zero byte.
unfoldable pub up_to_nul : List ℕ → List ℕ
up_to_nul [] = []
up_to_nul (c ∷ cs) = let rest = up_to_nul cs in if c == 0 then [] else c ∷ rest

unfoldable pub strip : ℕ → List ℕ → List ℕ
strip c [] = if c == b' ' then [] else c ∷ []
strip c (d ∷ ds) = c ∷ d ∷ ds

unfoldable pub remove_trailing_spaces : List ℕ → List ℕ
unfolding strip
remove_trailing_spaces [] = []
remove_trailing_spaces (c ∷ cs) = strip c (remove_trailing_spaces cs)

pub record Volume : Type 0 where
  pub oem_name : List ℕ
  pub bytes_per_sector : ℕ
  pub sector_order : ℕ
  pub sectors_per_cluster : ℕ
  pub sectors_per_cluster_order : ℕ
  pub reserved_sectors : ℕ
  pub num_tables : ℕ
  pub max_root_entries : ℕ
  pub media_descriptor : ℕ
  pub total_sectors : ℕ
  pub sectors_per_fat : ℕ
  pub sectors_per_track : ℕ
  pub num_heads : ℕ
  pub hidden_sectors : ℕ
  pub drive_description : ℕ
  pub version : ℕ
  pub root_dir_start_cluster : ℕ
  pub fs_info_sector : ℕ
  pub alt_boot_sector : ℕ
  pub physical_drive_num : ℕ
  pub extended_boot_sig : ℕ
  pub volume_id : ℕ
  pub volume_label : List ℕ
  pub fs_type : List ℕ
  pub cluster_order : ℕ
  pub num_data_clusters : ℕ

unfoldable pub bad_sector_size : ℕ → Bool
unfolding is_power_of_2 bsr
bad_sector_size n = not (is_power_of_2 n) || ltb (bsr n) 5 || ltb 12 (bsr n)

unfoldable pub bad_cluster_size : ℕ → Bool
unfolding is_power_of_2 bsr
bad_cluster_size n = not (is_power_of_2 n) || ltb 7 (bsr n)

unfoldable pub bad_num_tables : ℕ → Bool
bad_num_tables n = not (n == 1) && not (n == 2)

unfoldable pub read_dos_2_0_bpb : Volume → List ℕ → Status Volume
unfolding bad_sector_size bad_cluster_size bad_num_tables bsr
read_dos_2_0_bpb vol buf =
    let sector = le16_at buf 11 in
    let cluster = byte_at buf 13 in
    if bad_sector_size sector
    then refused einval
    else if bad_cluster_size cluster
    then refused einval
    else if bad_num_tables (byte_at buf 16)
    then refused einval
    else accepted (record vol {
      bytes_per_sector = sector;
      sector_order = bsr sector;
      sectors_per_cluster = cluster;
      sectors_per_cluster_order = bsr cluster;
      cluster_order = bsr sector + bsr cluster;
      reserved_sectors = le16_at buf 14;
      num_tables = byte_at buf 16;
      max_root_entries = le16_at buf 17;
      total_sectors = le16_at buf 19;
      media_descriptor = byte_at buf 21;
      sectors_per_fat = le16_at buf 22;
    })

unfoldable pub read_dos_3_31_bpb : Volume → List ℕ → Status Volume
read_dos_3_31_bpb vol buf = accepted (record vol {
  sectors_per_track = le16_at buf 24;
  num_heads = le16_at buf 26;
  hidden_sectors = le32_at buf 28;
})

-- The size of the table, where the FAT32 block gives one.
unfoldable pub read_sectors_per_fat : Volume → ℕ → Status Volume
read_sectors_per_fat vol n =
    if n == 0
    then accepted vol
    else if not ((n * 2 ^ vol.sector_order) % 2 ^ 64 / 2 ^ vol.sector_order == n)
    then refused einval
    else accepted (record vol { sectors_per_fat = n })

-- From `version` on; 0xffff for the FS information sector counts as 0.
unfoldable pub read_fat32_rest : Volume → List ℕ → Status Volume
read_fat32_rest vol buf =
    let info = if le16_at buf 48 == 0xffff then 0 else le16_at buf 48 in
    if not (le16_at buf 42 == 0)
    then refused einval
    else if le32_at buf 44 == 0
    then refused einval
    else if not (info == 0) && ltb vol.sector_order 9
    then refused einval
    else accepted (record vol {
      drive_description = le16_at buf 40;
      version = le16_at buf 42;
      root_dir_start_cluster = le32_at buf 44;
      fs_info_sector = info;
      alt_boot_sector = le16_at buf 50;
    })

unfoldable pub read_fat32_ebpb : Volume → List ℕ → Status Volume
unfolding read_sectors_per_fat read_fat32_rest
read_fat32_ebpb vol buf =
    read_sectors_per_fat vol (le32_at buf 36) then λ vol1. read_fat32_rest vol1 buf

unfoldable pub read_nonfat32_ebpb : Volume → List ℕ → Status Volume
unfolding remove_trailing_spaces up_to_nul
read_nonfat32_ebpb vol buf = accepted (record vol {
  physical_drive_num = byte_at buf 64;
  extended_boot_sig = byte_at buf 66;
  volume_id = le32_at buf 67;
  volume_label = remove_trailing_spaces (up_to_nul (take 11 (drop 71 buf)));
  fs_type = remove_trailing_spaces (up_to_nul (take 8 (drop 82 buf)));
})

-- `num_data_sectors` is a `u32`, and so is the difference.
unfoldable pub num_data_sectors : Volume → ℕ
num_data_sectors vol =
    (vol.total_sectors
      + 2 ^ 33
      - vol.reserved_sectors
      - (vol.max_root_entries * 2 ^ 5) / 2 ^ vol.sector_order)
    % 2 ^ 32

unfoldable pub count_clusters : Volume → Volume
unfolding num_data_sectors
count_clusters vol = record vol {
  num_data_clusters = num_data_sectors vol / 2 ^ vol.sectors_per_cluster_order;
}

-- `read_boot_sector`, behind the read: of `got` bytes, with `errno`.
unfoldable pub read_boot_sector : Volume → (got errno : ℕ) → List ℕ → Status Volume
unfolding read_dos_2_0_bpb read_dos_3_31_bpb read_fat32_ebpb read_nonfat32_ebpb count_clusters
    remove_trailing_spaces up_to_nul
read_boot_sector vol got errno buf =
    if not (got == 128)
    then refused errno
    else read_dos_2_0_bpb
        (record vol { oem_name = remove_trailing_spaces (up_to_nul (take 8 (drop 3 buf))) }) buf
      then (λ v. read_dos_3_31_bpb v buf)
      then (λ v. read_fat32_ebpb v buf)
      then (λ v. read_nonfat32_ebpb v buf)
      then λ v. accepted (count_clusters v)

-- `map_fat`: `mmap` gives the byte at each place of the pages it maps from an offset, for a size, or
-- fails with an `errno`. `data_start_offset` is computed in `fat_volume_mount`.
unfoldable pub map_fat :
    (mmap : ℕ → ℕ → Status (ℕ → ℕ)) → (page_size : ℕ) → Volume → Status FatTable
unfolding is_power_of_2
map_fat mmap page_size vol =
    let fat_offset = vol.reserved_sectors * 2 ^ vol.sector_order in
    let before = fat_offset % page_size in
    let size = (vol.sectors_per_fat * 2 ^ vol.sector_order) % 2 ^ 64 in
    let aligned_size = (size + before) % 2 ^ 64 in
    if page_size == 0 || not (is_power_of_2 page_size) || ltb (2 ^ 31) page_size
    then refused einval
    else if ltb aligned_size size
    then refused einval
    else mmap aligned_size (fat_offset - before) then λ memory. accepted (record {
      fat_map = λ i.
          memory (before + 4 * i)
          + memory (before + 4 * i + 1) * 2 ^ 8
          + memory (before + 4 * i + 2) * 2 ^ 16
          + memory (before + 4 * i + 3) * 2 ^ 24;
      fat_entries = size / 4;
      fat_offset = fat_offset;
      num_data_clusters = vol.num_data_clusters;
      data_start_offset =
          ((vol.num_tables * vol.sectors_per_fat
              + vol.reserved_sectors
              + vol.max_root_entries / 2 ^ (vol.sector_order - 5))
            % 2 ^ 32)
          * 2 ^ vol.sector_order;
      cluster_order = vol.cluster_order;
    })
