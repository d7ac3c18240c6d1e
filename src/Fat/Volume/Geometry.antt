-- ===== src/Fat/Volume/Geometry.antt =====
-- What a boot sector that `read_boot_sector` accepts says.
use operating_system_fa_maf.Common.{
  take, drop, ℕ, ◌+◌, ◌*◌, ◌/◌, ◌%◌, ◌^◌, ◌≤◌, ◌≡◌, refl, ◌⊎◌, inl, inr, true, false, not, ◌&&◌,
  ltb, ◌==◌, if◌then◌else◌, List, arith, Bool-cases,
}
use operating_system_fa_maf.Fat.Volume.{
  remove_trailing_spaces, up_to_nul, Status, accepted, refused, ◌then◌, Volume, le16_at, byte_at,
  le32_at, bsr, is_power_of_2, bad_sector_size, bad_cluster_size, bad_num_tables, read_dos_2_0_bpb,
  read_dos_3_31_bpb, read_sectors_per_fat, read_fat32_rest, read_fat32_ebpb, read_nonfat32_ebpb,
  count_clusters, read_boot_sector,
}
use operating_system_fa_maf.Fat.Volume.Powers.{power_of_bsr, bsr-pow, is_power_of_2_pow}

abbrev pub Accepts : {A : Type 0} → (A → Type 0) → Status A → Type 0
Accepts P (accepted a) = P a
Accepts P (refused e) = Unit {0}

pub Accepts-then :
    {A B : Type 0} (P : A → Type 0) (R : B → Type 0) (m : Status A) (k : A → Status B)
    → Accepts P m
    → ((a : A) → P a → Accepts R (k a))
    → Accepts R (m then k)
Accepts-then P R (accepted a) k h next = next a h
Accepts-then P R (refused e) k h next = tt

-- Sectors of 32 to 4096 bytes and clusters of 1 to 128 sectors, each a power of two by its order; a
-- cluster has as many bytes as its order says; one or two tables.
abbrev pub HasGeometry : Volume → Type 0
HasGeometry v =
    (v.bytes_per_sector ≡ 2 ^ v.sector_order)
    × (5 ≤ v.sector_order)
    × (v.sector_order ≤ 12)
    × (v.sectors_per_cluster ≡ 2 ^ v.sectors_per_cluster_order)
    × (v.sectors_per_cluster_order ≤ 7)
    × (v.cluster_order ≡ v.sector_order + v.sectors_per_cluster_order)
    × ((v.num_tables ≡ 1) ⊎ (v.num_tables ≡ 2))

good_sector : (n : ℕ) → bad_sector_size n ≡ false → (n ≡ 2 ^ bsr n) × (5 ≤ bsr n) × (bsr n ≤ 12)
unfolding bad_sector_size
good_sector n h =
    let two : is_power_of_2 n ≡ true = ground arith in
    let ge : 5 ≤ bsr n = ground arith in
    let le : bsr n ≤ 12 = ground arith in (power_of_bsr n two, ge, le)

good_cluster : (n : ℕ) → bad_cluster_size n ≡ false → (n ≡ 2 ^ bsr n) × (bsr n ≤ 7)
unfolding bad_cluster_size
good_cluster n h =
    let two : is_power_of_2 n ≡ true = ground arith in
    let le : bsr n ≤ 7 = ground arith in (power_of_bsr n two, le)

good_tables : (n : ℕ) → bad_num_tables n ≡ false → (n ≡ 1) ⊎ (n ≡ 2)
unfolding bad_num_tables
good_tables n h = ground arith

dos_2_0-HasGeometry : (vol : Volume) (buf : List ℕ) → Accepts HasGeometry (read_dos_2_0_bpb vol buf)
unfolding read_dos_2_0_bpb
dos_2_0-HasGeometry vol buf = elim (Bool-cases (bad_sector_size (le16_at buf 11))) [
  | inl e ↦ rw e tt
  | inr s ↦ elim (Bool-cases (bad_cluster_size (byte_at buf 13))) [
    | inl e ↦ rw (s, e) tt
    | inr c ↦ elim (Bool-cases (bad_num_tables (byte_at buf 16))) [
      | inl e ↦ rw (s, c, e) tt
      | inr t ↦
          let sector = good_sector (le16_at buf 11) s in
          let cluster = good_cluster (byte_at buf 13) c in
          rw (s, c, t)
            (
              sector.0,
              sector.1,
              sector.2,
              cluster.0,
              cluster.1,
              refl,
              good_tables (byte_at buf 16) t,
            )
    ]
  ]
]

sectors_per_fat-HasGeometry :
    (vol : Volume) (n : ℕ) → HasGeometry vol → Accepts HasGeometry (read_sectors_per_fat vol n)
unfolding read_sectors_per_fat
sectors_per_fat-HasGeometry vol n g = elim (Bool-cases (n == 0)) [
  | inl e ↦ rw e g
  | inr e ↦
      elim (Bool-cases (not ((n * 2 ^ vol.sector_order) % 2 ^ 64 / 2 ^ vol.sector_order == n))) [
        | inl o ↦ rw (e, o) tt
        | inr o ↦ rw (e, o) g
      ]
]

fat32_rest-HasGeometry :
    (vol : Volume) (buf : List ℕ) → HasGeometry vol → Accepts HasGeometry (read_fat32_rest vol buf)
unfolding read_fat32_rest
fat32_rest-HasGeometry vol buf g =
    let info = if le16_at buf 48 == 0xffff then 0 else le16_at buf 48 in
    elim (Bool-cases (not (le16_at buf 42 == 0))) [
      | inl e ↦ rw e tt
      | inr v ↦ elim (Bool-cases (le32_at buf 44 == 0)) [
        | inl e ↦ rw (v, e) tt
        | inr r ↦ elim (Bool-cases (not (info == 0) && ltb vol.sector_order 9)) [
          | inl e ↦ rw (v, r, e) tt
          | inr i ↦ rw (v, r, i) g
        ]
      ]
    ]

fat32-HasGeometry :
    (vol : Volume) (buf : List ℕ) → HasGeometry vol → Accepts HasGeometry (read_fat32_ebpb vol buf)
unfolding read_fat32_ebpb
fat32-HasGeometry vol buf g =
    Accepts-then HasGeometry HasGeometry (read_sectors_per_fat vol (le32_at buf 36))
      (λ vol1. read_fat32_rest vol1 buf) (sectors_per_fat-HasGeometry vol (le32_at buf 36) g)
      (λ v h. fat32_rest-HasGeometry v buf h)

-- A boot sector is refused, or the volume that comes of it has sectors and clusters of sizes that
-- are powers of two by their orders, within the documented bounds, and one or two tables.
pub boot_sector-HasGeometry :
    (vol : Volume) (got errno : ℕ) (buf : List ℕ)
    → Accepts HasGeometry (read_boot_sector vol got errno buf)
unfolding read_boot_sector read_dos_3_31_bpb read_nonfat32_ebpb count_clusters
boot_sector-HasGeometry vol got errno buf = elim (Bool-cases (not (got == 128))) [
  | inl e ↦ rw e tt
  | inr e ↦ rw e (
      Accepts-then HasGeometry HasGeometry _ _
        (Accepts-then HasGeometry HasGeometry _ _
          (Accepts-then HasGeometry HasGeometry _ _
            (Accepts-then HasGeometry HasGeometry _ _
              (dos_2_0-HasGeometry
                (record vol { oem_name = remove_trailing_spaces (up_to_nul (take 8 (drop 3 buf))) })
                buf)
              (λ v g. g))
            (λ v g. fat32-HasGeometry v buf g))
          (λ v g. g))
        (λ v g. g))
]

sector_pow : (n k : ℕ) → n ≡ 2 ^ k → 5 ≤ k → k ≤ 12 → bad_sector_size n ≡ false
unfolding bad_sector_size
sector_pow n k e ge le = rw (e, is_power_of_2_pow k, bsr-pow k) (ground arith)

cluster_pow : (n k : ℕ) → n ≡ 2 ^ k → k ≤ 7 → bad_cluster_size n ≡ false
unfolding bad_cluster_size
cluster_pow n k e le = rw (e, is_power_of_2_pow k, bsr-pow k) (ground arith)

tables_few : (n : ℕ) → (n ≡ 1) ⊎ (n ≡ 2) → bad_num_tables n ≡ false
unfolding bad_num_tables
tables_few n few = ground arith

-- Sectors of 2 ^ k bytes for k from 5 to 12, clusters of 2 ^ j sectors for j up to 7 and one or
-- two tables are accepted, and the order of the clusters comes out as k + j.
dos_2_0_accepted :
    (vol : Volume) (buf : List ℕ) (k j : ℕ)
    → le16_at buf 11 ≡ 2 ^ k
    → 5 ≤ k
    → k ≤ 12
    → byte_at buf 13 ≡ 2 ^ j
    → j ≤ 7
    → (byte_at buf 16 ≡ 1) ⊎ (byte_at buf 16 ≡ 2)
    → (v : Volume) × (read_dos_2_0_bpb vol buf ≡ accepted v)
      × (v.cluster_order ≡ k + j)
      × (v.num_tables ≡ byte_at buf 16)
unfolding read_dos_2_0_bpb
dos_2_0_accepted vol buf k j sector ge le cluster small few =
    let orders : bsr (le16_at buf 11) + bsr (byte_at buf 13) ≡ k + j =
      rw (sector, cluster, bsr-pow k, bsr-pow j) in
    rw
      (
        sector_pow (le16_at buf 11) k sector ge le,
        cluster_pow (byte_at buf 13) j cluster small,
        tables_few (byte_at buf 16) few,
      )
      (_, refl, orders, refl)
