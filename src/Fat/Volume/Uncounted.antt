-- ===== src/Fat/Volume/Uncounted.antt =====
-- The boot sector of a volume whose 16-bit count of sectors is 0.
use native.Mathlib.Nat.{zero-div}
use operating_system_fa_maf.Common.{
  take, drop, ℕ, ◌-◌, ◌*◌, ◌/◌, ◌%◌, ◌^◌, ◌≤◌, ◌≡◌, refl, ap, inl, inr, not, ◌&&◌, ltb, ◌==◌,
  if◌then◌else◌, List, arith, Bool-cases,
}
use operating_system_fa_maf.Fat.Volume.{
  remove_trailing_spaces, up_to_nul, Volume, le16_at, byte_at, le32_at, bsr, bad_sector_size,
  bad_cluster_size, bad_num_tables, read_dos_2_0_bpb, read_dos_3_31_bpb, read_sectors_per_fat,
  read_fat32_rest, read_fat32_ebpb, read_nonfat32_ebpb, num_data_sectors, count_clusters,
  read_boot_sector,
}
use operating_system_fa_maf.Fat.Volume.Geometry.{Accepts, Accepts-then}

module _ (buf : List ℕ) where
  -- The fields that the number of clusters is computed from, as the sector gives them.
  abbrev HasCounts : Volume → Type 0
  HasCounts v =
      (v.total_sectors ≡ le16_at buf 19)
      × (v.max_root_entries ≡ le16_at buf 17)
      × (v.reserved_sectors ≡ le16_at buf 14)
      × (v.sectors_per_cluster_order ≡ bsr (byte_at buf 13))

  dos_2_0-HasCounts : (vol : Volume) → Accepts HasCounts (read_dos_2_0_bpb vol buf)
  unfolding read_dos_2_0_bpb
  dos_2_0-HasCounts vol = elim (Bool-cases (bad_sector_size (le16_at buf 11))) [
    | inl e ↦ rw e tt
    | inr s ↦ elim (Bool-cases (bad_cluster_size (byte_at buf 13))) [
      | inl e ↦ rw (s, e) tt
      | inr c ↦ elim (Bool-cases (bad_num_tables (byte_at buf 16))) [
        | inl e ↦ rw (s, c, e) tt
        | inr t ↦ rw (s, c, t) (refl, refl, refl, refl)
      ]
    ]
  ]

  sectors_per_fat-HasCounts :
      (vol : Volume) (n : ℕ) → HasCounts vol → Accepts HasCounts (read_sectors_per_fat vol n)
  unfolding read_sectors_per_fat
  sectors_per_fat-HasCounts vol n g = elim (Bool-cases (n == 0)) [
    | inl e ↦ rw e g
    | inr e ↦
        elim (Bool-cases (not ((n * 2 ^ vol.sector_order) % 2 ^ 64 / 2 ^ vol.sector_order == n))) [
          | inl o ↦ rw (e, o) tt
          | inr o ↦ rw (e, o) g
        ]
  ]

  fat32_rest-HasCounts :
      (vol : Volume) → HasCounts vol → Accepts HasCounts (read_fat32_rest vol buf)
  unfolding read_fat32_rest
  fat32_rest-HasCounts vol g =
      let info = if le16_at buf 48 == 0xffff then 0 else le16_at buf 48 in
      elim (Bool-cases (not (le16_at buf 42 == 0))) [
        | inl e ↦ rw e tt
        | inr v ↦ elim (Bool-cases (le32_at buf 44 == 0)) [
          | inl e ↦ rw (v, e) tt
          | inr r ↦ elim (Bool-cases (not (info == 0) && ltb vol.sector_order 9)) [
            | inl e ↦ rw (v, r, e) tt
            | inr i ↦ rw (v, r, i) g
          ]
        ]
      ]

  fat32-HasCounts : (vol : Volume) → HasCounts vol → Accepts HasCounts (read_fat32_ebpb vol buf)
  unfolding read_fat32_ebpb
  fat32-HasCounts vol g =
      Accepts-then HasCounts HasCounts (read_sectors_per_fat vol (le32_at buf 36))
        (λ vol1. read_fat32_rest vol1 buf) (sectors_per_fat-HasCounts vol (le32_at buf 36) g)
        (λ v h. fat32_rest-HasCounts v h)

  -- The difference of 0 and the reserved sectors wraps around.
  count_clusters_wrap :
      (vol : Volume)
      → HasCounts vol
      → le16_at buf 19 ≡ 0
      → le16_at buf 17 ≡ 0
      → 1 ≤ le16_at buf 14
      → (count_clusters vol).num_data_clusters
        ≡ (2 ^ 32 - le16_at buf 14) / 2 ^ bsr (byte_at buf 13)
  unfolding count_clusters num_data_sectors
  count_clusters_wrap vol (total, root, reserved, order) no_total no_root some_reserved =
      let none : (0 * 2 ^ 5) / 2 ^ vol.sector_order ≡ 0 = zero-div (2 ^ vol.sector_order) in
      rw (total, no_total, root, no_root, none, reserved, order)
        (ap (λ n. n / 2 ^ bsr (byte_at buf 13)) (omega arith))

  -- A boot sector whose 16-bit count of sectors is 0, with reserved sectors but no root entries, is
  -- refused, or the number of clusters of the volume is what 2 ^ 32 minus the reserved sectors
  -- gives, whatever the sector says in its 32-bit count.
  pub boot_sector-uncounted :
      (vol : Volume) (got errno : ℕ)
      → le16_at buf 19 ≡ 0
      → le16_at buf 17 ≡ 0
      → 1 ≤ le16_at buf 14
      → Accepts
          (λ v. v.num_data_clusters ≡ (2 ^ 32 - le16_at buf 14) / 2 ^ bsr (byte_at buf 13))
          (read_boot_sector vol got errno buf)
  unfolding read_boot_sector read_dos_3_31_bpb read_nonfat32_ebpb
  boot_sector-uncounted vol got errno no_total no_root some_reserved =
      elim (Bool-cases (not (got == 128))) [
        | inl e ↦ rw e tt
        | inr e ↦ rw e (
            Accepts-then HasCounts _ _ _
              (Accepts-then HasCounts HasCounts _ _
                (Accepts-then HasCounts HasCounts _ _
                  (Accepts-then HasCounts HasCounts _ _
                    (dos_2_0-HasCounts (record vol {
                      oem_name = remove_trailing_spaces (up_to_nul (take 8 (drop 3 buf)));
                    }))
                    (λ v g. g))
                  (λ v g. fat32-HasCounts v g))
                (λ v g. g))
              (λ v g. count_clusters_wrap v g no_total no_root some_reserved))
      ]
