-- ===== src/Fat/Disk/Entry.antt =====
-- Writing the entry of a file, as each operation ends, on a volume that keeps its bytes.
use mathlib.Core.List.{append_assoc}
use operating_system_fa_maf.Common.{
  ℕ, zero, suc, ◌+◌, ◌*◌, ◌^◌, ◌≤◌, ◌<◌, ◌≡◌, refl, ap, subst, inl, inr, ◌⊎◌, ◌∙◌, Bool, true,
  false, ◌++◌, List, [], ◌∷◌, arith, ltb, leb, if◌then◌else◌, Bool-cases, drop, length,
  length-append, get_or,
}
use operating_system_fa_maf.Fat.Os.{Os, Tm, moved}
use operating_system_fa_maf.Fat.Table.{
  FatTable, Mount, is_valid_cluster_number, cluster_offset, bytes_per_cluster, le32,
}
use operating_system_fa_maf.Fat.Table.Chain.{IsFat32, has}
use operating_system_fa_maf.Fat.Dentry.{
  Dentry, fill_dentry_time_now, write_dir_entry, dentry_written, dentry_bytes, le16,
}
use operating_system_fa_maf.Fat.Dentry.Read.{tail_bytes}
use operating_system_fa_maf.Fat.File.{FatFile, update_entry}
use operating_system_fa_maf.Fat.Disk.{Disk, patch}
use operating_system_fa_maf.Fat.Disk.Patch.{patch_below, patch_above}
use operating_system_fa_maf.Fat.Disk.Bytes.{cluster_bytes, byte, byte-same, AllValid}

has-drop : (c q : ℕ) (cs : List ℕ) → has c cs ≡ false → has c (drop q cs) ≡ false
has-drop c zero cs out = out
has-drop c (suc q) [] out = refl
has-drop c (suc q) (d ∷ cs) out = has-drop c q cs (ground arith)

-- The entry of a file is of the format's width, and has its place in a cluster of the volume that is
-- none of the clusters of the list.
pub record IsApart (t : FatTable) (cs : List ℕ) (file : FatFile) (parent : ℕ) : Type 0 where
  pub base : length file.dentry.base_name ≡ 8
  pub ext : length file.dentry.extension ≡ 3
  pub valid : is_valid_cluster_number t parent ≡ true
  pub apart : has parent cs ≡ false
  pub fits : file.pos_in_parent * 32 + 32 ≤ cluster_bytes t

pub IsApart-drop :
    (t : FatTable) (cs : List ℕ) (file : FatFile) (parent q : ℕ)
    → IsApart t cs file parent
    → IsApart t (drop q cs) file parent
IsApart-drop t cs file parent q h = record {
  base = h.base;
  ext = h.ext;
  valid = h.valid;
  apart = has-drop parent q cs h.apart;
  fits = h.fits;
}

pub length-dentry_bytes :
    (d : Dentry) → length d.base_name ≡ 8 → length d.extension ≡ 3 → length (dentry_bytes d) ≡ 32
unfolding dentry_bytes le16 le32
length-dentry_bytes d base ext =
    let split : dentry_bytes d ≡ d.base_name ++ (d.extension ++ tail_bytes d) = simp append_assoc in
    let both : length (dentry_bytes d) ≡ length d.base_name + length (d.extension ++ tail_bytes d) =
      ap length split ∙ length-append d.base_name (d.extension ++ tail_bytes d) in
    let behind : length (d.extension ++ tail_bytes d) ≡ length d.extension + 21 =
      length-append d.extension (tail_bytes d) in
    omega (arith, both, behind, base, ext)

dentry_written-world :
    {W : Type 0} (s : Mount W) (n : ℕ) (w : W) → (dentry_written s (moved n, w)).world ≡ w
unfolding dentry_written
dentry_written-world s n w = elim (Bool-cases (ltb n 32)) [
  | inl short ↦ rw short refl
  | inr whole ↦ rw whole refl
]

-- Outside of an interval that holds the patch.
patch_outside :
    (disk : ℕ → ℕ) (start size offset n : ℕ) (new : ℕ → ℕ) (i : ℕ)
    → start ≤ offset
    → offset + n ≤ start + size
    → (i < start) ⊎ (start + size ≤ i)
    → patch disk offset n new i ≡ disk i
patch_outside disk start size offset n new i lo hi (inl before) =
    patch_below disk offset n new i (omega arith)
patch_outside disk start size offset n new i lo hi (inr behind) =
    patch_above disk offset n new i (omega arith)

-- The times are no part of the name.
same_name :
    (now : Tm) (m : Bool) (d : Dentry)
    → ((fill_dentry_time_now now false m d).base_name ≡ d.base_name)
      × ((fill_dentry_time_now now false m d).extension ≡ d.extension)
unfolding fill_dentry_time_now
same_name now true d = (refl, refl)
same_name now false d = (refl, refl)

pub update_entry-start :
    (os : Os) (m : Bool) (file : FatFile) (parent : ℕ) (s : Mount os.World)
    → (update_entry os m file parent s).file.start_cluster ≡ file.start_cluster
unfolding update_entry
update_entry-start os m file parent s = refl

pub IsApart-size :
    (t : FatTable) (cs : List ℕ) (file : FatFile) (parent n : ℕ) (b : Bool)
    → IsApart t cs file parent
    → IsApart t cs
        (record file { dentry = if b then record (file.dentry) { file_size = n } else file.dentry })
        parent
IsApart-size t cs file parent n true h = record {
  base = h.base;
  ext = h.ext;
  valid = h.valid;
  apart = h.apart;
  fits = h.fits;
}
IsApart-size t cs file parent n false h = record {
  base = h.base;
  ext = h.ext;
  valid = h.valid;
  apart = h.apart;
  fits = h.fits;
}

module _ (os : Os) (disk : Disk os) where
  -- An entry is written into the cluster of the parent, and nowhere else.
  pub write_dir_entry-outside :
      (s : Mount os.World) (parent : ℕ) (d : Dentry) (nentry i : ℕ)
      → length (dentry_bytes d) ≡ 32
      → nentry * 32 + 32 ≤ cluster_bytes s.table
      → (i < cluster_offset s.table parent)
        ⊎ (cluster_offset s.table parent + cluster_bytes s.table ≤ i)
      → disk.at (write_dir_entry os s parent d nentry).world i ≡ disk.at s.world i
  unfolding write_dir_entry dentry_written bytes_per_cluster
  write_dir_entry-outside s parent d nentry i size fits out =
      let room_for : leb (2 ^ s.table.cluster_order) (nentry * 32) ≡ false = ground arith in
      let (m, w', wrote, short, placed) =
        disk.stores s.world (dentry_bytes d) (nentry * 32 + cluster_offset s.table parent)
          (omega (arith, size)) in
      let co = cluster_offset s.table parent in
      let entry = nentry * 32 + co in
      rw (room_for, wrote)
        (ap (λ w. disk.at w i) (dentry_written-world s (suc m) w')
          ∙ placed i
          ∙ patch_outside (disk.at s.world) co (cluster_bytes s.table) entry (suc m)
              (λ j. get_or (dentry_bytes d) j 0) i (omega arith) (omega (arith, size)) out)

  -- So the bytes of a file stay when its entry is written.
  update_entry-byte :
      (m : Bool) (file : FatFile) (parent : ℕ) (s : Mount os.World) (cs : List ℕ) (r : ℕ)
      → IsFat32 s.table
      → AllValid s.table cs
      → IsApart s.table cs file parent
      → byte s.table (disk.at (update_entry os m file parent s).mount.world) cs r
        ≡ byte s.table (disk.at s.world) cs r
  unfolding update_entry
  update_entry-byte m file parent s cs r fat all h =
      let now = os.gmtime_now s.world in
      let d = fill_dentry_time_now now false m file.dentry in
      let (base, ext) = same_name now m file.dentry in
      byte-same s.table (disk.at s.world)
        (disk.at (write_dir_entry os s parent d file.pos_in_parent).world) parent cs fat h.valid all
        h.apart
        (λ i out.
          write_dir_entry-outside s parent d file.pos_in_parent i
            (length-dentry_bytes d (ap length base ∙ h.base) (ap length ext ∙ h.ext)) h.fits out)
        r

  pub update_entry-kept :
      (t : FatTable) (m : Bool) (file : FatFile) (parent : ℕ) (s : Mount os.World) (cs : List ℕ)
      (r : ℕ)
      → s.table ≡ t
      → IsFat32 t
      → AllValid t cs
      → IsApart t cs file parent
      → byte t (disk.at (update_entry os m file parent s).mount.world) cs r
        ≡ byte t (disk.at s.world) cs r
  update_entry-kept t m file parent s cs r e =
      subst
        (λ t.
          IsFat32 t
          → AllValid t cs
          → IsApart t cs file parent
          → byte t (disk.at (update_entry os m file parent s).mount.world) cs r
            ≡ byte t (disk.at s.world) cs r)
        e (update_entry-byte m file parent s cs r)
