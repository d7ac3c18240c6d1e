-- ===== src/Fat/Disk/PwriteBytes.antt =====
-- The bytes that `fat_file_pwrite` places in the chain of a file.
use native.Mathlib.Nat.{mod-eq_of_lt, div-le_self}
use operating_system_fa_maf.Common.{
  ℕ, ◌+◌, ◌-◌, ◌/◌, ◌%◌, ◌^◌, min, max, ◌≤◌, ◌<◌, ◌≡◌, refl, ap, subst, inl, inr, ◌∙◌, true, List,
  arith, ltb, le→ltb, eq→==, ◌==◌, if◌then◌else◌, done, drop, length, get_or,
}
use operating_system_fa_maf.Fat.Os.{Os}
use operating_system_fa_maf.Fat.Table.{FatTable, Mount}
use operating_system_fa_maf.Fat.Table.Chain.{Chain, IsFat32}
use operating_system_fa_maf.Fat.Table.Seek.{position, seek_cluster_lem}
use operating_system_fa_maf.Fat.Dentry.{Dentry}
use operating_system_fa_maf.Fat.File.{FatFile, Progress, Outcome, write_finish, pwrite}
use operating_system_fa_maf.Fat.File.Grow.{update_entry-table, update_entry-size}
use operating_system_fa_maf.Fat.File.Room.{room}
use operating_system_fa_maf.Fat.Disk.{Disk}
use operating_system_fa_maf.Fat.Disk.Patch.{patch_inside}
use operating_system_fa_maf.Fat.Disk.Bytes.{byte, AllValid}
use operating_system_fa_maf.Fat.Disk.WriteLoop.{write_loop-Wrote}
use operating_system_fa_maf.Fat.Disk.Wrote.{Chain-AllValid}
use operating_system_fa_maf.Fat.Disk.Entry.{
  IsApart, IsApart-drop, IsApart-size, update_entry-start, update_entry-kept,
}

module _ (os : Os) (disk : Disk os) where
  -- The bytes of `o.count` places of the chain from position `p` on, behind a write.
  abbrev pub Placed :
      (t : FatTable) (cs : List ℕ) (p : ℕ) (buf : List ℕ) (file : FatFile) (offset count : ℕ)
      → Outcome os.World
      → Type 0
  Placed t cs p buf file offset count o =
      (o.count ≡ count)
      × (o.after.file.dentry.file_size ≡ max file.dentry.file_size (offset + count))
      × (o.after.file.start_cluster ≡ file.start_cluster)
      × (o.after.mount.table ≡ t)
      × ((j : ℕ) → j < count → byte t (disk.at o.after.mount.world) cs (p + j) ≡ get_or buf j 0)

  write_finish-Placed :
      (file : FatFile) (buf : List ℕ) (size offset parent : ℕ) (s : Mount os.World) (cs : List ℕ)
      (p : Progress os.World)
      → IsFat32 s.table
      → AllValid s.table cs
      → IsApart s.table cs file parent
      → p.mount.table ≡ s.table
      → p.remaining ≤ size
      → offset + size < 2 ^ 32
      → (n : ℕ)
      → ((j : ℕ)
          → j < size - p.remaining
          → byte s.table (disk.at p.mount.world) cs (n + j) ≡ get_or buf j 0)
      → (o : Outcome os.World) × (write_finish os file size offset parent p ≡ done o)
        × Placed s.table cs n buf file offset (size - p.remaining) o
  unfolding write_finish
  write_finish-Placed file buf size offset parent s cs p fat all h kept le fits n bytes =
      let last = offset + size - p.remaining in
      let d : Dentry =
        if ltb file.dentry.file_size last
        then record (file.dentry) { file_size = last % 2 ^ 32 }
        else file.dentry in
      let file' : FatFile = record file { dentry = d } in
      (
        _,
        refl,
        (
          refl,
          update_entry-size os true file' parent p.mount ∙ ground arith,
          update_entry-start os true file' parent p.mount,
          update_entry-table os true file' parent p.mount ∙ kept,
          λ j lt.
              update_entry-kept os disk s.table true file' parent p.mount cs (n + j) kept fat all (
                IsApart-size s.table cs file parent (last % 2 ^ 32) (ltb file.dentry.file_size last)
                  h)
              ∙ bytes j lt,
        ),
      )

  -- A write, as `pwrite_fills`, with the bytes that it places.
  pub pwrite-Placed :
      (io_fuel fuel : ℕ) (file : FatFile) (buf : List ℕ) (size offset parent : ℕ)
      (s : Mount os.World) (cs : List ℕ)
      → IsFat32 s.table
      → Chain s.table file.start_cluster cs
      → IsApart s.table cs file parent
      → s.errno ≡ 0
      → offset ≤ file.dentry.file_size
      → offset + size < 2 ^ 32
      → offset / 2 ^ s.table.cluster_order ≤ length cs
      → size ≤ length buf
      → size < fuel
      → size < io_fuel
      → (o : Outcome os.World) × (pwrite os io_fuel fuel file buf size offset parent s ≡ done o)
        × Placed s.table
            (drop (position s.table offset) cs)
            (offset % 2 ^ s.table.cluster_order)
            buf
            file
            offset
            (min size (room s.table (length (drop (position s.table offset) cs)) offset))
            o
  unfolding pwrite
  pwrite-Placed io_fuel fuel file buf size offset parent s cs fat ch h calm within fits inside holds
        enough io_enough =
      let small : offset / 2 ^ s.table.cluster_order < 2 ^ 32 =
        omega (arith, div-le_self offset (2 ^ s.table.cluster_order)) in
      let at : position s.table offset ≡ offset / 2 ^ s.table.cluster_order = mod-eq_of_lt small in
      let not_past = le→ltb file.dentry.file_size offset within in
      let o = offset % 2 ^ s.table.cluster_order in
      let rest = drop (position s.table offset) cs in
      let n = min size (room s.table (length rest) offset) in
      elim (seek_cluster_lem s.table s.errno file.start_cluster offset cs fat ch) [
        | inr (past, _) ↦ absurd (omega (arith, at))
        | inl (_, (d, sought, ch')) ↦
            let quiet : (s.errno == 0) ≡ true = eq→== _ _ calm in
            let w =
              write_loop-Wrote os disk io_fuel fuel s offset size buf fat ch' calm holds enough
                io_enough in
            let moved : size - w.end.remaining ≡ n = omega (arith, w.to_go) in
            let (r, finished, placed) =
              write_finish-Placed file buf size offset parent s rest w.end fat
                (Chain-AllValid s.table ch') (IsApart-drop s.table cs file parent _ h) w.kept
                (omega (arith, w.to_go)) fits o
                (λ j lt.
                  w.filled.0 (o + j) (omega (arith, moved))
                  ∙ patch_inside (byte s.table (disk.at s.world) rest) o n (λ i. get_or buf i 0)
                      (o + j) (omega arith) (omega (arith, moved))
                  ∙ ap (λ i. get_or buf i 0) (omega arith)) in
            rw (not_past, sought, quiet, w.ran)
              (r, finished, subst (λ k. Placed s.table rest o buf file offset k r) moved placed)
      ]
