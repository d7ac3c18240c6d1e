-- ===== src/Fat/Disk/RoundTrip.antt =====
-- What `fat_file_pwrite` has written, `fat_file_pread` reads back.
use native.Mathlib.Nat.{mod-eq_of_lt, div-le_self}
use operating_system_fa_maf.Common.{
  ℕ, ◌+◌, ◌-◌, ◌*◌, ◌/◌, ◌%◌, ◌^◌, min, ◌≤◌, ◌<◌, ◌≡◌, refl, sym, ap, subst, inl, inr, ◌∙◌, true,
  false, List, [], arith, ltb, le→ltb, eq→==, ◌==◌, if◌then◌else◌, Bool-cases, done, take, drop,
  length, length-take, get_or,
}
use operating_system_fa_maf.Fat.Os.{Os}
use operating_system_fa_maf.Fat.Table.{FatTable, Mount}
use operating_system_fa_maf.Fat.Table.Chain.{Chain, IsFat32}
use operating_system_fa_maf.Fat.Table.Seek.{position, seek_cluster_lem}
use operating_system_fa_maf.Fat.File.{FatFile, Outcome, read_finish, pwrite, pread}
use operating_system_fa_maf.Fat.File.Room.{room, room-drop}
use operating_system_fa_maf.Fat.Disk.{Disk}
use operating_system_fa_maf.Fat.Disk.Patch.{get_or-take}
use operating_system_fa_maf.Fat.Disk.Bytes.{byte}
use operating_system_fa_maf.Fat.Disk.ReadLoop.{read_loop-Found}
use operating_system_fa_maf.Fat.Disk.Cells.{list-ext}
use operating_system_fa_maf.Fat.Disk.Entry.{IsApart}
use operating_system_fa_maf.Fat.Disk.PwriteBytes.{pwrite-Placed}

from_start :
    (t : FatTable) (disk : ℕ → ℕ) (cs : List ℕ) (o j : ℕ)
    → (if ltb j 0 then 0 else byte t disk cs (o + (j - 0))) ≡ byte t disk cs (o + j)
from_start t disk cs o j =
    let none_before : ltb j 0 ≡ false = le→ltb j 0 (omega arith) in
    rw none_before (ap (byte t disk cs) (omega arith))

module _ (os : Os) (disk : Disk os) where
  -- A read of bytes that the file and its chain have, with the bytes that it finds.
  pread-Found :
      (io_fuel fuel : ℕ) (file : FatFile) (asked offset parent : ℕ) (s : Mount os.World)
      (cs : List ℕ)
      → IsFat32 s.table
      → Chain s.table file.start_cluster cs
      → s.errno ≡ 0
      → offset + asked ≤ file.dentry.file_size
      → offset < 2 ^ 32
      → offset / 2 ^ s.table.cluster_order ≤ length cs
      → asked ≤ room s.table (length (drop (position s.table offset) cs)) offset
      → asked < fuel
      → asked < io_fuel
      → (u : Outcome os.World) × (pread os io_fuel fuel file asked offset parent s ≡ done u)
        × (u.count ≡ asked)
        × (length u.content ≡ asked)
        × ((j : ℕ)
            → j < asked
            → get_or u.content j 0
              ≡ byte s.table
                  (disk.at s.world)
                  (drop (position s.table offset) cs)
                  (offset % 2 ^ s.table.cluster_order + j))
  unfolding pread read_finish
  pread-Found io_fuel fuel file asked offset parent s cs fat ch calm within fits inside room_for
        enough io_enough =
      let small : offset / 2 ^ s.table.cluster_order < 2 ^ 32 =
        omega (arith, div-le_self offset (2 ^ s.table.cluster_order)) in
      let at : position s.table offset ≡ offset / 2 ^ s.table.cluster_order = mod-eq_of_lt small in
      let not_past = le→ltb file.dentry.file_size offset (omega arith) in
      let size : min asked (file.dentry.file_size - offset) ≡ asked = omega arith in
      let o = offset % 2 ^ s.table.cluster_order in
      let rest = drop (position s.table offset) cs in
      elim (seek_cluster_lem s.table s.errno file.start_cluster offset cs fat ch) [
        | inr (past, _) ↦ absurd (omega (arith, at))
        | inl (_, (d, sought, ch')) ↦ elim (Bool-cases (asked == 0)) [
          | inl empty ↦
              let nothing : asked ≡ 0 = ground arith in
              rw (not_past, sought, size, empty)
                (_, refl, sym nothing, sym nothing, λ j lt. absurd (omega (arith, nothing)))
          | inr busy ↦
              let quiet : (s.errno == 0) ≡ true = eq→== _ _ calm in
              let f =
                read_loop-Found os disk io_fuel fuel s offset asked [] fat ch' enough io_enough in
              rw (not_past, sought, size, busy, quiet, f.ran)
                (
                  _,
                  refl,
                  omega (arith, f.to_go),
                  omega (arith, f.len),
                  (λ j lt. f.bytes j (omega arith) ∙ from_start s.table (disk.at s.world) rest o j),
                )
        ]
      ]

  -- What is written is read back: on a mount of a FAT32 table with no error pending, of a volume that
  -- keeps what is written to it, with more fuel than bytes, a write of bytes that the buffer holds,
  -- whose offset lies in the file and its chain and whose end is below 2 ^ 32, returns, where the
  -- entry of the file lies in a cluster that is none of the file's; and behind it a read at the same
  -- offset of as many bytes as were written, with errno 0, returns their number and the first bytes
  -- of the buffer.
  pub pread-pwrite :
      (io_fuel fuel : ℕ) (file : FatFile) (buf : List ℕ) (size offset parent : ℕ)
      (s : Mount os.World) (cs : List ℕ)
      → IsFat32 s.table
      → Chain s.table file.start_cluster cs
      → IsApart s.table cs file parent
      → s.errno ≡ 0
      → offset ≤ file.dentry.file_size
      → offset + size < 2 ^ 32
      → offset / 2 ^ s.table.cluster_order ≤ length cs
      → size ≤ length buf
      → size < fuel
      → size < io_fuel
      → (o u : Outcome os.World) × (pwrite os io_fuel fuel file buf size offset parent s ≡ done o)
        × (o.count ≡ min size (length cs * 2 ^ s.table.cluster_order - offset))
        × (pread os io_fuel fuel o.after.file o.count offset parent
              (record (o.after.mount) { errno = 0 })
            ≡ done u)
        × (u.count ≡ o.count)
        × (u.content ≡ take o.count buf)
  pread-pwrite io_fuel fuel file buf size offset parent s cs fat ch h calm within fits inside holds
        enough io_enough =
      let small : offset / 2 ^ s.table.cluster_order < 2 ^ 32 =
        omega (arith, div-le_self offset (2 ^ s.table.cluster_order)) in
      let at : position s.table offset ≡ offset / 2 ^ s.table.cluster_order = mod-eq_of_lt small in
      let space =
        room-drop (2 ^ s.table.cluster_order) (position s.table offset) offset cs (sym at)
          (omega (arith, at)) in
      let (o, wrote, (count, longer, start, kept, bytes)) =
        pwrite-Placed os disk io_fuel fuel file buf size offset parent s cs fat ch h calm within
          fits inside holds enough io_enough in
      let s2 : Mount os.World = record {
        table = s.table;
        world = o.after.mount.world;
        errno = 0;
      } in
      let (u, read, count', len, found) =
        pread-Found io_fuel fuel o.after.file o.count offset parent s2 cs fat
          (subst (λ c. Chain s.table c cs) (sym start) ch) refl (omega (arith, longer, count))
          (omega arith) inside (omega (arith, count)) (omega (arith, count))
          (omega (arith, count)) in
      let same : u.content ≡ take o.count buf =
        list-ext u.content (take o.count buf) (omega (arith, len, count, length-take o.count buf))
          (λ j lt.
            found j (omega (arith, len))
            ∙ bytes j (omega (arith, len, count))
            ∙ sym (get_or-take o.count j buf (omega (arith, len)))) in
      (
        o,
        u,
        wrote,
        omega (arith, count, space),
        subst
            (λ t.
              pread os io_fuel fuel o.after.file o.count offset parent
                (record { table = t; world = o.after.mount.world; errno = 0 })
              ≡ done u)
            (sym kept) read,
        count',
        same,
      )
