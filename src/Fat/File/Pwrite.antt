-- ===== src/Fat/File/Pwrite.antt =====
-- How much `fat_file_pwrite` writes: what the clusters of the file hold, and no more.
use operating_system_fa_maf.Common.{
  ℕ, zero, suc, ◌+◌, ◌-◌, ◌*◌, ◌/◌, ◌%◌, ◌^◌, min, max, ◌≤◌, ◌<◌, ◌≡◌, refl, sym, inl, inr, ◌∙◌,
  true, false, not, ◌&&◌, ◌||◌, List, [], arith, ltb, ltb→lt, le→ltb, eq→==, length-drop, ◌==◌,
  Bool-cases, Run, done, drop, length,
}
use native.Mathlib.Nat.{mod-lt, one-le-pow, mod-eq_of_lt, div-le_self}
use operating_system_fa_maf.Fat.Os.{Os}
use operating_system_fa_maf.Fat.Io.{Io}
use operating_system_fa_maf.Fat.Io.Complete.{Writes, full_pwrite-Ends}
use operating_system_fa_maf.Fat.Table.{
  Mount, is_eoc, get_next_cluster, is_valid_cluster_number, get_cluster_remaining_bytes,
  cluster_offset, mask_offset,
}
use operating_system_fa_maf.Fat.Table.Chain.{Chain, stop, link, IsFat32, is_eoc-valid}
use operating_system_fa_maf.Fat.Table.Seek.{position, seek_cluster_lem}
use operating_system_fa_maf.Fat.File.Grow.{
  get_next_or_add_cluster_lem, update_entry-table, update_entry-size,
}
use operating_system_fa_maf.Fat.File.{
  FatFile, Progress, Outcome, Round, write_on, after_full_pwrite, write_loop, write_finish, pwrite,
}
use operating_system_fa_maf.Fat.File.Room.{
  room, round_up, remaining-eq, is_valid-end, is_eoc-end, room-drop,
}

abbrev pub Written : {W : Type 0} → Mount W → (remaining : ℕ) → Run (Progress W) → Type 0
Written {W} s remaining r =
    (p : Progress W) × (r ≡ done p)
    × (p.remaining ≡ remaining)
    × (p.mount.table ≡ s.table)
    × (p.mount.errno ≡ 0)

Written-eq :
    {W : Type 0} (s : Mount W) (a b : ℕ) (r : Run (Progress W))
    → a ≡ b
    → Written s a r
    → Written s b r
Written-eq s a b r e w = (w.0, w.1, w.2 ∙ e, w.3, w.4)

-- Behind a full write of `count` bytes, with more to write: on to the next cluster, or the end.
module _ (os : Os) (k : Round os.World) (s : Mount os.World) (fat : IsFat32 s.table) where
  write_on-Written :
      {n : ℕ} {cs : List ℕ} (offset left : ℕ) (buf : List ℕ)
      → s.errno ≡ 0
      → Chain s.table n cs
      → (is_valid_cluster_number s.table n ≡ true
          → Written s (left - room s.table (length cs) offset) (k n offset left buf s))
      → offset % 2 ^ s.table.cluster_order ≡ 0
      → Written s (left - room s.table (length cs) offset) (write_on k offset left buf (n, s))
  unfolding write_on
  write_on-Written {n} offset left buf calm (stop e) h aligned =
      let ends : (not (s.errno == 0) || not (is_valid_cluster_number s.table n)) ≡ true =
        ground (arith, is_valid-end s.table fat) in
      rw ends (record { remaining = left; content = []; mount = s }, refl, omega arith, refl, calm)
  write_on-Written {n} offset left buf calm (link valid next fresh rest) h aligned =
      let goes : (not (s.errno == 0) || not (is_valid_cluster_number s.table n)) ≡ false =
        ground arith in
      rw goes (h valid)

-- The rest of a round behind its write, when the write was whole.
after_full_pwrite-Written :
    (os : Os) (k : Round os.World) (s : Mount os.World) (c : ℕ) {n : ℕ} {cs : List ℕ}
    (offset remaining : ℕ) (buf : List ℕ) (io : Io os.World)
    → IsFat32 s.table
    → is_eoc c ≡ false
    → get_next_cluster s.table c ≡ n
    → Chain s.table n cs
    → io.count ≡ get_cluster_remaining_bytes s.table remaining offset
    → io.errno ≡ 0
    → (is_valid_cluster_number s.table n ≡ true
        → Written s (remaining - io.count - room s.table (length cs) (offset + io.count)) (
            k n
              (offset + io.count)
              (remaining - io.count)
              (drop io.count buf)
              (record s { world = io.world; errno = io.errno })))
    → Written s (remaining - room s.table (suc (length cs)) offset) (
        after_full_pwrite os k c offset remaining buf s
          (get_cluster_remaining_bytes s.table remaining offset)
          io)
unfolding after_full_pwrite
after_full_pwrite-Written os k s c {n} {cs} offset remaining buf io fat more next rest full quiet
      h =
    let b = 2 ^ s.table.cluster_order in
    let count = get_cluster_remaining_bytes s.table remaining offset in
    let pos : 0 < 2 ^ s.table.cluster_order = one-le-pow s.table.cluster_order 2 (omega arith) in
    let small : offset % 2 ^ s.table.cluster_order < 2 ^ s.table.cluster_order =
      mod-lt offset pos in
    let s1 : Mount os.World = record s { world = io.world; errno = io.errno } in
    let size = remaining-eq s.table remaining offset in
    elim (Bool-cases ((io.count == count) && ltb 0 (remaining - io.count))) [
      | inl go ↦
          let whole : io.count ≡ 2 ^ s.table.cluster_order - offset % 2 ^ s.table.cluster_order =
            ground (arith, size) in
          let aligned : (offset + io.count) % 2 ^ s.table.cluster_order ≡ 0 =
            rw whole (round_up offset (2 ^ s.table.cluster_order) pos) in
          rw (go, get_next_or_add_cluster_lem os c s1 more, next)
            (Written-eq s _ _ _ (omega arith) (
              write_on-Written os k s1 fat (offset + io.count) (remaining - io.count)
                (drop io.count buf) quiet rest h aligned))
      | inr halt ↦
          let none_left : remaining - io.count ≡ 0 = ground arith in
          rw halt (
            record { remaining = remaining - io.count; content = []; mount = s1 },
            refl,
            omega arith,
            refl,
            quiet,
          )
    ]

-- The loop from a cluster of the chain: it writes what the rest of the chain holds.
write_loop-Written :
    (os : Os) (io_fuel fuel : ℕ) (s : Mount os.World) {c : ℕ} {cs : List ℕ} (offset remaining : ℕ)
    (buf : List ℕ)
    → Writes os
    → IsFat32 s.table
    → Chain s.table c cs
    → s.errno ≡ 0
    → remaining ≤ length buf
    → remaining < fuel
    → remaining < io_fuel
    → Written s
        (remaining - room s.table (length cs) offset)
        (write_loop os io_fuel fuel c offset remaining buf s)
unfolding write_loop
write_loop-Written os io_fuel zero s offset remaining buf writes fat ch calm holds enough
      io_enough =
    absurd (omega arith)
write_loop-Written os io_fuel (suc fuel) s {c} offset remaining buf writes fat (stop e) calm holds
      enough io_enough =
    let ends : (ltb 0 remaining && not (is_eoc c)) ≡ false = ground (arith, is_eoc-end) in
    rw ends
      (record { remaining = remaining; content = []; mount = s }, refl, omega arith, refl, calm)
write_loop-Written os io_fuel (suc fuel) s {c} offset remaining buf writes fat
      (link {n} {cs} valid next fresh rest) calm holds enough io_enough =
    let more = is_eoc-valid s.table c fat valid in
    elim (Bool-cases (ltb 0 remaining)) [
      | inl some_left ↦
          let count = get_cluster_remaining_bytes s.table remaining offset in
          let size = remaining-eq s.table remaining offset in
          let (io, e, full, quiet, _) =
            full_pwrite-Ends os io_fuel s.world s.errno buf count
              (cluster_offset s.table c + mask_offset offset s.table) writes (omega (arith, size))
              (omega (arith, size)) in
          let pos : 0 < 2 ^ s.table.cluster_order =
            one-le-pow s.table.cluster_order 2 (omega arith) in
          let small = mod-lt offset pos in
          let busy : 0 < remaining = ltb→lt 0 remaining some_left in
          rw (some_left, more, e)
            (after_full_pwrite-Written os (write_loop os io_fuel fuel) s c offset remaining buf io
              fat more next rest full (quiet ∙ calm)
              (λ valid'.
                write_loop-Written os io_fuel fuel (record s { world = io.world; errno = io.errno })
                  (offset + io.count) (remaining - io.count) (drop io.count buf) writes fat rest
                  (quiet ∙ calm) (omega (arith, full, size, length-drop io.count buf))
                  (omega (arith, full, size, small)) (omega arith)))
      | inr nothing_left ↦
          let none_left : remaining ≡ 0 = ground arith in
          rw nothing_left (
            record { remaining = remaining; content = []; mount = s },
            refl,
            omega arith,
            refl,
            calm,
          )
    ]

pub write_finish-Outcome :
    (os : Os) (file : FatFile) (size offset parent : ℕ) (p : Progress os.World)
    → offset + size < 2 ^ 32
    → p.remaining ≤ size
    → (o : Outcome os.World) × (write_finish os file size offset parent p ≡ done o)
      × (o.count ≡ size - p.remaining)
      × (o.after.file.dentry.file_size ≡ max file.dentry.file_size (offset + (size - p.remaining)))
      × (o.after.mount.table ≡ p.mount.table)
unfolding write_finish
write_finish-Outcome os file size offset parent p fits le = (
  _,
  refl,
  refl,
  update_entry-size os true _ parent p.mount ∙ ground arith,
  update_entry-table os true _ parent p.mount,
)

-- On a mount of a FAT32 table with no error pending, with writes that make progress and more fuel
-- than bytes, a write of bytes that the buffer holds, whose offset lies in the file and its chain
-- and whose end is below 2 ^ 32, returns: it writes as many of the bytes as the clusters of the
-- file have room for behind the offset, returns their number, makes the file as long as the last
-- byte written if it was shorter, and leaves the table.
pub pwrite_fills :
    (os : Os) (io_fuel fuel : ℕ) (file : FatFile) (buf : List ℕ) (size offset parent : ℕ)
    (s : Mount os.World) (cs : List ℕ)
    → Writes os
    → IsFat32 s.table
    → Chain s.table file.start_cluster cs
    → s.errno ≡ 0
    → offset ≤ file.dentry.file_size
    → offset + size < 2 ^ 32
    → offset / 2 ^ s.table.cluster_order ≤ length cs
    → size ≤ length buf
    → size < fuel
    → size < io_fuel
    → (o : Outcome os.World) × (pwrite os io_fuel fuel file buf size offset parent s ≡ done o)
      × (o.count ≡ min size (length cs * 2 ^ s.table.cluster_order - offset))
      × (o.after.file.dentry.file_size ≡ max file.dentry.file_size (offset + o.count))
      × (o.after.mount.table ≡ s.table)
unfolding pwrite
pwrite_fills os io_fuel fuel file buf size offset parent s cs writes fat ch calm within fits inside
      holds enough io_enough =
    let b = 2 ^ s.table.cluster_order in
    let small : offset / 2 ^ s.table.cluster_order < 2 ^ 32 =
      omega (arith, div-le_self offset (2 ^ s.table.cluster_order)) in
    let at : position s.table offset ≡ offset / 2 ^ s.table.cluster_order = mod-eq_of_lt small in
    let not_past = le→ltb file.dentry.file_size offset within in
    elim (seek_cluster_lem s.table s.errno file.start_cluster offset cs fat ch) [
      | inr (past, _) ↦ absurd (omega (arith, at))
      | inl (_, (d, sought, rest)) ↦
          let quiet : (s.errno == 0) ≡ true = eq→== _ _ calm in
          let (p, wrote, left, kept, _) =
            write_loop-Written os io_fuel fuel s offset size buf writes fat rest calm holds enough
              io_enough in
          let space =
            room-drop (2 ^ s.table.cluster_order) (position s.table offset) offset cs (sym at)
              (omega (arith, at)) in
          let (o, finished, count, length', kept') =
            write_finish-Outcome os file size offset parent p fits (omega (arith, left)) in
          rw (not_past, sought, quiet, wrote)
            (o, finished, omega (arith, count, left, space), length' ∙ rw count, kept' ∙ kept)
    ]
