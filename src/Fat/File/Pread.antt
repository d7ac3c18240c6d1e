-- ===== src/Fat/File/Pread.antt =====
-- How much `fat_file_pread` reads.
use native.Mathlib.Nat.{mod-lt, one-le-pow, mod-eq_of_lt, div-le_self}
use operating_system_fa_maf.Common.{
  ℕ, zero, suc, ◌+◌, ◌-◌, ◌*◌, ◌/◌, ◌^◌, min, ◌≤◌, ◌<◌, ◌≡◌, refl, sym, inl, inr, ◌∙◌, true, false,
  not, ◌&&◌, List, [], ◌++◌, arith, ltb, ltb→lt, le→ltb, eq→==, ◌==◌, Bool-cases, Run, done, length,
  length-append,
}
use operating_system_fa_maf.Fat.Os.{Os}
use operating_system_fa_maf.Fat.Io.{Io}
use operating_system_fa_maf.Fat.Io.Complete.{Reads, full_pread-Ends}
use operating_system_fa_maf.Fat.Table.{
  Mount, end_of_chain, get_next_cluster, get_cluster_remaining_bytes, cluster_offset, mask_offset,
}
use operating_system_fa_maf.Fat.Table.Chain.{Chain, stop, link, IsFat32}
use operating_system_fa_maf.Fat.Table.Seek.{position, seek_cluster_lem, end_of_chain-valid}
use operating_system_fa_maf.Fat.File.{
  FatFile, Progress, Outcome, Round, after_full_pread, read_loop, read_finish, pread,
}
use operating_system_fa_maf.Fat.File.Grow.{update_entry-table, update_entry-size}
use operating_system_fa_maf.Fat.File.Room.{room-step, room, room-drop, remaining-eq}

-- The loop ends with `left` bytes to go and `len` bytes in the buffer, and leaves the table.
abbrev Got : {W : Type 0} → Mount W → (left len : ℕ) → Run (Progress W) → Type 0
Got {W} s left len r =
    (p : Progress W) × (r ≡ done p)
    × (p.remaining ≡ left)
    × (length p.content ≡ len)
    × (p.mount.table ≡ s.table)

Got-eq :
    {W : Type 0} (s : Mount W) (a b m n : ℕ) (r : Run (Progress W))
    → a ≡ b
    → m ≡ n
    → Got s a m r
    → Got s b n r
Got-eq s a b m n r e f w = (w.0, w.1, w.2 ∙ e, w.3 ∙ f, w.4)

-- The rest of a round behind its read, when the read was whole.
after_full_pread-Got :
    {W : Type 0} (k : Round W) (s : Mount W) (c offset remaining : ℕ) (got : List ℕ) (count : ℕ)
    (io : Io W) {left len : ℕ}
    → io.count ≡ count
    → Got s left len (
        k
          (get_next_cluster s.table c)
          (offset + io.count)
          (remaining - io.count)
          (got ++ io.content)
          (record s { world = io.world; errno = io.errno }))
    → Got s left len (after_full_pread k c offset remaining got s count io)
unfolding after_full_pread
after_full_pread-Got k s c offset remaining got count io full h =
    let e : (io.count == count) ≡ true = eq→== _ _ full in rw e h

read_loop-Got :
    (os : Os) (io_fuel fuel : ℕ) (s : Mount os.World) {c : ℕ} {cs : List ℕ} (offset remaining : ℕ)
    (got : List ℕ)
    → Reads os
    → IsFat32 s.table
    → Chain s.table c cs
    → remaining < fuel
    → remaining < io_fuel
    → Got s
        (remaining - room s.table (length cs) offset)
        (length got + min remaining (room s.table (length cs) offset))
        (read_loop os io_fuel fuel c offset remaining got s)
unfolding read_loop
read_loop-Got os io_fuel zero s offset remaining got reads fat ch enough io_enough =
    absurd (omega arith)
read_loop-Got os io_fuel (suc fuel) s {c} offset remaining got reads fat (stop e) enough io_enough =
    let ends : (ltb 0 remaining && not (c == end_of_chain)) ≡ false = ground arith in
    rw ends (
      record { remaining = remaining; content = got; mount = s },
      refl,
      omega arith,
      omega arith,
      refl,
    )
read_loop-Got os io_fuel (suc fuel) s {c} offset remaining got reads fat
      (link {n} {cs} valid next fresh rest) enough io_enough =
    let more = end_of_chain-valid s.table c fat valid in
    elim (Bool-cases (ltb 0 remaining)) [
      | inl some_left ↦
          let count = get_cluster_remaining_bytes s.table remaining offset in
          let size = remaining-eq s.table remaining offset in
          let (io, e, full, quiet, len) =
            full_pread-Ends os io_fuel s.world s.errno count
              (cluster_offset s.table c + mask_offset offset s.table) reads (omega (arith, size)) in
          let pos : 0 < 2 ^ s.table.cluster_order =
            one-le-pow s.table.cluster_order 2 (omega arith) in
          let small = mod-lt offset pos in
          let busy : 0 < remaining = ltb→lt 0 remaining some_left in
          let (left, filled) =
            room-step (2 ^ s.table.cluster_order) (length cs) offset remaining io.count pos
              (full ∙ size) in
          rw (some_left, more, e)
            (after_full_pread-Got (read_loop os io_fuel fuel) s c offset remaining got count io full
              (rw next (
                Got-eq s _ _ _ _ _ left
                  (omega (arith, filled, len, full, length-append got io.content))
                  (read_loop-Got os io_fuel fuel (record s { world = io.world; errno = io.errno })
                    (offset + io.count) (remaining - io.count) (got ++ io.content) reads fat rest
                    (omega (arith, full, size, small)) (omega arith)))))
      | inr nothing_left ↦
          let none_left : remaining ≡ 0 = ground arith in
          rw nothing_left (
            record { remaining = remaining; content = got; mount = s },
            refl,
            omega arith,
            omega arith,
            refl,
          )
    ]

-- On a mount of a FAT32 table with no error pending, with reads that make progress and more fuel
-- than bytes, a read of a file below 2 ^ 32 bytes whose offset lies in the file and its chain
-- returns: it reads the bytes asked for as far as the size of the file and its clusters go,
-- returns their number and exactly so many bytes, and leaves the table and the size of the file.
pub pread_reads :
    (os : Os) (io_fuel fuel : ℕ) (file : FatFile) (size offset parent : ℕ) (s : Mount os.World)
    (cs : List ℕ)
    → Reads os
    → IsFat32 s.table
    → Chain s.table file.start_cluster cs
    → s.errno ≡ 0
    → offset ≤ file.dentry.file_size
    → file.dentry.file_size < 2 ^ 32
    → offset / 2 ^ s.table.cluster_order ≤ length cs
    → size < fuel
    → size < io_fuel
    → (o : Outcome os.World) × (pread os io_fuel fuel file size offset parent s ≡ done o)
      × (o.count
          ≡ min
              (min size (file.dentry.file_size - offset))
              (length cs * 2 ^ s.table.cluster_order - offset))
      × (length o.content ≡ o.count)
      × (o.after.file.dentry.file_size ≡ file.dentry.file_size)
      × (o.after.mount.table ≡ s.table)
unfolding pread read_finish
pread_reads os io_fuel fuel file asked offset parent s cs reads fat ch calm within fits inside
      enough io_enough =
    let size = min asked (file.dentry.file_size - offset) in
    let small : offset / 2 ^ s.table.cluster_order < 2 ^ 32 =
      omega (arith, div-le_self offset (2 ^ s.table.cluster_order)) in
    let at : position s.table offset ≡ offset / 2 ^ s.table.cluster_order = mod-eq_of_lt small in
    let not_past = le→ltb file.dentry.file_size offset within in
    elim (seek_cluster_lem s.table s.errno file.start_cluster offset cs fat ch) [
      | inr (past, _) ↦ absurd (omega (arith, at))
      | inl (_, (d, sought, rest)) ↦
          let quiet : (s.errno == 0) ≡ true = eq→== _ _ calm in
          let (p, read, left, len, kept) =
            read_loop-Got os io_fuel fuel s offset size [] reads fat rest (omega arith)
              (omega arith) in
          let space =
            room-drop (2 ^ s.table.cluster_order) (position s.table offset) offset cs (sym at)
              (omega (arith, at)) in
          elim (Bool-cases (size == 0)) [
            | inl empty ↦
                let nothing : size ≡ 0 = ground arith in
                rw (not_past, sought, empty) (_, refl, omega (arith, nothing), refl, refl, refl)
            | inr busy ↦
                rw (not_past, sought, busy, quiet, read)
                  (
                    _,
                    refl,
                    omega (arith, left, space),
                    omega (arith, left, len),
                    update_entry-size os false file parent p.mount,
                    update_entry-table os false file parent p.mount ∙ kept,
                  )
          ]
    ]
