-- ===== src/Fat/Disk/WriteLoop.antt =====
-- What the loop of `fat_file_pwrite` places on the volume.
use native.Mathlib.Nat.{mod-lt, one-le-pow}
use operating_system_fa_maf.Common.{
  ℕ, zero, suc, ◌+◌, ◌-◌, ◌%◌, ◌^◌, min, ◌≤◌, ◌<◌, ◌≡◌, refl, sym, subst, inl, inr, ◌∙◌, true,
  false, not, ◌&&◌, ◌||◌, List, [], ◌∷◌, arith, ltb, ltb→lt, ◌==◌, Bool-cases, drop, length,
  length-drop, get_or,
}
use operating_system_fa_maf.Fat.Os.{Os}
use operating_system_fa_maf.Fat.Io.{Io}
use operating_system_fa_maf.Fat.Table.{
  Mount, is_eoc, get_next_cluster, is_valid_cluster_number, get_cluster_remaining_bytes,
  cluster_offset, mask_offset, bytes_per_cluster,
}
use operating_system_fa_maf.Fat.Table.Chain.{Chain, stop, link, IsFat32, has, is_eoc-valid}
use operating_system_fa_maf.Fat.File.{Round, write_on, after_full_pwrite, write_loop}
use operating_system_fa_maf.Fat.File.Grow.{get_next_or_add_cluster_lem}
use operating_system_fa_maf.Fat.File.Room.{
  room, round_up, remaining-eq, is_valid-end, is_eoc-end, room-step,
}
use operating_system_fa_maf.Fat.Disk.{Disk, patch}
use operating_system_fa_maf.Fat.Disk.FullIo.{full_pwrite-Placed}
use operating_system_fa_maf.Fat.Disk.Bytes.{AllValid}
use operating_system_fa_maf.Fat.Disk.Wrote.{
  Chain-AllValid, Wrote, Wrote-eq, Wrote-none, Wrote-last, Wrote-more,
}

module _ (os : Os) (disk : Disk os) where
  -- Behind a full write of a cluster's end, on to the next cluster or the end of the chain.
  write_on-Wrote :
      (k : Round os.World) (s : Mount os.World) {n : ℕ} {cs : List ℕ} (offset left : ℕ)
      (buf : List ℕ)
      → IsFat32 s.table
      → s.errno ≡ 0
      → Chain s.table n cs
      → offset % 2 ^ s.table.cluster_order ≡ 0
      → (is_valid_cluster_number s.table n ≡ true
          → Wrote os disk s
              (left - room s.table (length cs) offset)
              cs
              (offset % 2 ^ s.table.cluster_order)
              (min left (room s.table (length cs) offset))
              buf
              (k n offset left buf s))
      → Wrote os disk s
          (left - room s.table (length cs) offset)
          cs
          0
          (min left (room s.table (length cs) offset))
          buf
          (write_on k offset left buf (n, s))
  unfolding write_on
  write_on-Wrote k s {n} offset left buf fat calm (stop e) aligned h =
      let ends : (not (s.errno == 0) || not (is_valid_cluster_number s.table n)) ≡ true =
        ground (arith, is_valid-end s.table fat) in
      rw ends (Wrote-none os disk s left _ [] 0 _ buf (omega arith) (omega arith) calm)
  write_on-Wrote k s {n} {cs} offset left buf fat calm (link valid next fresh rest) aligned h =
      let goes : (not (s.errno == 0) || not (is_valid_cluster_number s.table n)) ≡ false =
        ground arith in
      rw goes (
        subst
          (λ o.
            Wrote os disk s (left - room s.table (length cs) offset) cs o
              (min left (room s.table (length cs) offset)) buf (k n offset left buf s))
          aligned (h valid))

  -- The rest of a round behind its write, when the write was whole.
  after_full_pwrite-Wrote :
      (k : Round os.World) (s : Mount os.World) (c : ℕ) {n : ℕ} {cs : List ℕ} (offset remaining : ℕ)
      (buf : List ℕ) (io : Io os.World)
      → IsFat32 s.table
      → is_valid_cluster_number s.table c ≡ true
      → get_next_cluster s.table c ≡ n
      → has c cs ≡ false
      → Chain s.table n cs
      → io.count ≡ get_cluster_remaining_bytes s.table remaining offset
      → io.errno ≡ 0
      → ((i : ℕ)
          → disk.at io.world i
            ≡ patch
                (disk.at s.world)
                (cluster_offset s.table c + offset % 2 ^ s.table.cluster_order)
                io.count
                (λ j. get_or buf j 0)
                i)
      → (is_valid_cluster_number s.table n ≡ true
          → (offset + io.count) % 2 ^ s.table.cluster_order ≡ 0
          → Wrote os disk
              (record s { world = io.world; errno = io.errno })
              (remaining - io.count - room s.table (length cs) (offset + io.count))
              cs
              ((offset + io.count) % 2 ^ s.table.cluster_order)
              (min (remaining - io.count) (room s.table (length cs) (offset + io.count)))
              (drop io.count buf)
              (k n
                (offset + io.count)
                (remaining - io.count)
                (drop io.count buf)
                (record s { world = io.world; errno = io.errno })))
      → Wrote os disk s
          (remaining - room s.table (suc (length cs)) offset)
          (c ∷ cs)
          (offset % 2 ^ s.table.cluster_order)
          (min remaining (room s.table (suc (length cs)) offset))
          buf
          (after_full_pwrite os k c offset remaining buf s
            (get_cluster_remaining_bytes s.table remaining offset)
            io)
  unfolding after_full_pwrite
  after_full_pwrite-Wrote k s c {n} {cs} offset remaining buf io fat valid next fresh rest full
        quiet placed h =
      let b = 2 ^ s.table.cluster_order in
      let count = get_cluster_remaining_bytes s.table remaining offset in
      let pos : 0 < 2 ^ s.table.cluster_order = one-le-pow s.table.cluster_order 2 (omega arith) in
      let small : offset % 2 ^ s.table.cluster_order < 2 ^ s.table.cluster_order =
        mod-lt offset pos in
      let s1 : Mount os.World = record s { world = io.world; errno = io.errno } in
      let all : AllValid s.table cs = Chain-AllValid s.table rest in
      let size = remaining-eq s.table remaining offset in
      let (left, filled) =
        room-step (2 ^ s.table.cluster_order) (length cs) offset remaining io.count pos
          (full ∙ size) in
      elim (Bool-cases ((io.count == count) && ltb 0 (remaining - io.count))) [
        | inl go ↦
            let whole : io.count ≡ 2 ^ s.table.cluster_order - offset % 2 ^ s.table.cluster_order =
              ground (arith, size) in
            let aligned : (offset + io.count) % 2 ^ s.table.cluster_order ≡ 0 =
              rw whole (round_up offset (2 ^ s.table.cluster_order) pos) in
            let goes_on =
              Wrote-more os disk s c cs (offset % 2 ^ s.table.cluster_order) io.count
                (remaining - io.count - room s.table (length cs) (offset + io.count))
                (min (remaining - io.count) (room s.table (length cs) (offset + io.count)))
                (min remaining (room s.table (suc (length cs)) offset)) buf io _ fat valid all fresh
                (omega (arith, whole)) (sym filled) placed
                (write_on-Wrote k s1 (offset + io.count) (remaining - io.count) (drop io.count buf)
                  fat quiet rest aligned (λ valid'. h valid' aligned)) in
            rw (go, get_next_or_add_cluster_lem os c s1 (is_eoc-valid s.table c fat valid), next)
              (Wrote-eq os disk s _ _ (c ∷ cs) (offset % 2 ^ s.table.cluster_order) _ _ buf _ left
                refl goes_on)
        | inr halt ↦
            let none_left : remaining - io.count ≡ 0 = ground arith in
            let last =
              Wrote-last os disk s c cs (offset % 2 ^ s.table.cluster_order) io.count
                (remaining - io.count) buf io fat valid all fresh (omega (arith, full, size)) quiet
                placed in
            let none : remaining - io.count ≡ remaining - room s.table (suc (length cs)) offset =
              omega (arith, left) in
            let size' : io.count ≡ min remaining (room s.table (suc (length cs)) offset) =
              omega (arith, filled) in
            rw halt (
              Wrote-eq os disk s _ _ (c ∷ cs) (offset % 2 ^ s.table.cluster_order) _ _ buf _ none
                size' last)
      ]

  -- The loop from a cluster of a chain: the bytes that the chain has room for are placed in it.
  pub write_loop-Wrote :
      (io_fuel fuel : ℕ) (s : Mount os.World) {c : ℕ} {cs : List ℕ} (offset remaining : ℕ)
      (buf : List ℕ)
      → IsFat32 s.table
      → Chain s.table c cs
      → s.errno ≡ 0
      → remaining ≤ length buf
      → remaining < fuel
      → remaining < io_fuel
      → Wrote os disk s
          (remaining - room s.table (length cs) offset)
          cs
          (offset % 2 ^ s.table.cluster_order)
          (min remaining (room s.table (length cs) offset))
          buf
          (write_loop os io_fuel fuel c offset remaining buf s)
  unfolding write_loop mask_offset bytes_per_cluster
  write_loop-Wrote io_fuel zero s offset remaining buf fat ch calm holds enough io_enough =
      absurd (omega arith)
  write_loop-Wrote io_fuel (suc fuel) s {c} offset remaining buf fat (stop e) calm holds enough
        io_enough =
      let ends : (ltb 0 remaining && not (is_eoc c)) ≡ false = ground (arith, is_eoc-end) in
      rw ends (
        Wrote-none os disk s remaining _ [] (offset % 2 ^ s.table.cluster_order) _ buf (omega arith)
          (omega arith) calm)
  write_loop-Wrote io_fuel (suc fuel) s {c} offset remaining buf fat
        (link {n} {cs} valid next fresh rest) calm holds enough io_enough =
      let more = is_eoc-valid s.table c fat valid in
      elim (Bool-cases (ltb 0 remaining)) [
        | inl some_left ↦
            let count = get_cluster_remaining_bytes s.table remaining offset in
            let size = remaining-eq s.table remaining offset in
            let (io, e, full, quiet, placed) =
              full_pwrite-Placed os disk io_fuel s.world s.errno buf count
                (cluster_offset s.table c + mask_offset offset s.table) (omega (arith, size))
                (omega (arith, size)) in
            let pos : 0 < 2 ^ s.table.cluster_order =
              one-le-pow s.table.cluster_order 2 (omega arith) in
            let small = mod-lt offset pos in
            let busy : 0 < remaining = ltb→lt 0 remaining some_left in
            rw (some_left, more, e)
              (after_full_pwrite-Wrote (write_loop os io_fuel fuel) s c offset remaining buf io fat
                valid next fresh rest full (quiet ∙ calm) (λ i. placed i ∙ rw full refl)
                (λ valid' aligned.
                  write_loop-Wrote io_fuel fuel (record s { world = io.world; errno = io.errno })
                    (offset + io.count) (remaining - io.count) (drop io.count buf) fat rest
                    (quiet ∙ calm) (omega (arith, full, size, length-drop io.count buf))
                    (omega (arith, full, size, small)) (omega arith)))
        | inr nothing_left ↦
            let none_left : remaining ≡ 0 = ground arith in
            rw nothing_left (
              Wrote-none os disk s remaining _ (c ∷ cs) (offset % 2 ^ s.table.cluster_order) _ buf
                (omega arith) (omega arith) calm)
      ]
