-- ===== src/Fat/Disk/ReadLoop.antt =====
-- What the loop of `fat_file_pread` finds on the volume.
use native.Mathlib.Nat.{mod-lt, one-le-pow}
use operating_system_fa_maf.Common.{
  ℕ, zero, suc, ◌+◌, ◌-◌, ◌%◌, ◌^◌, min, ◌≤◌, ◌<◌, ◌≡◌, refl, sym, ap, inl, inr, ◌∙◌, true, false,
  not, ◌&&◌, List, [], ◌∷◌, ◌++◌, arith, ltb, ltb→lt, ltb→le, lt→ltb, le→ltb, eq→==, ◌==◌,
  if◌then◌else◌, Bool-cases, Run, done, length, length-append, get_or,
}
use operating_system_fa_maf.Fat.Os.{Os}
use operating_system_fa_maf.Fat.Io.{Io}
use operating_system_fa_maf.Fat.Table.{
  FatTable, Mount, end_of_chain, get_next_cluster, get_cluster_remaining_bytes, cluster_offset,
  mask_offset, bytes_per_cluster,
}
use operating_system_fa_maf.Fat.Table.Chain.{Chain, stop, link, IsFat32}
use operating_system_fa_maf.Fat.Table.Seek.{end_of_chain-valid}
use operating_system_fa_maf.Fat.File.{Progress, Round, after_full_pread, read_loop}
use operating_system_fa_maf.Fat.File.Room.{room, round_up, remaining-eq, room-step}
use operating_system_fa_maf.Fat.Disk.{Disk}
use operating_system_fa_maf.Fat.Disk.FullIo.{full_pread-Fetched}
use operating_system_fa_maf.Fat.Disk.Patch.{get_or-append}
use operating_system_fa_maf.Fat.Disk.Bytes.{cluster_bytes, byte}

byte-ext :
    (t : FatTable) (disk disk' : ℕ → ℕ) (cs : List ℕ) (r : ℕ)
    → ((i : ℕ) → disk' i ≡ disk i)
    → byte t disk' cs r ≡ byte t disk cs r
byte-ext t disk disk' [] r same = refl
byte-ext t disk disk' (c ∷ cs) r same = elim (Bool-cases (ltb r (cluster_bytes t))) [
  | inl here ↦ rw here (same (cluster_offset t c + r))
  | inr there ↦ rw there (byte-ext t disk disk' cs (r - cluster_bytes t) same)
]

-- The bytes that there were, and behind them those of the clusters from position `o` on.
abbrev pub after_got : FatTable → (ℕ → ℕ) → (cs : List ℕ) → (o : ℕ) → (got : List ℕ) → ℕ → ℕ
after_got t disk cs o got j =
    if ltb j (length got) then get_or got j 0 else byte t disk cs (o + (j - length got))

-- A read from the first cluster, and then one from the clusters behind it.
after_got-link :
    (t : FatTable) (disk disk' : ℕ → ℕ) (c : ℕ) (cs : List ℕ) (o o' : ℕ) (got read : List ℕ) (j : ℕ)
    → (j - length got < length read
        → get_or read (j - length got) 0 ≡ disk (cluster_offset t c + o + (j - length got)))
    → ((i : ℕ) → disk' i ≡ disk i)
    → o + length read ≤ cluster_bytes t
    → (length got + length read ≤ j → (o + length read ≡ cluster_bytes t) × (o' ≡ 0))
    → after_got t disk' cs o' (got ++ read) j ≡ after_got t disk (c ∷ cs) o got j
after_got-link t disk disk' c cs o o' got read j there still inside past =
    let longer : length (got ++ read) ≡ length got + length read = length-append got read in
    elim (Bool-cases (ltb j (length got))) [
      | inl old ↦
          let lt : j < length got = ltb→lt j (length got) old in
          rw
            (
              longer,
              lt→ltb j (length got + length read) (omega arith),
              get_or-append got read j,
              old,
            )
            refl
      | inr new ↦
          let le : length got ≤ j = ltb→le j (length got) new in
          elim (Bool-cases (ltb j (length got + length read))) [
            | inl now ↦
                let lt : j < length got + length read = ltb→lt j (length got + length read) now in
                let here : ltb (o + (j - length got)) (cluster_bytes t) ≡ true =
                  lt→ltb (o + (j - length got)) (cluster_bytes t) (omega arith) in
                rw (longer, now, get_or-append got read j, new, here)
                  (there (omega arith) ∙ ap disk (omega arith))
            | inr later ↦
                let le' : length got + length read ≤ j =
                  ltb→le j (length got + length read) later in
                let (whole, start) = past le' in
                let gone : ltb (o + (j - length got)) (cluster_bytes t) ≡ false =
                  le→ltb (o + (j - length got)) (cluster_bytes t) (omega (arith, whole)) in
                rw (longer, later, new, gone)
                  (byte-ext t disk disk' cs _ still
                    ∙ ap (byte t disk cs) (omega (arith, whole, start)))
          ]
    ]

pub nothing_got :
    (disk : ℕ → ℕ) (offset j : ℕ)
    → (if ltb j 0 then 0 else disk (offset + (j - 0))) ≡ disk (offset + j)
nothing_got disk offset j =
    let none_before : ltb j 0 ≡ false = le→ltb j 0 (omega arith) in
    rw none_before (ap disk (omega arith))

module _ (os : Os) (disk : Disk os) where
  -- The loop ends with `left` bytes to go and `n` more bytes of the clusters in the buffer, from
  -- position `o` on; the table and the volume are as they were.
  pub record Found (s : Mount os.World) (left : ℕ) (cs : List ℕ) (o n : ℕ) (got : List ℕ)
      (r : Run (Progress os.World)) : Type 0 where
    pub end : Progress os.World
    pub ran : r ≡ done end
    pub to_go : end.remaining ≡ left
    pub kept : end.mount.table ≡ s.table
    pub len : length end.content ≡ length got + n
    pub bytes :
        (j : ℕ)
        → j < length got + n
        → get_or end.content j 0 ≡ after_got s.table (disk.at s.world) cs o got j
    pub still : (i : ℕ) → disk.at end.mount.world i ≡ disk.at s.world i

  Found-none :
      (s : Mount os.World) (left left' : ℕ) (cs : List ℕ) (o n : ℕ) (got : List ℕ)
      → left ≡ left'
      → 0 ≡ n
      → Found s left' cs o n got (done (record { remaining = left; content = got; mount = s }))
  Found-none s left left' cs o n got e f = record {
    end = _;
    ran = refl;
    to_go = e;
    kept = refl;
    len = omega (arith, f);
    bytes = λ j lt. rw (lt→ltb j (length got) (omega (arith, f))) refl;
    still = λ i. refl;
  }

  -- A round that goes on behind its read.
  Found-more :
      (s : Mount os.World) (left left' c : ℕ) (cs : List ℕ) (o o' count n m : ℕ) (got : List ℕ)
      (io : Io os.World) (r : Run (Progress os.World))
      → left ≡ left'
      → m ≡ count + n
      → length io.content ≡ count
      → ((j : ℕ)
          → j < count
          → get_or io.content j 0 ≡ disk.at s.world (cluster_offset s.table c + o + j))
      → ((i : ℕ) → disk.at io.world i ≡ disk.at s.world i)
      → o + count ≤ cluster_bytes s.table
      → (0 < n → (o + count ≡ cluster_bytes s.table) × (o' ≡ 0))
      → Found (record s { world = io.world; errno = io.errno }) left cs o' n (got ++ io.content) r
      → Found s left' (c ∷ cs) o m got r
  Found-more s left left' c cs o o' count n m got io r e size long there still inside past f =
      let longer : length (got ++ io.content) ≡ length got + length io.content =
        length-append got io.content in
      record {
        end = f.end;
        ran = f.ran;
        to_go = f.to_go ∙ e;
        kept = f.kept;
        len = omega (arith, f.len, longer, long, size);
        bytes = λ j lt.
            f.bytes j (omega (arith, longer, long, size))
            ∙ after_got-link s.table (disk.at s.world) (disk.at io.world) c cs o o' got io.content j
                (λ lt'. there (j - length got) (omega (arith, long))) still (omega (arith, long))
                (λ le.
                  let (whole, start) = past (omega (arith, long, size)) in
                  (omega (arith, whole, long), start));
        still = λ i. f.still i ∙ still i;
      }

  after_full_pread-eq :
      (k : Round os.World) (s : Mount os.World) (c offset remaining : ℕ) (got : List ℕ) (count : ℕ)
      (io : Io os.World)
      → io.count ≡ count
      → after_full_pread k c offset remaining got s count io
        ≡ k
            (get_next_cluster s.table c)
            (offset + io.count)
            (remaining - io.count)
            (got ++ io.content)
            (record s { world = io.world; errno = io.errno })
  unfolding after_full_pread
  after_full_pread-eq k s c offset remaining got count io full =
      let e : (io.count == count) ≡ true = eq→== _ _ full in rw e refl

  -- The loop from a cluster of a chain: it finds the bytes that the chain holds.
  pub read_loop-Found :
      (io_fuel fuel : ℕ) (s : Mount os.World) {c : ℕ} {cs : List ℕ} (offset remaining : ℕ)
      (got : List ℕ)
      → IsFat32 s.table
      → Chain s.table c cs
      → remaining < fuel
      → remaining < io_fuel
      → Found s
          (remaining - room s.table (length cs) offset)
          cs
          (offset % 2 ^ s.table.cluster_order)
          (min remaining (room s.table (length cs) offset))
          got
          (read_loop os io_fuel fuel c offset remaining got s)
  unfolding read_loop mask_offset bytes_per_cluster
  read_loop-Found io_fuel zero s offset remaining got fat ch enough io_enough = absurd (omega arith)
  read_loop-Found io_fuel (suc fuel) s {c} offset remaining got fat (stop e) enough io_enough =
      let ends : (ltb 0 remaining && not (c == end_of_chain)) ≡ false = ground arith in
      rw ends (Found-none s remaining _ [] _ _ got (omega arith) (omega arith))
  read_loop-Found io_fuel (suc fuel) s {c} offset remaining got fat
        (link {n} {cs} valid next fresh rest) enough io_enough =
      let more = end_of_chain-valid s.table c fat valid in
      elim (Bool-cases (ltb 0 remaining)) [
        | inl some_left ↦
            let count = get_cluster_remaining_bytes s.table remaining offset in
            let size = remaining-eq s.table remaining offset in
            let (io, e, full, quiet, len, found, still) =
              full_pread-Fetched os disk io_fuel s.world s.errno count
                (cluster_offset s.table c + mask_offset offset s.table) (omega (arith, size)) in
            let pos : 0 < 2 ^ s.table.cluster_order =
              one-le-pow s.table.cluster_order 2 (omega arith) in
            let small = mod-lt offset pos in
            let busy : 0 < remaining = ltb→lt 0 remaining some_left in
            let (left, filled) =
              room-step (2 ^ s.table.cluster_order) (length cs) offset remaining io.count pos
                (full ∙ size) in
            rw
              (
                some_left,
                more,
                e,
                after_full_pread-eq (read_loop os io_fuel fuel) s c offset remaining got count io
                    full,
                next,
              )
              (Found-more s _ _ c cs (offset % 2 ^ s.table.cluster_order)
                ((offset + io.count) % 2 ^ s.table.cluster_order) io.count _ _ got io _ left
                (sym filled) (omega (arith, len, full))
                (λ j lt. found j (omega (arith, full)) ∙ nothing_got (disk.at s.world) _ j) still
                (omega (arith, full, size))
                (λ go.
                  let gap : io.count
                      ≡ 2 ^ s.table.cluster_order - offset % 2 ^ s.table.cluster_order =
                    omega (arith, full, size) in
                  (omega (arith, gap), rw gap (round_up offset (2 ^ s.table.cluster_order) pos)))
                (read_loop-Found io_fuel fuel (record s { world = io.world; errno = io.errno })
                  (offset + io.count) (remaining - io.count) (got ++ io.content) fat rest
                  (omega (arith, full, size, small)) (omega arith)))
        | inr nothing_left ↦
            let none_left : remaining ≡ 0 = ground arith in
            rw nothing_left (Found-none s remaining _ (c ∷ cs) _ _ got (omega arith) (omega arith))
      ]
