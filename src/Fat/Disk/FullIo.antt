-- ===== src/Fat/Disk/FullIo.antt =====
-- What full_pwrite of lab4/esqueleto/fat_util.c places on a volume, and what full_pread finds there.
use operating_system_fa_maf.Common.{
  ℕ, zero, suc, ◌+◌, ◌-◌, ◌≤◌, ◌<◌, ◌≡◌, ◌≢◌, refl, inl, inr, ◌∙◌, List, [], ◌∷◌, ◌++◌, arith, ltb,
  ◌==◌, if◌then◌else◌, Bool-cases, length, length-append, length-drop, length-take, take, drop,
  get_or, Run, done, ltb→lt, ltb→le, ap, lt→ltb,
}
use operating_system_fa_maf.Fat.Os.{Os}
use operating_system_fa_maf.Fat.Io.{
  Io, after_pread, pread_loop, full_pread, after_pwrite, pwrite_loop, full_pwrite,
}
use operating_system_fa_maf.Fat.Disk.{Disk, patch}
use operating_system_fa_maf.Fat.Disk.Patch.{
  get_or-drop, get_or-take, patch-patch, patch-new, get_or-append,
}

zero_more : (j : ℕ) → 0 + j ≡ j
zero_more j = omega arith

-- A byte behind a read is one that there was, one that has been read, or one to come.
fetch-step :
    (disk disk' : ℕ → ℕ) (got read : List ℕ) (offset j : ℕ)
    → (j - length got < length read
        → get_or read (j - length got) 0 ≡ disk (offset + (j - length got)))
    → ((i : ℕ) → disk' i ≡ disk i)
    → (if ltb j (length (got ++ read))
        then get_or (got ++ read) j 0
        else disk' (offset + length read + (j - length (got ++ read))))
      ≡ (if ltb j (length got) then get_or got j 0 else disk (offset + (j - length got)))
fetch-step disk disk' got read offset j there still =
    let longer : length (got ++ read) ≡ length got + length read = length-append got read in
    elim (Bool-cases (ltb j (length got))) [
      | inl old ↦
          let lt : j < length got = ltb→lt j (length got) old in
          rw
            (
              longer,
              lt→ltb j (length got + length read) (omega arith),
              get_or-append got read j,
              old,
            )
            refl
      | inr new ↦
          let le : length got ≤ j = ltb→le j (length got) new in
          elim (Bool-cases (ltb j (length got + length read))) [
            | inl now ↦
                let lt : j < length got + length read = ltb→lt j (length got + length read) now in
                rw (longer, now, get_or-append got read j, new) (there (omega arith))
            | inr later ↦
                let past : length got + length read ≤ j =
                  ltb→le j (length got + length read) later in
                rw (longer, later, new) (still _ ∙ ap disk (omega arith))
          ]
    ]

module _ (os : Os) (disk : Disk os) where
  -- All the bytes that are given are placed.
  abbrev pub Placed :
      (r : Run (Io os.World)) → os.World → (offset count errno n : ℕ) → (ℕ → ℕ) → Type 0
  Placed r w offset count errno n new =
      (io : Io os.World) × (r ≡ done io)
      × (io.count ≡ count)
      × (io.errno ≡ errno)
      × ((i : ℕ) → disk.at io.world i ≡ patch (disk.at w) offset n new i)

  pwrite_loop-Placed :
      (fuel : ℕ) (buf : List ℕ) (count offset pos remaining : ℕ) (w : os.World) (errno : ℕ)
      → pos + remaining ≤ length buf
      → remaining < fuel
      → Placed
          (pwrite_loop os fuel buf count offset pos remaining w errno)
          w
          offset
          count
          errno
          remaining
          (λ j. get_or buf (pos + j) 0)
  unfolding pwrite_loop after_pwrite
  pwrite_loop-Placed zero buf count offset pos remaining w errno holds enough = absurd (omega arith)
  pwrite_loop-Placed (suc fuel) buf count offset pos remaining w errno holds enough =
      elim (Bool-cases (remaining == 0)) [
        | inl e ↦
            let z : remaining ≡ 0 = ground arith in
            rw e (
              record { count = count - remaining; content = []; world = w; errno = errno },
              refl,
              omega arith,
              refl,
              λ i. ground (arith, z),
            )
        | inr e ↦
            let some_left : remaining ≢ 0 = ground arith in
            let given = take remaining (drop pos buf) in
            let len : length given ≡ remaining =
              omega (arith, length-take remaining (drop pos buf), length-drop pos buf) in
            let (m, w', wrote, fits, placed) = disk.stores w given offset (omega (arith, len)) in
            let (io, run, counted, quiet, rest) =
              pwrite_loop-Placed fuel buf count (offset + suc m) (pos + suc m) (remaining - suc m)
                w' errno (omega (arith, len)) (omega (arith, len)) in
            rw (e, wrote)
              (
                io,
                run,
                counted,
                quiet,
                λ i.
                    patch-patch (disk.at w) (disk.at w') (disk.at io.world) offset (suc m) remaining
                      (λ j. get_or given j 0) (λ j. get_or buf (pos + suc m + j) 0)
                      (λ j. get_or buf (pos + j) 0) i (omega (arith, len)) (placed i) (rest i)
                      (λ j lt.
                        get_or-take remaining j (drop pos buf) (omega (arith, len))
                        ∙ get_or-drop pos j buf)
                      (λ j. ap (λ k. get_or buf k 0) (omega arith)),
              )
      ]

  pub full_pwrite-Placed :
      (fuel : ℕ) (w : os.World) (errno : ℕ) (buf : List ℕ) (count offset : ℕ)
      → count ≤ length buf
      → count < fuel
      → Placed
          (full_pwrite os fuel w errno buf count offset)
          w
          offset
          count
          errno
          count
          (λ j. get_or buf j 0)
  unfolding full_pwrite
  full_pwrite-Placed fuel w errno buf count offset holds enough =
      let (io, run, counted, quiet, placed) =
        pwrite_loop-Placed fuel buf count offset 0 count w errno (omega arith) enough in
      let zero-add = λ (j : ℕ). ap (λ k. get_or buf k 0) (zero_more j) in
      (
        io,
        run,
        counted,
        quiet,
        λ i.
            placed i
            ∙ patch-new (disk.at w) offset count (λ j. get_or buf (0 + j) 0) (λ j. get_or buf j 0) i
                zero-add,
      )

  -- All the bytes that are asked for are read, behind those that were there.
  abbrev pub Fetched :
      (r : Run (Io os.World)) → os.World → (got : List ℕ) → (offset count errno n : ℕ) → Type 0
  Fetched r w got offset count errno n =
      (io : Io os.World) × (r ≡ done io)
      × (io.count ≡ count)
      × (io.errno ≡ errno)
      × (length io.content ≡ length got + n)
      × ((j : ℕ)
          → j < length got + n
          → get_or io.content j 0 ≡ (
              if ltb j (length got) then get_or got j 0 else disk.at w (offset + (j - length got))))
      × ((i : ℕ) → disk.at io.world i ≡ disk.at w i)

  pread_loop-Fetched :
      (fuel count offset : ℕ) (got : List ℕ) (remaining : ℕ) (w : os.World) (errno : ℕ)
      → remaining < fuel
      → Fetched
          (pread_loop os fuel count offset got remaining w errno)
          w
          got
          offset
          count
          errno
          remaining
  unfolding pread_loop after_pread
  pread_loop-Fetched zero count offset got remaining w errno enough = absurd (omega arith)
  pread_loop-Fetched (suc fuel) count offset got remaining w errno enough =
      elim (Bool-cases (remaining == 0)) [
        | inl e ↦
            let z : remaining ≡ 0 = ground arith in
            rw e (
              record { count = count - remaining; content = got; world = w; errno = errno },
              refl,
              omega arith,
              refl,
              omega arith,
              (λ j lt. rw (lt→ltb j (length got) (omega arith)) refl),
              λ i. refl,
            )
        | inr e ↦
            let (b, bs, w', read, fits, there, still) =
              disk.loads w remaining offset (ground arith) in
            let n = length (b ∷ bs) in
            let more = got ++ b ∷ bs in
            let (io, run, counted, quiet, len, rest, still') =
              pread_loop-Fetched fuel count (offset + n) more (remaining - n) w' errno
                (omega arith) in
            let longer : length more ≡ length got + n = length-append got (b ∷ bs) in
            rw (e, read)
              (
                io,
                run,
                counted,
                quiet,
                omega (arith, len, longer),
                (λ j lt.
                    rest j (omega (arith, longer))
                    ∙ fetch-step (disk.at w) (disk.at w') got (b ∷ bs) offset j
                        (there (j - length got)) still),
                λ i. still' i ∙ still i,
              )
      ]

  pub full_pread-Fetched :
      (fuel : ℕ) (w : os.World) (errno count offset : ℕ)
      → count < fuel
      → Fetched (full_pread os fuel w errno count offset) w [] offset count errno count
  unfolding full_pread
  full_pread-Fetched fuel w errno count offset enough =
      pread_loop-Fetched fuel count offset [] count w errno enough
