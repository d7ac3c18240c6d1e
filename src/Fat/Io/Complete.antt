-- ===== src/Fat/Io/Complete.antt =====
-- What the two loops give when every call of the operating system makes progress.
use operating_system_fa_maf.Common.{
  ℕ, zero, suc, ◌+◌, ◌-◌, ◌≤◌, ◌<◌, ◌≡◌, ◌≢◌, refl, inl, inr, List, [], ◌∷◌, ◌++◌, arith, ◌==◌,
  Bool-cases, length, length-append, length-drop, length-take, take, drop, Run, done,
}
use operating_system_fa_maf.Fat.Os.{Os, moved, bytes}
use operating_system_fa_maf.Fat.Io.{
  Io, after_pread, pread_loop, full_pread, after_pwrite, pwrite_loop, full_pwrite,
}

-- A read of `n` bytes, `n` not 0, places at least one byte and at most `n` of them.
abbrev pub Reads : Os → Type 0
Reads os =
    (w : os.World) (n offset : ℕ)
    → n ≢ 0
    → (b : ℕ) × (bs : List ℕ) × (w' : os.World) × (os.pread w n offset ≡ (bytes (b ∷ bs), w'))
      × (length (b ∷ bs) ≤ n)

-- A write of some bytes moves at least one and at most all of them.
abbrev pub Writes : Os → Type 0
Writes os =
    (w : os.World) (buf : List ℕ) (offset : ℕ)
    → 1 ≤ length buf
    → (m : ℕ) × (w' : os.World) × (os.pwrite w buf offset ≡ (moved (suc m), w'))
      × (suc m ≤ length buf)

-- A loop ends with the count, `errno` as it was, and `len` bytes of content.
abbrev pub Ends : {W : Type 0} → Run (Io W) → (count errno len : ℕ) → Type 0
Ends {W} r count errno len =
    (io : Io W) × (r ≡ done io)
    × (io.count ≡ count)
    × (io.errno ≡ errno)
    × (length io.content ≡ len)

pread_loop-Ends :
    (os : Os) (fuel count offset : ℕ) (got : List ℕ) (remaining : ℕ) (w : os.World) (errno : ℕ)
    → Reads os
    → remaining < fuel
    → Ends
        (pread_loop os fuel count offset got remaining w errno)
        count
        errno
        (length got + remaining)
unfolding pread_loop after_pread
pread_loop-Ends os zero count offset got remaining w errno reads enough = absurd (omega arith)
pread_loop-Ends os (suc fuel) count offset got remaining w errno reads enough =
    elim (Bool-cases (remaining == 0)) [
      | inl e ↦
          let z : remaining ≡ 0 = ground arith in
          rw e (
            record { count = count - remaining; content = got; world = w; errno = errno },
            refl,
            omega arith,
            refl,
            omega arith,
          )
      | inr e ↦
          let (b, bs, w', read, fits) = reads w remaining offset (ground arith) in
          let ih =
            pread_loop-Ends os fuel count (offset + length (b ∷ bs)) (got ++ b ∷ bs)
              (remaining - length (b ∷ bs)) w' errno reads (omega arith) in
          rw (e, read) (ih.0, ih.1, ih.2, ih.3, omega (arith, ih.4, length-append got (b ∷ bs)))
    ]

-- If every read places at least one byte and at most as many as it is asked for, and the fuel is
-- more than the count, full_pread reads all that it is asked for and leaves errno.
pub full_pread-Ends :
    (os : Os) (fuel : ℕ) (w : os.World) (errno count offset : ℕ)
    → Reads os
    → count < fuel
    → Ends (full_pread os fuel w errno count offset) count errno count
unfolding full_pread
full_pread-Ends os fuel w errno count offset reads enough =
    let r = pread_loop-Ends os fuel count offset [] count w errno reads enough in
    (r.0, r.1, r.2, r.3, omega (arith, r.4))

pwrite_loop-Ends :
    (os : Os) (fuel : ℕ) (buf : List ℕ) (count offset pos remaining : ℕ) (w : os.World) (errno : ℕ)
    → Writes os
    → pos + remaining ≤ length buf
    → remaining < fuel
    → Ends (pwrite_loop os fuel buf count offset pos remaining w errno) count errno 0
unfolding pwrite_loop after_pwrite
pwrite_loop-Ends os zero buf count offset pos remaining w errno writes holds enough =
    absurd (omega arith)
pwrite_loop-Ends os (suc fuel) buf count offset pos remaining w errno writes holds enough =
    elim (Bool-cases (remaining == 0)) [
      | inl e ↦
          let z : remaining ≡ 0 = ground arith in
          rw e (
            record { count = count - remaining; content = []; world = w; errno = errno },
            refl,
            omega arith,
            refl,
            refl,
          )
      | inr e ↦
          let some_left : remaining ≢ 0 = ground arith in
          let len : length (take remaining (drop pos buf)) ≡ remaining =
            omega (arith, length-take remaining (drop pos buf), length-drop pos buf) in
          let (m, w', wrote, fits) =
            writes w (take remaining (drop pos buf)) offset (omega (arith, len)) in
          rw (e, wrote)
            (pwrite_loop-Ends os fuel buf count (offset + suc m) (pos + suc m) (remaining - suc m)
              w' errno writes (omega (arith, len)) (omega (arith, len)))
    ]

-- If every write moves at least one byte and at most as many as it is given, and the fuel is more
-- than the count, full_pwrite writes all that it is asked to, out of a buffer that holds so much,
-- and leaves errno.
pub full_pwrite-Ends :
    (os : Os) (fuel : ℕ) (w : os.World) (errno : ℕ) (buf : List ℕ) (count offset : ℕ)
    → Writes os
    → count ≤ length buf
    → count < fuel
    → Ends (full_pwrite os fuel w errno buf count offset) count errno 0
unfolding full_pwrite
full_pwrite-Ends os fuel w errno buf count offset writes holds enough =
    pwrite_loop-Ends os fuel buf count offset 0 count w errno writes (omega arith) enough
