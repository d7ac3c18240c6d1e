-- ===== src/Fat/Disk.antt =====
-- A volume that keeps what is written to it: what fat_util.c's loops place there, and read from it.
pub mod Patch
pub mod FullIo
pub mod Cells
pub mod Bytes
pub mod Wrote
pub mod WriteLoop
pub mod ReadLoop
pub mod Entry
pub mod PwriteBytes
pub mod RoundTrip
pub mod Entries
pub mod Listing
pub mod Persist
mod Examples
use operating_system_fa_maf.Common.{
  ℕ, zero, suc, ◌+◌, ◌-◌, ◌≤◌, ◌<◌, ◌≡◌, ◌≢◌, refl, sym, inl, inr, ◌∙◌, Bool, true, false, ◌&&◌,
  List, [], ◌∷◌, ◌++◌, arith, ltb, leb, ◌==◌, if◌then◌else◌, Bool-cases, length, length-append,
  length-drop, length-take, take, drop, get_or, Run, done, ltb→lt, ltb→le, min, ap, lt→ltb, le→ltb,
}
use operating_system_fa_maf.Fat.Os.{Os, moved, bytes}
use operating_system_fa_maf.Fat.Io.{
  Io, after_pread, pread_loop, full_pread, after_pwrite, pwrite_loop, full_pwrite,
}

-- Places with `n` of them overwritten, from `offset` on.
abbrev pub patch : (ℕ → ℕ) → (offset n : ℕ) → (ℕ → ℕ) → ℕ → ℕ
patch disk offset n new i = if leb offset i && ltb i (offset + n) then new (i - offset) else disk i

-- `at` is the byte at a place of the volume. A write of some bytes places at least the first of them
-- where it is told to, and a read of some gives at least the first of those that are there.
pub record Disk (os : Os) : Type 0 where
  pub at : os.World → ℕ → ℕ
  pub stores :
      (w : os.World) (buf : List ℕ) (offset : ℕ)
      → 1 ≤ length buf
      → (m : ℕ) × (w' : os.World) × (os.pwrite w buf offset ≡ (moved (suc m), w'))
        × (suc m ≤ length buf)
        × ((i : ℕ) → at w' i ≡ patch (at w) offset (suc m) (λ j. get_or buf j 0) i)
  pub loads :
      (w : os.World) (n offset : ℕ)
      → n ≢ 0
      → (b : ℕ) × (bs : List ℕ) × (w' : os.World) × (os.pread w n offset ≡ (bytes (b ∷ bs), w'))
        × (length (b ∷ bs) ≤ n)
        × ((j : ℕ) → j < length (b ∷ bs) → get_or (b ∷ bs) j 0 ≡ at w (offset + j))
        × ((i : ℕ) → at w' i ≡ at w i)
