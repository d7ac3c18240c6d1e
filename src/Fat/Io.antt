-- ===== src/Fat/Io.antt =====
-- `full_pread` and `full_pwrite` of lab4/esqueleto/fat_util.c. The buffer is a list; `got` is what
-- has been read into it, `pos` how far the write has come. On EINTR the C loop runs its increment
-- with -1, so it steps one byte back; before the first byte that leaves the buffer, a fault.
pub mod Complete
use operating_system_fa_maf.Common.{
  ℕ, zero, suc, ◌+◌, ◌-◌, Bool, true, false, List, [], ◌∷◌, ◌++◌, ◌==◌, if◌then◌else◌, length, take,
  drop, Run, done, fault, out_of_fuel,
}
use operating_system_fa_maf.Fat.Os.{Os, Transfer, moved, failed, Reading, bytes, read_failed}

abbrev pub eintr : ℕ
eintr = 4

abbrev pub eio : ℕ
eio = 5

pub record Io (W : Type 0) : Type 0 where
  pub count : ℕ
  pub content : List ℕ
  pub world : W
  pub errno : ℕ

-- What stands behind the call of `pread`: the next round, or the result. `k` is the next round,
-- from the offset, the bytes read, the bytes remaining, the world and `errno`.
unfoldable pub after_pread :
    {W : Type 0}
    → (k : ℕ → List ℕ → ℕ → W → ℕ → Run (Io W)) → (count offset : ℕ) → List ℕ
    → (remaining errno : ℕ) → Reading × W
    → Run (Io W)
after_pread k count offset got remaining errno (bytes [], w) =
    done (record { count = count - remaining; content = got; world = w; errno = eio })
after_pread k count offset got remaining errno (bytes (b ∷ bs), w) =
    k (offset + length (b ∷ bs)) (got ++ b ∷ bs) (remaining - length (b ∷ bs)) w errno
after_pread k count offset [] remaining errno (read_failed e, w) =
    if e == eintr
    then fault
    else done (record { count = count - remaining; content = []; world = w; errno = e })
after_pread k count offset (g ∷ gs) remaining errno (read_failed e, w) =
    if e == eintr
    then k (offset - 1) (take (length gs) (g ∷ gs)) (remaining + 1) w e
    else done (record { count = count - remaining; content = g ∷ gs; world = w; errno = e })

unfoldable pub pread_loop :
    (os : Os)
    → (fuel count offset : ℕ) → List ℕ
    → (remaining : ℕ) → os.World
    → (errno : ℕ) → Run (Io os.World)
pread_loop os zero count offset got remaining w errno = out_of_fuel
pread_loop os (suc fuel) count offset got remaining w errno =
    let next =
      after_pread (λ o g r v e. pread_loop os fuel count o g r v e) count offset got remaining errno
        (os.pread w remaining offset) in
    if remaining == 0
    then done (record { count = count - remaining; content = got; world = w; errno = errno })
    else next

unfoldable pub full_pread :
    (os : Os) → (fuel : ℕ) → os.World → (errno count offset : ℕ) → Run (Io os.World)
unfolding pread_loop after_pread
full_pread os fuel w errno count offset = pread_loop os fuel count offset [] count w errno

unfoldable pub after_pwrite :
    {W : Type 0}
    → (k : ℕ → ℕ → ℕ → W → ℕ → Run (Io W)) → (count offset pos remaining errno : ℕ) → Transfer × W
    → Run (Io W)
after_pwrite k count offset pos remaining errno (moved zero, w) =
    done (record { count = count - remaining; content = []; world = w; errno = eio })
after_pwrite k count offset pos remaining errno (moved (suc n), w) =
    k (offset + suc n) (pos + suc n) (remaining - suc n) w errno
after_pwrite k count offset zero remaining errno (failed e, w) =
    if e == eintr
    then fault
    else done (record { count = count - remaining; content = []; world = w; errno = e })
after_pwrite k count offset (suc pos) remaining errno (failed e, w) =
    if e == eintr
    then k (offset - 1) pos (remaining + 1) w e
    else done (record { count = count - remaining; content = []; world = w; errno = e })

unfoldable pub pwrite_loop :
    (os : Os)
    → (fuel : ℕ) → List ℕ
    → (count offset pos remaining : ℕ) → os.World
    → (errno : ℕ) → Run (Io os.World)
pwrite_loop os zero buf count offset pos remaining w errno = out_of_fuel
pwrite_loop os (suc fuel) buf count offset pos remaining w errno =
    let next =
      after_pwrite (λ o p r v e. pwrite_loop os fuel buf count o p r v e) count offset pos remaining
        errno (os.pwrite w (take remaining (drop pos buf)) offset) in
    if remaining == 0
    then done (record { count = count - remaining; content = []; world = w; errno = errno })
    else next

unfoldable pub full_pwrite :
    (os : Os)
    → (fuel : ℕ) → os.World
    → (errno : ℕ) → List ℕ
    → (count offset : ℕ) → Run (Io os.World)
unfolding pwrite_loop after_pwrite
full_pwrite os fuel w errno buf count offset = pwrite_loop os fuel buf count offset 0 count w errno
