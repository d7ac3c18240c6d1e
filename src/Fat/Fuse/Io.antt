-- ===== src/Fat/Fuse/Io.antt =====
-- lab4/esqueleto/fat_fuse_ops.c: reading and writing an open file, the one at the address `fh`. Each
-- is entered in the log. `fuel` bounds the loops, `io_fuel` the calls that they make.
use operating_system_fa_maf.Common.{
  ℕ, Option, some, List, [], ◌∷◌, ◌==◌, ltb, if◌then◌else◌, Run, done, ◌>>=◌,
}
use operating_system_fa_maf.Common.Int.{ℤ, pos, neg_ℤ}
use operating_system_fa_maf.Fat.Os.{Os}
use operating_system_fa_maf.Fat.Libc.{Libc}
use operating_system_fa_maf.Fat.Table.{eoverflow}
use operating_system_fa_maf.Fat.File.{pread, pwrite}
use operating_system_fa_maf.Fat.Fuse.{
  FatVolume, Reply, set_errno, file_at, get_parent, parent_start, as_file,
}
use operating_system_fa_maf.Fat.Fuse.Log.{put_outcome, log_activity}

abbrev pub word_read : List ℕ
word_read = b'r' ∷ b'e' ∷ b'a' ∷ b'd' ∷ []

abbrev pub word_write : List ℕ
word_write = b'w' ∷ b'r' ∷ b'i' ∷ b't' ∷ b'e' ∷ []

module _ (os : Os) (c : Libc os.World) (io_fuel fuel : ℕ) where
  -- Behind `fat_file_pread`; the list is what came into the buffer.
  unfoldable pub after_read :
      (fh count : ℕ) → List ℕ → FatVolume os.World → Run (ℤ × List ℕ × FatVolume os.World)
  after_read fh count content v =
      let logged =
        log_activity os c io_fuel fuel word_read fh v >>= λ v1. done (pos count, content, v1) in
      if v.mount.errno == 0 then logged else done (neg_ℤ v.mount.errno, content, v)

  unfoldable pub fuse_read :
      FatVolume os.World → (fh size offset : ℕ) → Run (ℤ × List ℕ × FatVolume os.World)
  unfolding after_read set_errno
  fuse_read v0 fh size offset = get_parent (set_errno v0 0) (some fh) >>= λ r.
      file_at r.1 fh >>= λ file. as_file file >>= λ f. parent_start r.1 r.0 >>= λ start.
      pread os io_fuel fuel f size offset start r.1.mount >>= λ o.
      after_read fh o.count o.content (put_outcome r.1 fh file o)

  -- The write behind the log; the file is read again, since it may be the log itself.
  unfoldable pub write_logged :
      FatVolume os.World
      → (fh : ℕ) → List ℕ
      → (size offset : ℕ) → (parent : Option ℕ) → Reply os.World
  write_logged v fh buf size offset parent =
      log_activity os c io_fuel fuel word_write fh v >>= λ v1. file_at v1 fh >>= λ file.
      as_file file >>= λ f. parent_start v1 parent >>= λ start.
      pwrite os io_fuel fuel f buf size offset start v1.mount >>= λ o.
      done (pos o.count, put_outcome v1 fh file o)

  unfoldable pub fuse_write :
      FatVolume os.World → (fh : ℕ) → List ℕ → (size offset : ℕ) → Reply os.World
  unfolding write_logged
  fuse_write v fh buf size offset = get_parent v (some fh) >>= λ r. file_at r.1 fh >>= λ file.
      let checked = as_file file >>= λ f.
      let written = write_logged r.1 fh buf size offset r.0 in
      if ltb f.dentry.file_size offset then done (neg_ℤ eoverflow, r.1) else written in
      if size == 0 then done (pos 0, r.1) else checked
