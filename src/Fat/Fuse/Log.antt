-- ===== src/Fat/Fuse/Log.antt =====
-- lab4/esqueleto/fat_fuse_ops.c and big_brother.c: the log. `fuel` bounds each loop of a write, and
-- `io_fuel` the calls that it makes.
use operating_system_fa_maf.Common.{
  ℕ, Option, none, some, List, [], ◌∷◌, ◌++◌, ltb, if◌then◌else◌, length, Run, done, fault, ◌>>=◌,
}
use operating_system_fa_maf.Fat.Os.{Os}
use operating_system_fa_maf.Fat.Libc.{Libc}
use operating_system_fa_maf.Fat.File.{Outcome, pwrite}
use operating_system_fa_maf.Fat.Handle.{Handle}
use operating_system_fa_maf.Fat.Fuse.{
  FatVolume, node_search, file_search, file_at, put_file, get_parent, parent_start, as_file,
}

abbrev pub log_file : List ℕ
log_file = b'/' ∷ b'f' ∷ b's' ∷ b'.' ∷ b'l' ∷ b'o' ∷ b'g' ∷ []

abbrev pub log_message_size : ℕ
log_message_size = 100

-- A file and the mount after a read or a write of the file at `a`.
unfoldable pub put_outcome : {W : Type 0} → FatVolume W → ℕ → Handle → Outcome W → FatVolume W
put_outcome v a file o =
    put_file (record v { mount = o.after.mount }) a
      (record file { dentry = some (o.after.file.dentry) })

-- The message, if the buffer has room for it and for the zero behind it.
unfoldable pub log_message :
    {W : Type 0} → Libc W → W → (operation_type filepath : List ℕ) → Run (List ℕ)
log_message c w operation_type filepath = elim (c.getlogin w) [
  | none ↦ fault
  | some user ↦
      let text = c.now_text w ++ 9 ∷ user ++ 9 ∷ filepath ++ 9 ∷ operation_type ++ 10 ∷ [] in
      if ltb (length text) log_message_size then done text else fault
]

module _ (os : Os) (c : Libc os.World) (io_fuel fuel : ℕ) where
  -- The write of the message to the log at `log`, whose parent has been looked for.
  unfoldable pub write_log :
      (buf : List ℕ) → (log : ℕ) → Option ℕ × FatVolume os.World → Run (FatVolume os.World)
  unfolding put_outcome
  write_log buf log (parent, v) = file_at v log >>= λ file. as_file file >>= λ f.
      parent_start v parent >>= λ start.
      pwrite os io_fuel fuel f buf (length buf) f.dentry.file_size start v.mount >>= λ o.
      done (put_outcome v log file o)

  -- Without a log the pointer to it is followed all the same.
  unfoldable pub log_activity :
      (operation_type : List ℕ) → (target_file : ℕ) → FatVolume os.World → Run (FatVolume os.World)
  unfolding log_message write_log
  log_activity operation_type target_file v = file_at v target_file >>= λ file.
      log_message c v.mount.world operation_type file.filepath >>= λ buf.
      node_search v log_file >>= λ log. get_parent v log >>= λ found.
      elim (file_search v log_file) [ none ↦ fault | some a ↦ write_log buf a found ]
