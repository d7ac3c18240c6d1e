-- ===== src/Fat/Fuse/Change.antt =====
-- lab4/esqueleto/fat_fuse_ops.c: making, removing, shortening and dating files. `fuel` bounds each
-- loop: over the clusters of a file, the children of a directory and the way to the root.
use operating_system_fa_maf.Common.{
  ℕ, Bool, true, false, not, Option, none, some, List, ◌==◌, ltb, if◌then◌else◌, Run, done, fault,
  ◌>>=◌,
}
use operating_system_fa_maf.Common.Int.{pos, neg_ℤ}
use operating_system_fa_maf.Fat.Os.{Os, Tm}
use operating_system_fa_maf.Fat.Libc.{Libc}
use operating_system_fa_maf.Fat.Table.{Mount}
use operating_system_fa_maf.Fat.File.{truncate, remove}
use operating_system_fa_maf.Fat.Handle.{
  Handle, fat_file_init, fat_file_is_directory, fat_utime, fat_file_dentry_add_child,
}
use operating_system_fa_maf.Fat.Fuse.{
  FatVolume, Reply, set_errno, return_errno, fail, node_search, file_at, put_file, get_parent,
  parent_start, as_file, inc_num_times_opened, insert_file, delete_file,
}
use operating_system_fa_maf.Fat.Fuse.Lookup.{enoent, eisdir, enotdir}

abbrev pub enotempty : ℕ
enotempty = 39

module _ (os : Os) (c : Libc os.World) where
  -- The child is the one that was inserted, at `a`; a child that is NULL has no entry to follow.
  unfoldable pub add_child :
      FatVolume os.World → (parent_node a : ℕ) → Option Handle → Reply os.World
  add_child v p a none = fault
  add_child v p a (some child) = file_at v p >>= λ parent.
      fat_file_dentry_add_child os parent child v.mount >>= λ r.
      return_errno (put_file (put_file (record v { mount = r.2 }) p r.0) a r.1)

  -- `mkdir` asks whether there was an error, `mknod` whether errno is negative, which it never is.
  unfoldable pub insert_new :
      (checked : Bool) → FatVolume os.World → (parent_node : ℕ) → Option Handle → Reply os.World
  unfolding add_child
  insert_new checked v p new_file =
      let go = insert_file v p new_file >>= λ v1. add_child v1 p v.next_addr new_file in
      if v.mount.errno == 0 then go else if checked then return_errno v else go

  -- `fat_fuse_mkdir` and `fat_fuse_mknod`, behind `errno = 0`.
  unfoldable pub make : (is_dir : Bool) → FatVolume os.World → (path : List ℕ) → Reply os.World
  unfolding insert_new
  make is_dir v path = node_search v (c.dirname path) >>= λ parent_node. elim parent_node [
    | none ↦ fail v enoent
    | some p ↦ file_at v p >>= λ parent.
        let made = fat_file_init os c is_dir path v.mount >>= λ r.
        insert_new is_dir (record v { mount = r.1 }) p r.0 in
        if fat_file_is_directory parent then made else fail v enotdir
  ]

  unfoldable pub mkdir : FatVolume os.World → (path : List ℕ) → Reply os.World
  unfolding make set_errno
  mkdir v path = make true (set_errno v 0) path

  unfoldable pub mknod : FatVolume os.World → (path : List ℕ) → Reply os.World
  unfolding make set_errno
  mknod v path = make false (set_errno v 0) path

module _ (os : Os) (fuel : ℕ) where
  -- `fat_file_remove`, which looks at the entry and at the parent only where errno is 0.
  unfoldable pub remove_file :
      FatVolume os.World → Handle → (parent : Option ℕ) → Run (Mount os.World)
  remove_file v file parent =
      let removed =
        as_file file >>= λ f. parent_start v parent >>= λ start. remove os fuel f start v.mount in
      if v.mount.errno == 0 then removed else done v.mount

  -- The last lines of `fat_fuse_rmdir` and `fat_fuse_unlink`.
  unfoldable pub remove_node :
      FatVolume os.World → (path : List ℕ) → Handle → (parent : Option ℕ) → Reply os.World
  unfolding remove_file
  remove_node v path file parent = remove_file v file parent >>= λ s.
      delete_file fuel (record v { mount = s }) path >>= λ v1. done (pos 0, v1)

  unfoldable pub unlink : FatVolume os.World → (path : List ℕ) → Reply os.World
  unfolding remove_node set_errno
  unlink v0 path =
      let v = set_errno v0 0 in
      node_search v path >>= λ file_node. elim file_node [
        | none ↦ fail v enoent
        | some a ↦ file_at v a >>= λ file. get_parent v (some a) >>= λ r.
            let removed = remove_node r.1 path file r.0 in
            if fat_file_is_directory file then fail r.1 eisdir else removed
      ]

  unfoldable pub rmdir : FatVolume os.World → (path : List ℕ) → Reply os.World
  unfolding remove_node set_errno
  rmdir v0 path =
      let v = set_errno v0 0 in
      node_search v path >>= λ dir_node. elim dir_node [
        | none ↦ fail v enoent
        | some a ↦ file_at v a >>= λ dir. get_parent v (some a) >>= λ r.
            let removed = remove_node r.1 path dir r.0 in
            if not (fat_file_is_directory dir)
            then fail r.1 enotdir
            else if ltb 2 dir.nentries
            then fail r.1 enotempty
            else removed
      ]

  -- `accessed` and `modified` are the two times of the buffer, broken down.
  unfoldable pub utime :
      FatVolume os.World → (path : List ℕ) → (accessed modified : Tm) → Reply os.World
  unfolding set_errno
  utime v0 path accessed modified =
      let v = set_errno v0 0 in
      node_search v path >>= λ file_node. elim file_node [
        | none ↦ fail v enoent
        | some a ↦ get_parent v (some a) >>= λ r. elim (r.0) [
          | none ↦ done (pos 0, r.1)
          | some p ↦ file_at r.1 a >>= λ file. file_at r.1 p >>= λ parent.
              fat_utime os accessed modified file parent r.1.mount >>= λ u.
              return_errno (put_file (record (r.1) { mount = u.1 }) a u.0)
        ]
      ]

  -- The file is read again behind the counting, which alters it.
  unfoldable pub truncate_at :
      FatVolume os.World → (a : ℕ) → (offset : ℕ) → (parent : Option ℕ) → Reply os.World
  truncate_at v a offset parent = inc_num_times_opened fuel v a >>= λ v1. file_at v1 a >>= λ file.
      as_file file >>= λ f. parent_start v1 parent >>= λ start.
      truncate os fuel f offset start v1.mount >>= λ r.
      return_errno
        (put_file (record v1 { mount = r.mount }) a (record file { dentry = some (r.file.dentry) }))

  unfoldable pub fuse_truncate :
      FatVolume os.World → (path : List ℕ) → (offset : ℕ) → Reply os.World
  unfolding truncate_at set_errno
  fuse_truncate v0 path offset =
      let v = set_errno v0 0 in
      node_search v path >>= λ file_node. elim file_node [
        | none ↦ fail v enoent
        | some a ↦ file_at v a >>= λ file.
            let cut = get_parent v (some a) >>= λ r. truncate_at r.1 a offset r.0 in
            if fat_file_is_directory file then done (neg_ℤ eisdir, v) else cut
      ]
