-- ===== src/Fat/Fuse/Readdir.antt =====
-- lab4/esqueleto/fat_fuse_ops.c: listing a directory, the first time with the reading of its entries
-- and the making of the log. The function that FUSE hands over, `filler`, adds a name to its buffer
-- and says whether it could not. `fuel` bounds each loop, `io_fuel` the calls in it.
use operating_system_fa_maf.Common.{
  ℕ, Bool, true, false, not, none, some, List, [], ◌∷◌, leb, if◌then◌else◌, length, Run, done,
  fault, ◌>>=◌,
}
use operating_system_fa_maf.Common.Int.{ℤ, pos, neg_ℤ, is_zero}
use operating_system_fa_maf.Fat.Os.{Os}
use operating_system_fa_maf.Fat.Libc.{Libc}
use operating_system_fa_maf.Fat.Tree.{Sign, below, same, above}
use operating_system_fa_maf.Fat.PathOrder.{strcmp}
use operating_system_fa_maf.Fat.Directory.{Directory, Child}
use operating_system_fa_maf.Fat.Directory.Clusters.{fat_file_read_children}
use operating_system_fa_maf.Fat.Hierarchy.{flatten_h_children}
use operating_system_fa_maf.Fat.Handle.{Handle, fat_file_is_directory, fat_file_hide}
use operating_system_fa_maf.Fat.Fuse.{
  FatVolume, set_errno, node_search, file_at, put_file, get_parent, insert_file,
}
use operating_system_fa_maf.Fat.Fuse.Log.{log_file, log_activity}
use operating_system_fa_maf.Fat.Fuse.Lookup.{enotdir}
use operating_system_fa_maf.Fat.Fuse.Change.{mknod}

-- A child that was read, as a file.
unfoldable pub child_file : Child → Handle
child_file child = record {
  dentry = some (child.dentry);
  name = child.name;
  filepath = child.filepath;
  start_cluster = child.start_cluster;
  nentries = 0;
  pos_in_parent = child.pos_in_parent;
  num_times_opened = 0;
  children_read = false;
}

-- The `for` loop of `fat_fuse_read_children`.
unfoldable pub insert_children : {W : Type 0} → FatVolume W → ℕ → List Child → Run (FatVolume W)
unfolding child_file
insert_children v dir_node [] = done v
insert_children v dir_node (child ∷ later) =
    insert_file v dir_node (some (child_file child)) >>= λ v1. insert_children v1 dir_node later

abbrev pub word_init : List ℕ
word_init = b'I' ∷ b'N' ∷ b'I' ∷ b'T' ∷ []

abbrev pub is_same : Sign → Bool
is_same below = false
is_same same = true
is_same above = false

module _ (os : Os) (c : Libc os.World) (io_fuel fuel : ℕ) where
  -- The last lines of `fat_fuse_log_init`, for the log at `a`; `fat_file_hide` follows the parent.
  unfoldable pub hide_log : FatVolume os.World → (a : ℕ) → Run (FatVolume os.World)
  hide_log v a = node_search v log_file >>= λ log_node. get_parent v log_node >>= λ r. elim (r.0) [
    | none ↦ fault
    | some p ↦ file_at r.1 a >>= λ log. file_at r.1 p >>= λ parent.
        fat_file_hide os log parent r.1.mount >>= λ hidden.
        done (put_file (record (r.1) { mount = hidden.1 }) a hidden.0)
  ]

  -- Behind the call of `fat_fuse_mknod`; a log that is not in the tree then fails the assertion.
  unfoldable pub log_made : ℤ × FatVolume os.World → Run (FatVolume os.World)
  unfolding hide_log
  log_made (mknod_exit, v) =
      let go = node_search v log_file >>= λ log_node. elim log_node [
        | none ↦ fault
        | some a ↦ log_activity os c io_fuel fuel word_init a v >>= λ v1. hide_log v1 a
      ] in
      if is_zero mknod_exit then go else done v

  unfoldable pub log_init : FatVolume os.World → Run (FatVolume os.World)
  unfolding log_made
  log_init v = node_search v log_file >>= λ log_node. elim log_node [
    | none ↦ mknod os c v log_file >>= log_made
    | some a ↦ done v
  ]

  unfoldable pub read_children : FatVolume os.World → (dir_node : ℕ) → Run (FatVolume os.World)
  unfolding insert_children log_init
  read_children v dir_node = file_at v dir_node >>= λ file.
      let dir : Directory = record {
        filepath = file.filepath;
        nentries = file.nentries;
        children_read = file.children_read;
      } in
      fat_file_read_children os io_fuel fuel file.start_cluster dir v.mount >>= λ r.
      insert_children
        (put_file (record v { mount = r.2 }) dir_node
          (record file { nentries = r.0.nentries; children_read = r.0.children_read }))
        dir_node (r.1)
      >>= log_init

  module _ {B : Type 0} (filler : B → List ℕ → B × Bool) where
    -- The loop over the array of children; the log is left out.
    unfoldable pub fill_loop : FatVolume os.World → List ℕ → B → Run (ℤ × B × FatVolume os.World)
    fill_loop v [] buf = done (pos 0, buf, v)
    fill_loop v (child ∷ later) buf = file_at v child >>= λ file.
        let skipped = fill_loop v later buf in
        let (filled, full) = filler buf file.name in
        let next = fill_loop v later filled in
        if is_same (strcmp file.name (b'f' ∷ b's' ∷ b'.' ∷ b'l' ∷ b'o' ∷ b'g' ∷ []))
        then skipped
        else if full
        then done (neg_ℤ v.mount.errno, filled, v)
        else next

    -- The array has one place more than the directory counts entries, and its last place is for
    -- NULL. The tree at a node is never empty.
    unfoldable pub list_children :
        FatVolume os.World → (dir_node : ℕ) → B → Run (ℤ × B × FatVolume os.World)
    unfolding fill_loop
    list_children v dir_node buf = file_at v dir_node >>= λ dir.
        flatten_h_children fuel v.nodes dir_node >>= λ children.
        let filled = fill_loop v children buf in
        if leb (length children) dir.nentries then filled else fault

    unfoldable pub readdir : FatVolume os.World → (fh : ℕ) → B → Run (ℤ × B × FatVolume os.World)
    unfolding read_children list_children set_errno
    readdir v0 fh buf =
        let v = set_errno v0 0 in
        let (buf1, full1) = filler buf (b'.' ∷ []) in
        let (buf2, full2) = filler buf1 (b'.' ∷ b'.' ∷ []) in
        let listed = file_at v fh >>= λ dir.
        let fresh = read_children v fh >>= λ v1. list_children v1 fh buf2 in
        let known = list_children v fh buf2 in
        if not (fat_file_is_directory dir)
        then done (neg_ℤ enotdir, buf2, set_errno v enotdir)
        else if dir.children_read
        then known
        else fresh in
        if full1 then done (pos 0, buf1, v) else if full2 then done (pos 0, buf2, v) else listed
