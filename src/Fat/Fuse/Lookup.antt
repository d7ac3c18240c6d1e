-- ===== src/Fat/Fuse/Lookup.antt =====
-- lab4/esqueleto/fat_fuse_ops.c: attributes, opening and closing. `fh`, the member of
-- `struct fuse_file_info` that holds the node, is an address, and `none` where it is not set. `fuel`
-- bounds the walk to the root.
use operating_system_fa_maf.Common.{
  ℕ, Bool, not, Option, none, some, List, if◌then◌else◌, Run, done, ◌>>=◌,
}
use operating_system_fa_maf.Common.Int.{ℤ, pos, neg_ℤ}
use operating_system_fa_maf.Fat.Libc.{Libc}
use operating_system_fa_maf.Fat.Handle.{Stat, fat_file_to_stbuf, fat_file_is_directory}
use operating_system_fa_maf.Fat.Fuse.{
  FatVolume, Reply, set_errno, node_search, file_search, file_at, inc_num_times_opened,
  dec_num_times_opened,
}

abbrev pub enoent : ℕ
enoent = 2

abbrev pub eisdir : ℕ
eisdir = 21

abbrev pub enotdir : ℕ
enotdir = 20

module _ {W : Type 0} where
  unfoldable pub fgetattr : Libc W → FatVolume W → (fh : ℕ) → Run (ℤ × Stat)
  fgetattr c v fh = file_at v fh >>= λ file.
      fat_file_to_stbuf c v.mount.table file >>= λ stbuf. done (pos 0, stbuf)

  unfoldable pub getattr :
      Libc W → FatVolume W → (path : List ℕ) → Run (ℤ × Option Stat × FatVolume W)
  getattr c v path = elim (file_search v path) [
    | none ↦ done (neg_ℤ enoent, none, set_errno v enoent)
    | some a ↦ file_at v a >>= λ file.
        fat_file_to_stbuf c v.mount.table file >>= λ stbuf. done (pos 0, some stbuf, v)
  ]

  -- What is returned with `fh` where the file at `a` is one to be opened, and else.
  unfoldable pub open_node :
      (fuel : ℕ)
      → FatVolume W
      → (a : ℕ) → (refused : Bool) → (error : ℕ) → Run (ℤ × Option ℕ × FatVolume W)
  open_node fuel v a refused error =
      let opened = inc_num_times_opened fuel v a >>= λ v1. done (pos 0, some a, v1) in
      if refused then done (neg_ℤ error, none, v) else opened

  unfoldable pub fuse_open :
      (fuel : ℕ) → FatVolume W → (path : List ℕ) → Run (ℤ × Option ℕ × FatVolume W)
  unfolding open_node
  fuse_open fuel v path = node_search v path >>= λ file_node. elim file_node [
    | none ↦ done (neg_ℤ v.mount.errno, none, v)
    | some a ↦ file_at v a >>= λ file. open_node fuel v a (fat_file_is_directory file) eisdir
  ]

  unfoldable pub fuse_opendir :
      (fuel : ℕ) → FatVolume W → (path : List ℕ) → Run (ℤ × Option ℕ × FatVolume W)
  unfolding open_node
  fuse_opendir fuel v path = node_search v path >>= λ file_node. elim file_node [
    | none ↦ done (neg_ℤ v.mount.errno, none, v)
    | some a ↦ file_at v a >>= λ file. open_node fuel v a (not (fat_file_is_directory file)) enotdir
  ]

  unfoldable pub release : (fuel : ℕ) → FatVolume W → (fh : ℕ) → Reply W
  release fuel v fh = dec_num_times_opened fuel v fh >>= λ v1. done (pos 0, v1)
