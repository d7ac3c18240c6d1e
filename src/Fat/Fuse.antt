-- ===== src/Fat/Fuse.antt =====
-- lab4/esqueleto/fat_fuse_ops.c: the mounted volume, which every handler finds in the context of
-- FUSE, and what the handlers do to its tree of files. The nodes of that tree are in the search tree
-- (Fat.Tree) and, with their files and links, in a store (Fat.Hierarchy).
pub mod Log
pub mod Lookup
pub mod Io
pub mod Change
pub mod Readdir
pub mod Listing
pub mod Sample
mod Examples
pub mod Removal
pub mod Unlink
pub mod Counters
pub mod Taken
pub mod Creation
pub mod Create
use operating_system_fa_maf.Common.{
  ℕ, zero, suc, ◌+◌, Bool, Option, none, some, List, ◌==◌, if◌then◌else◌, Run, done, fault, ◌>>=◌,
}
use mathlib.Core.Option
use operating_system_fa_maf.Common.Int.{ℤ, neg_ℤ}
use operating_system_fa_maf.Fat.Table.{Mount}
use operating_system_fa_maf.Fat.Tree.{HTree, leaf, node, h_tree_get_data}
use operating_system_fa_maf.Fat.PathOrder.{FileRef, by_path}
use operating_system_fa_maf.Fat.FsTree.{
  FatTree, fat_tree_insert, fat_tree_search, fat_tree_node_search, fat_tree_delete,
}
use operating_system_fa_maf.Fat.Hierarchy.{
  HNode, Nodes, einval, node_at, set_node, h_tree_get_h_parent, iterate_h_ancestors, insert_linked,
  delete_linked,
}
use operating_system_fa_maf.Fat.File.{FatFile}
use operating_system_fa_maf.Fat.Handle.{
  Handle, with_entry, fat_file_inc_num_times_opened, fat_file_dec_num_times_opened,
}

-- `struct fat_volume_s` as far as the handlers use it; `next_addr` is where the next node will be.
pub record FatVolume (W : Type 0) : Type 0 where
  pub mount : Mount W
  pub file_tree : Option (FatTree by_path)
  pub nodes : Nodes Handle
  pub next_addr : ℕ

-- What a handler returns, a number and the volume; 0 stands for success, `-errno` for an error.
abbrev pub Reply : Type 0 → Type 0
Reply W = Run (ℤ × FatVolume W)

-- The part of a file that the operations of Fat.File work on.
unfoldable pub as_file : Handle → Run FatFile
as_file file = with_entry file λ d. record {
  dentry = d;
  start_cluster = file.start_cluster;
  pos_in_parent = file.pos_in_parent;
}

module _ {W : Type 0} where
  unfoldable pub set_errno : FatVolume W → ℕ → FatVolume W
  set_errno v e = record v { mount = record (v.mount) { errno = e } }

  -- `return -errno`.
  unfoldable pub return_errno : FatVolume W → Reply W
  return_errno v = done (neg_ℤ v.mount.errno, v)

  -- `errno = e; return -errno`.
  unfoldable pub fail : FatVolume W → ℕ → Reply W
  unfolding set_errno
  fail v e = done (neg_ℤ e, set_errno v e)

  -- The address of the node that a path leads to; NULL has no tree to search.
  unfoldable pub node_search : FatVolume W → (path : List ℕ) → Run (Option ℕ)
  node_search v path = elim (v.file_tree) [
    | none ↦ fault
    | some tree ↦ done (
        Option.map (λ (file : FileRef). file.addr)
          (h_tree_get_data (fat_tree_node_search by_path tree (some path))))
  ]

  -- The same by `fat_tree_search`, which looks at the tree first.
  unfoldable pub file_search : FatVolume W → (path : List ℕ) → Option ℕ
  file_search v path =
      Option.map (λ (file : FileRef). file.addr) (fat_tree_search by_path v.file_tree (some path))

  unfoldable pub file_at : FatVolume W → ℕ → Run Handle
  unfolding node_at
  file_at v a = node_at v.nodes a >>= λ n. done n.content

  -- A file after its members have changed.
  unfoldable pub put_file : FatVolume W → ℕ → Handle → FatVolume W
  unfolding set_node
  put_file v a file = record v {
    nodes =
        set_node v.nodes a
          (Option.map (λ (n : HNode Handle). record n { content = file }) (v.nodes a));
  }

  -- `fat_tree_get_parent`: the file of the parent, by its address. Without a parent errno is set.
  unfoldable pub get_parent : FatVolume W → Option ℕ → Run (Option ℕ × FatVolume W)
  unfolding h_tree_get_h_parent set_errno node_at
  get_parent v a = h_tree_get_h_parent v.nodes a >>= λ p. elim p [
    | none ↦ done (none, set_errno v einval)
    | some b ↦ node_at v.nodes b >>= λ n. done (some b, v)
  ]

  -- The start cluster of a parent that an operation is handed. The operations that are handed NULL
  -- read it only if errno is 0.
  unfoldable pub parent_start : FatVolume W → Option ℕ → Run ℕ
  unfolding file_at
  parent_start v none = if v.mount.errno == 0 then fault else done 0
  parent_start v (some p) = file_at v p >>= λ parent. done parent.start_cluster

  -- `fat_tree_inc_num_times_opened` and `fat_tree_dec_num_times_opened`.
  unfoldable pub inc_num_times_opened : (fuel : ℕ) → FatVolume W → ℕ → Run (FatVolume W)
  inc_num_times_opened fuel v a =
      iterate_h_ancestors fuel fat_file_inc_num_times_opened v.nodes (some a) >>= λ nodes.
      done (record v { nodes = nodes })

  unfoldable pub dec_num_times_opened : (fuel : ℕ) → FatVolume W → ℕ → Run (FatVolume W)
  dec_num_times_opened fuel v a =
      iterate_h_ancestors fuel fat_file_dec_num_times_opened v.nodes (some a) >>= λ nodes.
      done (record v { nodes = nodes })

  -- `vol->file_tree = fat_tree_insert(vol->file_tree, parent_node, new_file)`.
  unfoldable pub insert_file : FatVolume W → (parent_node : ℕ) → Option Handle → Run (FatVolume W)
  unfolding set_errno
  insert_file v p none = done (record (set_errno v einval) { file_tree = none })
  insert_file v p (some file) =
      let ref : FileRef = record { addr = v.next_addr; filepath = file.filepath } in
      elim (v.file_tree) [
        | none ↦ done (set_errno v einval)
        | some tree ↦
            insert_linked by_path (λ r. r.addr) tree.file_tree ref file (some p) v.nodes
            >>= λ nodes. done (record v {
              file_tree = fat_tree_insert by_path (some tree) (some ref);
              nodes = nodes;
              next_addr = v.next_addr + 1;
            })
      ]

  -- `vol->file_tree = fat_tree_delete(vol->file_tree, path)`.
  unfoldable pub delete_file : (fuel : ℕ) → FatVolume W → (path : List ℕ) → Run (FatVolume W)
  unfolding set_errno
  delete_file fuel v path = elim (v.file_tree) [
    | none ↦ done (set_errno v einval)
    | some tree ↦
        delete_linked by_path (λ r. r.addr) fuel tree.file_tree path v.mount.errno v.nodes
        >>= λ links. fat_tree_delete by_path (some tree) (some path) >>= λ t.
            done (record (set_errno v links.1) { file_tree = t; nodes = links.0 })
  ]
