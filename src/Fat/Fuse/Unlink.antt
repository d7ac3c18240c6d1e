-- ===== src/Fat/Fuse/Unlink.antt =====
-- What `fat_fuse_unlink` and `fat_fuse_rmdir` do to the table, the tree and the links.
use operating_system_fa_maf.Common.{
  ℕ, ◌<◌, ◌≡◌, refl, ◌∙◌, true, false, some, List, ◌++◌, ◌==◌, length, ltb, done, fault,
}
use operating_system_fa_maf.Common.Int.{pos}
use operating_system_fa_maf.Fat.Os.{Os}
use operating_system_fa_maf.Fat.Io.Complete.{Writes}
use operating_system_fa_maf.Fat.Table.Chain.{has, Chain, IsFat32}
use operating_system_fa_maf.Fat.Tree.{node, h_tree_get_data}
use operating_system_fa_maf.Fat.Tree.Delete.Removal.{Removable}
use operating_system_fa_maf.Fat.FsTree.{fat_tree_node_search}
use operating_system_fa_maf.Fat.Hierarchy.{HNode, node_at, h_tree_get_h_parent}
use operating_system_fa_maf.Fat.Dentry.{Dentry}
use operating_system_fa_maf.Fat.Handle.{Handle, fat_file_is_directory}
use operating_system_fa_maf.Fat.Fuse.{FatVolume, set_errno, node_search, file_at, get_parent}
use operating_system_fa_maf.Fat.Fuse.Change.{unlink, rmdir}
use operating_system_fa_maf.Fat.Fuse.Removal.{FileAt, IsWithout, Freed, remove_node_lem}

module _ (os : Os) (fuel : ℕ) where
  -- On a volume with a FAT32 table whose writes make progress, where a path leads to a file that is
  -- not a directory and has a chain of clusters and a place among the children of its parent, its
  -- node in the search tree being one that can be taken out, and with more fuel than clusters and
  -- siblings, unlink returns 0: every cluster of the file is free and the other words of the table are
  -- as they were, exactly that file is taken out of the tree and of its parent's children, and its
  -- node is freed.
  pub unlink_lem :
      (v : FatVolume os.World) (path : List ℕ) (h : FileAt v.nodes v.file_tree path) (d : Dentry)
      (cs : List ℕ)
      → Writes os
      → IsFat32 v.mount.table
      → h.child.content.dentry ≡ some d
      → fat_file_is_directory h.child.content ≡ false
      → Chain v.mount.table h.child.content.start_cluster cs
      → Removable (node h.ref h.size h.left h.right)
      → length cs < fuel
      → length h.pre < fuel
      → (v' : FatVolume os.World) × (unlink os fuel v path ≡ done (pos 0, v'))
        × Freed v.mount.table v'.mount.table cs
        × IsWithout v.nodes v.file_tree path h v'
  unfolding unlink set_errno node_search file_at get_parent h_tree_get_h_parent node_at
      fat_tree_node_search h_tree_get_data
  unlink_lem v path h d cs writes fat entry plain chain removable enough enough_links =
      let (v', ran, freed, after) =
        remove_node_lem os fuel (set_errno v 0) path h d cs writes fat refl entry chain removable
          enough enough_links in
      let whole : unlink os fuel v path ≡ done (pos 0, v') =
        rw (h.in_tree, h.found, h.here, h.up, h.there, plain) ran in
      (v', whole, freed, after)

  -- On a volume as for unlink, where a path leads to a directory that counts at most two entries,
  -- rmdir returns 0 and takes the directory away, whatever is in it: a child of the directory, no
  -- sibling of it, keeps its node, and to ask for the parent of that child follows a freed node.
  pub rmdir_orphans :
      (v : FatVolume os.World) (path : List ℕ) (h : FileAt v.nodes v.file_tree path) (d : Dentry)
      (cs : List ℕ) (x : ℕ) (n : HNode Handle)
      → Writes os
      → IsFat32 v.mount.table
      → h.child.content.dentry ≡ some d
      → fat_file_is_directory h.child.content ≡ true
      → ltb 2 h.child.content.nentries ≡ false
      → Chain v.mount.table h.child.content.start_cluster cs
      → Removable (node h.ref h.size h.left h.right)
      → length cs < fuel
      → length h.pre < fuel
      → v.nodes x ≡ some n
      → n.h_parent ≡ some (h.ref.addr)
      → (x == h.p) ≡ false
      → (x == h.ref.addr) ≡ false
      → has x (h.pre ++ h.post) ≡ false
      → (v' : FatVolume os.World) × (rmdir os fuel v path ≡ done (pos 0, v'))
        × Freed v.mount.table v'.mount.table cs
        × IsWithout v.nodes v.file_tree path h v'
        × (v'.nodes x ≡ some n)
        × (get_parent v' (some x) ≡ fault)
  unfolding rmdir set_errno node_search file_at get_parent h_tree_get_h_parent node_at
      fat_tree_node_search h_tree_get_data
  rmdir_orphans v path h d cs x n writes fat entry dir few chain removable enough enough_links at up
        off_parent off off_siblings =
      let (v', ran, freed, after) =
        remove_node_lem os fuel (set_errno v 0) path h d cs writes fat refl entry chain removable
          enough enough_links in
      let whole : rmdir os fuel v path ≡ done (pos 0, v') =
        rw (h.in_tree, h.found, h.here, h.up, h.there, dir, few) ran in
      let kept = after.others x off_parent off off_siblings ∙ at in
      let lost : get_parent v' (some x) ≡ fault = rw (kept, up, after.node_freed) refl in
      (v', whole, freed, after, kept, lost)
