-- ===== src/Fat/Fuse/Removal.antt =====
-- A file is taken out of the tree and out of its parent's children, and its clusters are freed.
use operating_system_fa_maf.Common.{
  ℕ, ◌<◌, ◌≡◌, refl, ap, ◌∙◌, inl, inr, true, false, Option, none, some, List, ◌∷◌, ◌++◌, ◌==◌,
  length, arith, eq→==, done, ◌>>=◌,
}
use operating_system_fa_maf.Common.Int.{pos}
use operating_system_fa_maf.Fat.Os.{Os}
use operating_system_fa_maf.Fat.Io.Complete.{Writes}
use operating_system_fa_maf.Fat.Table.{FatTable, Mount, cluster_free}
use operating_system_fa_maf.Fat.Table.Chain.{has, Chain, IsFat32}
use operating_system_fa_maf.Fat.Tree.{
  below, same, above, Order, HTree, leaf, node, find, h_tree_search,
}
use operating_system_fa_maf.Fat.Tree.Search.{Sign-cases}
use operating_system_fa_maf.Fat.Tree.Delete.{h_tree_delete}
use operating_system_fa_maf.Fat.Tree.Delete.Removal.{Removable, Without, delete-Without, find_at}
use operating_system_fa_maf.Fat.PathOrder.{FileRef, by_path}
use operating_system_fa_maf.Fat.FsTree.{FatTree, fat_tree_delete}
use operating_system_fa_maf.Fat.Hierarchy.{
  HNode, Nodes, node_at, set_node, remove_child_from_h, delete_linked,
}
use operating_system_fa_maf.Fat.Hierarchy.Siblings.{
  Siblings, Siblings-set_other, set_node_self, set_node_other,
}
use operating_system_fa_maf.Fat.Hierarchy.Unlink.{
  remove_child_from_h_lem, has-ne, Siblings-distinct,
}
use operating_system_fa_maf.Fat.Dentry.{Dentry}
use operating_system_fa_maf.Fat.File.{FatFile}
use operating_system_fa_maf.Fat.File.Remove.{remove_frees}
use operating_system_fa_maf.Fat.Handle.{Handle}
use operating_system_fa_maf.Fat.Fuse.{
  FatVolume, Reply, set_errno, file_at, parent_start, as_file, delete_file,
}
use operating_system_fa_maf.Fat.Fuse.Change.{remove_node, remove_file}

module _ (o : Order) (addr : o.Data → ℕ) {A : Type 0} where
  -- The links change as the node that a search finds is taken out of them.
  delete_linked_lem :
      (fuel : ℕ) (t : HTree o.Data) (k : o.Key) (errno : ℕ) (nodes : Nodes A) (a : o.Data) (n : ℕ)
      (l r : HTree o.Data)
      → find o t k ≡ node a n l r
      → delete_linked o addr fuel t k errno nodes ≡ (
          remove_child_from_h fuel nodes (addr a) errno >>= λ result.
          done (set_node result.0 (addr a) none, result.1))
  unfolding delete_linked find
  delete_linked_lem fuel leaf k errno nodes a n l r found = absurd (cc found)
  delete_linked_lem fuel (node b m l2 r2) k errno nodes a n l r found =
      let seen = find_at o b m l2 r2 (node a n l r) k in
      elim (Sign-cases (o.cmp_key b k)) [
        | inl e ↦ rw e (delete_linked_lem fuel r2 k errno nodes a n l r (seen below found e))
        | inr (inl e) ↦
            let whole : node b m l2 r2 ≡ node a n l r = seen same found e in
            let there : b ≡ a = cc whole in
            rw e (
              ap
                (λ x. remove_child_from_h fuel nodes (addr x) errno >>= λ result.
                  done (set_node result.0 (addr x) none, result.1))
                there)
        | inr (inr e) ↦ rw e (delete_linked_lem fuel l2 k errno nodes a n l r (seen above found e))
      ]

-- A file on a path: its place in the tree and among the children of its parent.
pub record FileAt (nodes : Nodes Handle) (file_tree : Option (FatTree by_path)) (path : List ℕ)
    : Type 0 where
  pub tree : FatTree by_path
  pub ref : FileRef
  pub size : ℕ
  pub left : HTree FileRef
  pub right : HTree FileRef
  pub child : HNode Handle
  pub p : ℕ
  pub parent : HNode Handle
  pub pre : List ℕ
  pub post : List ℕ
  pub in_tree : file_tree ≡ some tree
  pub found : h_tree_search by_path tree.file_tree (some path) ≡ node ref size left right
  pub here : nodes (ref.addr) ≡ some child
  pub up : child.h_parent ≡ some p
  pub there : nodes p ≡ some parent
  pub siblings : Siblings nodes parent.h_children (pre ++ ref.addr ∷ post)
  pub apart : has p (pre ++ ref.addr ∷ post) ≡ false

-- The volume without the file: one element less in the tree, one child less under the parent.
pub record IsWithout {W : Type 0} (nodes : Nodes Handle) (file_tree : Option (FatTree by_path))
    (path : List ℕ) (h : FileAt nodes file_tree path) (v' : FatVolume W) : Type 0 where
  pub tree_after : FatTree by_path
  pub in_tree : v'.file_tree ≡ some tree_after
  pub taken_out : Without h.ref h.tree.file_tree tree_after.file_tree
  pub node_freed : v'.nodes (h.ref.addr) ≡ none
  pub parent_after : HNode Handle
  pub there : v'.nodes h.p ≡ some parent_after
  pub siblings : Siblings v'.nodes parent_after.h_children (h.pre ++ h.post)
  pub others :
      (b : ℕ)
      → (b == h.p) ≡ false
      → (b == h.ref.addr) ≡ false
      → has b (h.pre ++ h.post) ≡ false
      → v'.nodes b ≡ nodes b

-- The clusters are free, and the other words of the table are as they were.
abbrev pub Freed : FatTable → FatTable → List ℕ → Type 0
Freed t t' cs =
    ((i : ℕ) → has i cs ≡ true → t'.fat_map i ≡ cluster_free)
    × ((i : ℕ) → has i cs ≡ false → t'.fat_map i ≡ t.fat_map i)

module _ {W : Type 0} where
  delete_file-IsWithout :
      (fuel : ℕ) (v : FatVolume W) (s : Mount W) (path : List ℕ)
      (h : FileAt v.nodes v.file_tree path)
      → Removable (node h.ref h.size h.left h.right)
      → length h.pre < fuel
      → (v' : FatVolume W) × (delete_file fuel (record v { mount = s }) path ≡ done v')
        × (v'.mount ≡ s)
        × IsWithout v.nodes v.file_tree path h v'
  unfolding delete_file fat_tree_delete h_tree_delete h_tree_search set_errno
  delete_file-IsWithout fuel v s path h removable enough =
      let a = h.ref.addr in
      let (nodes1, run, unlinked) =
        remove_child_from_h_lem fuel v.nodes a h.p s.errno h.child h.parent h.pre h.post h.here h.up
          h.there h.siblings h.apart enough in
      let links =
        delete_linked_lem by_path (λ r. r.addr) fuel h.tree.file_tree path s.errno v.nodes h.ref
          h.size h.left h.right h.found in
      let (t, deleted, without) =
        delete-Without by_path h.tree.file_tree path h.ref h.size h.left h.right h.found
          removable in
      let v' : FatVolume W = record {
        mount = s;
        file_tree = some (record { file_tree = t });
        nodes = set_node nodes1 a none;
        next_addr = v.next_addr;
      } in
      let away : (h.p == a) ≡ false = let e = has-ne h.p a h.pre h.post h.apart in ground arith in
      let ran : delete_file fuel (record v { mount = s }) path ≡ done v' =
        rw (h.in_tree, links, run, deleted) refl in
      (
        v',
        ran,
        refl,
        record {
          tree_after = record { file_tree = t };
          in_tree = refl;
          taken_out = without;
          node_freed = rw (set_node_self nodes1 a none) refl;
          parent_after = unlinked.after;
          there = set_node_other nodes1 a h.p none away ∙ unlinked.at_parent;
          siblings =
              Siblings-set_other nodes1 a none unlinked.after.h_children (h.pre ++ h.post)
                (Siblings-distinct v.nodes h.parent.h_children a h.pre h.post h.siblings)
                unlinked.children;
          others = λ b off_parent off off_siblings.
              set_node_other nodes1 a b none off ∙ unlinked.others b off_parent off_siblings;
        },
      )

module _ (os : Os) (fuel : ℕ) where
  pub remove_node_lem :
      (v : FatVolume os.World) (path : List ℕ) (h : FileAt v.nodes v.file_tree path) (d : Dentry)
      (cs : List ℕ)
      → Writes os
      → IsFat32 v.mount.table
      → v.mount.errno ≡ 0
      → h.child.content.dentry ≡ some d
      → Chain v.mount.table h.child.content.start_cluster cs
      → Removable (node h.ref h.size h.left h.right)
      → length cs < fuel
      → length h.pre < fuel
      → (v' : FatVolume os.World) × (remove_node os fuel v path h.child.content (some h.p)
          ≡ done (pos 0, v'))
        × Freed v.mount.table v'.mount.table cs
        × IsWithout v.nodes v.file_tree path h v'
  unfolding remove_node remove_file as_file parent_start file_at node_at
  remove_node_lem v path h d cs writes fat calm entry chain removable enough enough_links =
      let f : FatFile = record {
        dentry = d;
        start_cluster = h.child.content.start_cluster;
        pos_in_parent = h.child.content.pos_in_parent;
      } in
      let (s1, s', run, e, freed, kept) =
        remove_frees os fuel f h.parent.content.start_cluster v.mount cs writes fat chain calm
          enough in
      let (v', deleted, mounted, without) =
        delete_file-IsWithout fuel v s' path h removable enough_links in
      let quiet : (v.mount.errno == 0) ≡ true = eq→== v.mount.errno 0 calm in
      let removed : remove_file os fuel v h.child.content (some h.p) ≡ done s' =
        rw (quiet, entry, h.there) run in
      let finish : Mount os.World → Reply os.World =
        λ s. delete_file fuel (record v { mount = s }) path >>= λ v1. done (pos 0, v1) in
      let whole : remove_node os fuel v path h.child.content (some h.p) ≡ done (pos 0, v') =
        ap (λ m. m >>= finish) removed ∙ ap (λ m. m >>= λ v1. done (pos 0, v1)) deleted in
      let same = ap (λ (m : Mount os.World). m.table.fat_map) mounted in
      (
        v',
        whole,
        ((λ i on. ap (λ m. m i) same ∙ freed i on), λ i off. ap (λ m. m i) same ∙ kept i off),
        without,
      )
