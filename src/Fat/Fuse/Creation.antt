-- ===== src/Fat/Fuse/Creation.antt =====
-- A file is made, its node linked into the tree, and its entry written.
use operating_system_fa_maf.Common.{
  ℕ, ◌+◌, ◌%◌, ◌^◌, ◌≡◌, refl, sym, ap, subst, ◌∙◌, inl, inr, Bool, true, false, Option, none, some,
  List, ◌∷◌, ◌==◌, leb, arith, eq→==, done,
}
use mathlib.Core.Option
use operating_system_fa_maf.Common.Int.{pos}
use operating_system_fa_maf.Fat.Os.{Os}
use operating_system_fa_maf.Fat.Libc.{Libc}
use operating_system_fa_maf.Fat.Table.{
  Mount, end_of_chain, get_next_free_cluster, is_cluster_used, set_next_cluster,
}
use operating_system_fa_maf.Fat.Table.Chain.{has}
use operating_system_fa_maf.Fat.Tree.{
  below, same, above, opposite, Order, HTree, leaf, node, h_tree_get_data, h_tree_search, find,
}
use operating_system_fa_maf.Fat.Tree.Search.{Sign-cases, or_new}
use operating_system_fa_maf.Fat.Tree.Delete.Removal.{find_at}
use operating_system_fa_maf.Fat.PathOrder.{FileRef, by_path}
use operating_system_fa_maf.Fat.FsTree.{FatTree, fat_tree_insert, fat_tree_search}
use operating_system_fa_maf.Fat.FsTree.Lookup.{fat_tree_search-eq, fat_tree_search-fat_tree_insert}
use operating_system_fa_maf.Fat.Hierarchy.{
  HNode, Nodes, node_at, set_node, h_node_init, insert_linked,
}
use operating_system_fa_maf.Fat.Hierarchy.Siblings.{
  Siblings, IsLinked, h_node_init_lem, Siblings-set_same, set_node_self, set_node_other,
}
use operating_system_fa_maf.Fat.Dentry.{Dentry, file_start_cluster, write_dir_entry}
use operating_system_fa_maf.Fat.Filename.{build_filename}
use operating_system_fa_maf.Fat.Handle.{
  Handle, fat_file_init_direntry, fat_file_init_empty, take_cluster, init_at, fat_file_init,
  fat_file_is_directory, fat_file_dentry_add_child,
}
use operating_system_fa_maf.Fat.Fuse.{
  FatVolume, return_errno, file_search, file_at, put_file, insert_file,
}
use operating_system_fa_maf.Fat.Fuse.Change.{add_child}

-- A file can be made: a cluster is free, the name can be read, and the table can be written.
pub record CanInit (os : Os) (c : Libc os.World) (is_dir : Bool) (path : List ℕ)
    (s : Mount os.World) : Type 0 where
  pub start : ℕ
  pub d : Dentry
  pub free : get_next_free_cluster s.table ≡ some start
  pub mapped : leb s.table.fat_entries start ≡ false
  pub unused : is_cluster_used s.table start ≡ false
  pub named : fat_file_init_direntry c (os.gmtime_now s.world) is_dir path start ≡ done d
  pub taken : (set_next_cluster os s start end_of_chain).errno ≡ 0

-- The file that is made then.
abbrev pub made : List ℕ → Dentry → Handle
made path d = record {
  dentry = some d;
  name = build_filename d.base_name d.extension;
  filepath = path;
  start_cluster = file_start_cluster d;
  nentries = 0;
  pos_in_parent = 0;
  num_times_opened = 0;
  children_read = false;
}

pub fat_file_init_lem :
    (os : Os) (c : Libc os.World) (is_dir : Bool) (path : List ℕ) (s : Mount os.World)
    (h : CanInit os c is_dir path s)
    → fat_file_init os c is_dir path s
      ≡ done (some (made path h.d), set_next_cluster os s h.start end_of_chain)
unfolding fat_file_init init_at take_cluster fat_file_init_empty
fat_file_init_lem os c is_dir path s h =
    let quiet : ((set_next_cluster os s h.start end_of_chain).errno == 0) ≡ true =
      eq→== _ 0 h.taken in
    rw (fat_file_init, h.free, h.mapped, h.unused, h.named, quiet) refl

module _ (o : Order) (addr : o.Data → ℕ) {A : Type 0} where
  -- Where no search finds the key of an element, its insertion makes a node for it.
  insert_linked_lem :
      (t : HTree o.Data) (x : o.Data) (file : A) (p : Option ℕ) (nodes : Nodes A)
      → find o t (o.key x) ≡ leaf
      → insert_linked o addr t x file p nodes ≡ h_node_init nodes (addr x) file p
  unfolding insert_linked find
  insert_linked_lem leaf x file p nodes absent = refl
  insert_linked_lem (node b m l r) x file p nodes absent =
      let seen = find_at o b m l r leaf (o.key x) in
      elim (Sign-cases (o.cmp x b)) [
        | inl e ↦
            let f : o.cmp_key b (o.key x) ≡ above = o.cmp_key-key b x ∙ ap opposite e in
            rw e (insert_linked_lem l x file p nodes (seen above absent f))
        | inr (inl e) ↦
            let f : o.cmp_key b (o.key x) ≡ same = o.cmp_key-key b x ∙ ap opposite e in
            absurd (cc (seen same absent f))
        | inr (inr e) ↦
            let f : o.cmp_key b (o.key x) ≡ below = o.cmp_key-key b x ∙ ap opposite e in
            rw e (insert_linked_lem r x file p nodes (seen below absent f))
      ]

-- A directory that a path leads to, with its children, and a free address for one more.
pub record IsParent {W : Type 0} (v : FatVolume W) (tree : FatTree by_path) (path : List ℕ) (p : ℕ)
    (parent : HNode Handle) (cs : List ℕ) : Type 0 where
  pub in_tree : v.file_tree ≡ some tree
  pub new_path : h_tree_search by_path tree.file_tree (some path) ≡ leaf
  pub there : v.nodes p ≡ some parent
  pub is_dir : fat_file_is_directory parent.content ≡ true
  pub siblings : Siblings v.nodes parent.h_children cs
  pub new_addr : v.nodes v.next_addr ≡ none
  pub distinct : has v.next_addr cs ≡ false

-- The volume with one file more.
pub record IsWith {W : Type 0} (v v' : FatVolume W) (path : List ℕ) (p : ℕ) (parent : HNode Handle)
    (cs : List ℕ) (d : Dentry) : Type 0 where
  pub leads : file_search v' path ≡ some v.next_addr
  pub parent_after : HNode Handle
  pub child : HNode Handle
  pub at_parent : v'.nodes p ≡ some parent_after
  pub at_child : v'.nodes v.next_addr ≡ some child
  pub siblings : Siblings v'.nodes parent_after.h_children (v.next_addr ∷ cs)
  pub counted :
      parent_after.content
      ≡ record (parent.content) { nentries = (parent.content.nentries + 1) % 2 ^ 32 }
  pub placed : child.content ≡ record (made path d) { pos_in_parent = parent.content.nentries }
  pub up : child.h_parent ≡ some p

module _ (os : Os) (c : Libc os.World) where
  pub insert_file_lem :
      (v : FatVolume os.World) (tree : FatTree by_path) (path : List ℕ) (p : ℕ)
      (parent : HNode Handle) (cs : List ℕ) (d : Dentry)
      → IsParent v tree path p parent cs
      → (v1 : FatVolume os.World) × (insert_file v p (some (made path d)) ≡ done v1)
        × (file_search v1 path ≡ some v.next_addr)
        × (v1.mount ≡ v.mount)
        × IsLinked v.nodes v1.nodes v.next_addr p (made path d) parent cs
  unfolding insert_file h_tree_search file_search fat_tree_insert h_tree_get_data
  insert_file_lem v tree path p parent cs d h =
      let ref : FileRef = record { addr = v.next_addr; filepath = path } in
      let (nodes1, run, linked) =
        h_node_init_lem v.nodes v.next_addr (made path d) p parent cs h.there h.new_addr h.siblings
          h.distinct in
      let ran =
        insert_linked_lem by_path (λ r. r.addr) tree.file_tree ref (made path d) (some p) v.nodes
          h.new_path
        ∙ run in
      let before : fat_tree_search by_path (some tree) (some path) ≡ none =
        fat_tree_search-eq by_path tree path ∙ ap h_tree_get_data h.new_path in
      let after : fat_tree_search by_path (fat_tree_insert by_path (some tree) (some ref))
            (some path)
          ≡ some ref =
        (fat_tree_search-fat_tree_insert by_path tree ref).0
        ∙ ap (λ x. or_new by_path x ref) before in
      let v1 : FatVolume os.World = record {
        mount = v.mount;
        file_tree = fat_tree_insert by_path (some tree) (some ref);
        nodes = nodes1;
        next_addr = v.next_addr + 1;
      } in
      let whole : insert_file v p (some (made path d)) ≡ done v1 = rw (h.in_tree, ran) refl in
      (v1, whole, ap (Option.map (λ (r : FileRef). r.addr)) after, refl, linked)

  put_file-set_node :
      (v : FatVolume os.World) (a : ℕ) (n : HNode Handle) (file : Handle)
      → v.nodes a ≡ some n
      → (put_file v a file).nodes ≡ set_node v.nodes a (some (record n { content = file }))
  unfolding put_file
  put_file-set_node v a n file e = rw e refl

  -- The files of a parent and of its new child after both have changed.
  pub put_both :
      (v0 v : FatVolume os.World) (a p : ℕ) (x : Handle) (parent : HNode Handle) (cs : List ℕ)
      (parent' x' : Handle)
      → IsLinked v0.nodes v.nodes a p x parent cs
      → (p == a) ≡ false
      → (n : HNode Handle) × (m : HNode Handle) × ((put_file (put_file v p parent') a x').nodes p
          ≡ some n)
        × ((put_file (put_file v p parent') a x').nodes a ≡ some m)
        × Siblings (put_file (put_file v p parent') a x').nodes n.h_children (a ∷ cs)
        × (n.content ≡ parent')
        × (m.content ≡ x')
        × (m.h_parent ≡ some p)
  put_both v0 v a p x parent cs parent' x' h apart =
      let other : (a == p) ≡ false = ground arith in
      let n = record (h.parent_after) { content = parent' } in
      let m = record (h.child) { content = x' } in
      let one = put_file-set_node v p h.parent_after parent' h.at_parent in
      let child_kept : (put_file v p parent').nodes a ≡ some (h.child) =
        ap (λ f. f a) one ∙ set_node_other v.nodes p a (some n) other ∙ h.at_child in
      let two =
        put_file-set_node (put_file v p parent') a h.child x' child_kept
        ∙ ap (λ f. set_node f a (some m)) one in
      let both = set_node v.nodes p (some n) in
      let linked =
        Siblings-set_same both a h.child m n.h_children (a ∷ cs)
          (set_node_other v.nodes p a (some n) other ∙ h.at_child) refl
          (Siblings-set_same v.nodes p h.parent_after n n.h_children (a ∷ cs) h.at_parent refl
            h.siblings) in
      (
        n,
        m,
        ap (λ f. f p) two
            ∙ set_node_other both a p (some m) apart
            ∙ set_node_self v.nodes p (some n),
        ap (λ f. f a) two ∙ set_node_self both a (some m),
        subst (λ f. Siblings f n.h_children (a ∷ cs)) (sym two) linked,
        refl,
        refl,
        h.up,
      )

  pub add_child_lem :
      (v : FatVolume os.World) (p a : ℕ) (path : List ℕ) (d : Dentry) (n : HNode Handle)
      (parent : Handle)
      → v.nodes p ≡ some n
      → n.content ≡ parent
      → (write_dir_entry os v.mount parent.start_cluster d parent.nentries).errno ≡ 0
      → add_child os c v p a (some (made path d))
        ≡ done (
          pos 0,
          put_file
              (put_file
                (record v {
                  mount = write_dir_entry os v.mount parent.start_cluster d parent.nentries;
                })
                p
                (record parent { nentries = (parent.nentries + 1) % 2 ^ 32 }))
              a
              (record (made path d) { pos_in_parent = parent.nentries }),
        )
  unfolding add_child fat_file_dentry_add_child return_errno file_at node_at put_file
  add_child_lem v p a path d n parent at content_eq room =
      let quiet : ((write_dir_entry os v.mount parent.start_cluster d parent.nentries).errno == 0)
          ≡ true =
        eq→== _ 0 room in
      let there : file_at v p ≡ done parent = rw at (ap done content_eq) in
      rw (there, quiet, room) refl
