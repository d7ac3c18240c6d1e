-- ===== src/Fat/FsTree/Lookup.antt =====
-- Which file a path leads to after an insertion.
use operating_system_fa_maf.Common.{◌≡◌, ◌≢◌, refl, sym, ◌∙◌, ap, none, some}
use operating_system_fa_maf.Fat.Tree.{
  same, Order, HTree, leaf, node, h_tree_get_data, h_tree_search, h_tree_insert, find,
}
use operating_system_fa_maf.Fat.Tree.Search.{or_new, h_tree_search-h_tree_insert}
use operating_system_fa_maf.Fat.FsTree.{
  FatTree, fat_tree_insert, fat_tree_node_search, search_from, fat_tree_search,
}

module _ (o : Order) where
  search_from-eq :
      (t : HTree o.Data) (k : o.Key)
      → search_from o t (record { file_tree = t }) k ≡ h_tree_get_data (h_tree_search o t (some k))
  unfolding search_from fat_tree_node_search h_tree_search h_tree_get_data find
  search_from-eq leaf k = refl
  search_from-eq (node a n l r) k = refl

  pub fat_tree_search-eq :
      (tree : FatTree o) (k : o.Key)
      → fat_tree_search o (some tree) (some k)
        ≡ h_tree_get_data (h_tree_search o tree.file_tree (some k))
  unfolding fat_tree_search
  fat_tree_search-eq tree k = search_from-eq tree.file_tree k

  -- After a file has been inserted its path leads to the file that it led to before, if there was
  -- one, and else to the new one; another path leads where it led. Without a tree there is none.
  pub fat_tree_search-fat_tree_insert :
      (tree : FatTree o) (x : o.Data)
      → (fat_tree_search o (fat_tree_insert o (some tree) (some x)) (some (o.key x))
          ≡ or_new o (fat_tree_search o (some tree) (some (o.key x))) x)
        × ((k : o.Key)
            → o.cmp_key x k ≢ same
            → fat_tree_search o (fat_tree_insert o (some tree) (some x)) (some k)
              ≡ fat_tree_search o (some tree) (some k))
        × (fat_tree_search o (fat_tree_insert o none (some x)) (some (o.key x)) ≡ none)
  unfolding fat_tree_insert fat_tree_search
  fat_tree_search-fat_tree_insert tree x =
      let t = tree.file_tree in
      let u = h_tree_insert o t (some x) in
      let (found, others) = h_tree_search-h_tree_insert o t x in
      (
        search_from-eq u (o.key x)
            ∙ found
            ∙ ap (λ r. or_new o r x) (sym (search_from-eq t (o.key x))),
        (λ k differ. search_from-eq u k ∙ others k differ ∙ sym (search_from-eq t k)),
        refl,
      )
