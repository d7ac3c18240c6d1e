-- ===== src/Fat/FsTree.antt =====
-- lab4/esqueleto/fat_fs_tree.c: the tree of files, over the search tree. NULL is `none`; the order
-- stands for the comparison functions that `fat_tree_init` keeps in the structure.
pub mod Lookup
pub mod Map
mod Examples
use operating_system_fa_maf.Common.{ℕ, Option, none, some, Run, done, ◌>>=◌}
use operating_system_fa_maf.Common.Int.{ℤ, pos, negsuc}
use operating_system_fa_maf.Fat.Tree.{
  Order, HTree, leaf, node, h_tree_size, h_tree_get_data, h_tree_search, h_tree_insert,
}
use operating_system_fa_maf.Fat.Tree.Delete.{h_tree_delete}

pub record FatTree (o : Order) : Type 0 where
  pub file_tree : HTree o.Data

module _ (o : Order) where
  unfoldable pub fat_tree_init : FatTree o
  fat_tree_init = record { file_tree = leaf }

  unfoldable pub fat_tree_size : Option (FatTree o) → ℤ
  fat_tree_size none = negsuc 0
  fat_tree_size (some tree) = pos (h_tree_size tree.file_tree)

  unfoldable pub fat_tree_insert : Option (FatTree o) → Option o.Data → Option (FatTree o)
  fat_tree_insert none new_file = none
  fat_tree_insert (some tree) none = none
  fat_tree_insert (some tree) (some new_file) =
      some (record tree { file_tree = h_tree_insert o tree.file_tree (some new_file) })

  unfoldable pub fat_tree_node_search : FatTree o → Option o.Key → HTree o.Data
  fat_tree_node_search tree key = h_tree_search o tree.file_tree key

  -- By the node at the root of the search tree.
  unfoldable pub search_from : HTree o.Data → FatTree o → o.Key → Option o.Data
  search_from leaf tree key = none
  search_from (node a n l r) tree key = h_tree_get_data (fat_tree_node_search tree (some key))

  unfoldable pub fat_tree_search : Option (FatTree o) → Option o.Key → Option o.Data
  fat_tree_search none key = none
  fat_tree_search (some tree) none = none
  fat_tree_search (some tree) (some key) = search_from tree.file_tree tree key

  unfoldable pub fat_tree_get_file : HTree o.Data → Option o.Data
  fat_tree_get_file n = h_tree_get_data n

  unfoldable pub fat_tree_delete : Option (FatTree o) → Option o.Key → Run (Option (FatTree o))
  fat_tree_delete none key = done none
  fat_tree_delete (some tree) none = done (some tree)
  fat_tree_delete (some tree) (some key) =
      h_tree_delete o tree.file_tree (some key) >>= λ t. done (some (record { file_tree = t }))
