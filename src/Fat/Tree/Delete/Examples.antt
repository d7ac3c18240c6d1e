-- ===== src/Fat/Tree/Delete/Examples.antt =====
-- A deletion from a tree of three numbers.
use operating_system_fa_maf.Common.{ℕ, ◌≡◌, ◌⊎◌, refl, some, done, fault}
use operating_system_fa_maf.Fat.Tree.{HTree, leaf, node, find, h_tree_search}
use operating_system_fa_maf.Fat.Tree.Delete.{h_tree_delete}
use operating_system_fa_maf.Fat.Tree.Delete.Removal.{Removable, Without, h_tree_delete_lem}
use operating_system_fa_maf.Fat.Tree.Sample.{numbers, three}

finds_five : h_tree_search numbers three (some 5) ≡ three
unfolding h_tree_search find
finds_five = refl

h_tree_delete_lem_example :
    (Removable three
      × ((u : HTree ℕ) × (h_tree_delete numbers three (some 5) ≡ done u) × Without 5 three u))
    ⊎ ((¬ (Removable three)) × (h_tree_delete numbers three (some 5) ≡ fault))
h_tree_delete_lem_example =
    h_tree_delete_lem numbers three 5 5 3 (node 2 1 leaf leaf) (node 9 1 leaf leaf) finds_five
