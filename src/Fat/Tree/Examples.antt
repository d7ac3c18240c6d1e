-- ===== src/Fat/Tree/Examples.antt =====
-- A search in a tree of three numbers.
use operating_system_fa_maf.Common.{◌≡◌, refl, some, arith}
use operating_system_fa_maf.Fat.Tree.{h_tree_search, h_tree_get_data}
use operating_system_fa_maf.Fat.Tree.Delete.Removal.{inorder}
use operating_system_fa_maf.Fat.Tree.Sorted.{IsLinear, IsOrdered}
use operating_system_fa_maf.Fat.Tree.Scan.{scan, h_tree_search-scan}
use operating_system_fa_maf.Fat.Tree.Sample.{numbers, three}

numbers-IsLinear : IsLinear numbers
numbers-IsLinear = record {
  cmp_of_key = λ a b. refl;
  below_below = λ a b k ab bk. ground arith;
  above_above = λ a b k ab ak. ground arith;
}

three-IsOrdered : IsOrdered numbers three
unfolding inorder
three-IsOrdered = ((refl, (refl, tt)), ((refl, tt), (tt, tt)))

h_tree_search-scan_example :
    h_tree_get_data (h_tree_search numbers three (some 9)) ≡ scan numbers (inorder three) 9
h_tree_search-scan_example = h_tree_search-scan numbers numbers-IsLinear three 9 three-IsOrdered
