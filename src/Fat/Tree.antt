-- ===== src/Fat/Tree.antt =====
-- lab4/esqueleto/hierarchy_tree.c, the search tree: its nodes with their sizes, search, insertion and
-- the traversal in preorder. NULL is `leaf` for a node and `none` for a key or an element. The links
-- of the hierarchy, which the same nodes hold, are in Fat.Hierarchy; errno and a size beyond `int`
-- are not modelled.
pub mod Search
pub mod Sizes
pub mod Sample
pub mod Delete
pub mod Sorted
pub mod Scan
mod Examples
use operating_system_fa_maf.Common.{
  ℕ, zero, suc, ◌+◌, ◌≡◌, Bool, List, [], ◌∷◌, Option, none, some, set,
}

-- What a comparison function returns: a negative number, 0 or a positive one.
pub data Sign : Type 0 where
  below same above : Sign

abbrev pub opposite : Sign → Sign
opposite below = above
opposite same = same
opposite above = below

-- The functions that the file system hands to the tree: `cmp` compares two elements, `cmp_key` an
-- element and a key, as the element that has that key would compare.
pub record Order : Type 1 where
  pub Data : Type 0
  pub Key : Type 0
  pub cmp : Data → Data → Sign
  pub cmp_key : Data → Key → Sign
  pub key : Data → Key
  pub cmp_key-key : (a b : Data) → cmp_key a (key b) ≡ opposite (cmp b a)
  pub cmp_self : (a : Data) → cmp a a ≡ same

pub data HTree (A : Type 0) : Type 0 where
  leaf : HTree A
  node : (element : A) (size : ℕ) (left right : HTree A) → HTree A

unfoldable pub h_tree_size : {A : Type 0} → HTree A → ℕ
h_tree_size leaf = 0
h_tree_size (node a n l r) = n

unfoldable pub h_tree_get_data : {A : Type 0} → HTree A → Option A
h_tree_get_data leaf = none
h_tree_get_data (node a n l r) = some a

unfoldable pub update_size : {A : Type 0} → HTree A → HTree A
update_size leaf = leaf
update_size (node a n l r) = node a (1 + h_tree_size l + h_tree_size r) l r

-- The node, by the sign of the comparison of its element: itself, or what is found below.
abbrev pub branch : {B : Type 0} → Sign → B → B → B → B
branch below l m r = l
branch same l m r = m
branch above l m r = r

module _ (o : Order) where
  unfoldable pub find : HTree o.Data → o.Key → HTree o.Data
  find leaf k = leaf
  find (node a n l r) k = branch (o.cmp_key a k) (find r k) (node a n l r) (find l k)

  unfoldable pub h_tree_search : HTree o.Data → Option o.Key → HTree o.Data
  h_tree_search t none = leaf
  h_tree_search t (some k) = find t k

  unfoldable pub insert : HTree o.Data → o.Data → HTree o.Data
  insert leaf x = node x 1 leaf leaf
  insert (node a n l r) x =
      update_size
        (branch (o.cmp x a) (node a n (insert l x) r) (node a n l r) (node a n l (insert r x)))

  unfoldable pub h_tree_insert : HTree o.Data → Option o.Data → HTree o.Data
  h_tree_insert t none = t
  h_tree_insert t (some x) = insert t x

-- The array is a list, `i` the place that the pointer has come to.
unfoldable pub h_tree_flatten_preorder : {A : Type 0} → HTree A → List A → (i : ℕ) → List A
h_tree_flatten_preorder leaf arr i = arr
h_tree_flatten_preorder (node a n l r) arr i =
    h_tree_flatten_preorder r (h_tree_flatten_preorder l (set arr i a) (i + 1))
      (i + 1 + h_tree_size l)
