-- ===== src/Fat/Tree/Delete.antt =====
-- lab4/esqueleto/hierarchy_tree.c: deletion from the search tree. `data_destroy` frees the element,
-- so that to call it twice on one element is undefined behaviour, a fault; elements are not NULL.
pub mod Removal
pub mod Balance
mod Examples
use operating_system_fa_maf.Common.{
  ℕ, Bool, true, false, Option, none, some, Run, done, fault, ◌>>=◌, if◌then◌else◌,
}
use operating_system_fa_maf.Fat.Tree.{Order, HTree, leaf, node, update_size, branch}

unfoldable pub is_minimum : {A : Type 0} → HTree A → Bool
is_minimum leaf = false
is_minimum (node a n leaf r) = true
is_minimum (node a n (node b m l2 r2) r) = false

-- The right child in the place of a root with two children, `l` the root's left one.
unfoldable pub take_place : {A : Type 0} → (l right : HTree A) → HTree A
unfolding update_size
take_place l leaf = leaf
take_place l (node b m l2 r2) = update_size (node b m l r2)

-- The root's element has been destroyed before the tests. Where the right child is not a minimum the
-- root is swapped with one, and `delete_root` is called on it once more, which destroys the
-- element once more.
unfoldable pub delete_root : {A : Type 0} → HTree A → Run (HTree A)
unfolding is_minimum take_place
delete_root leaf = fault
delete_root (node a n leaf r) = done r
delete_root (node a n (node b m l2 r2) leaf) = done (node b m l2 r2)
delete_root (node a n (node b m l2 r2) (node c k l3 r3)) =
    if is_minimum (node c k l3 r3)
    then done (take_place (node b m l2 r2) (node c k l3 r3))
    else fault

-- The node again, one of its subtrees replaced.
abbrev pub with_left : {A : Type 0} → A → ℕ → HTree A → HTree A → Run (HTree A)
with_left a n r l = done (update_size (node a n l r))

abbrev pub with_right : {A : Type 0} → A → ℕ → HTree A → HTree A → Run (HTree A)
with_right a n l r = done (update_size (node a n l r))

module _ (o : Order) where
  unfoldable pub delete : HTree o.Data → o.Key → Run (HTree o.Data)
  unfolding delete_root
  delete leaf k = done leaf
  delete (node a n l r) k =
      branch (o.cmp_key a k) (delete r k >>= with_right a n l) (delete_root (node a n l r))
        (delete l k >>= with_left a n r)

  unfoldable pub h_tree_delete : HTree o.Data → Option o.Key → Run (HTree o.Data)
  unfolding delete
  h_tree_delete t none = done t
  h_tree_delete t (some k) = delete t k
