-- ===== src/Fat/Tree/Delete/Balance.antt =====
-- The sizes of the nodes after a deletion.
use operating_system_fa_maf.Common.{
  ℕ, inl, inr, some, Run, done, fault, out_of_fuel, ◌>>=◌, Ensures,
}
use operating_system_fa_maf.Fat.Tree.{Order, HTree, leaf, node}
use operating_system_fa_maf.Fat.Tree.Search.{Sign-cases}
use operating_system_fa_maf.Fat.Tree.Sizes.{IsSized, update_size-IsSized}
use operating_system_fa_maf.Fat.Tree.Delete.{
  is_minimum, take_place, delete_root, delete, h_tree_delete, with_left, with_right,
}

module _ (o : Order) where
  with_left-IsSized :
      (a : o.Data) (n : ℕ) (r : HTree o.Data) (m : Run (HTree o.Data))
      → IsSized r
      → Ensures IsSized m
      → Ensures IsSized (m >>= with_left a n r)
  with_left-IsSized a n r (done l) hr h = update_size-IsSized a n l r h hr
  with_left-IsSized a n r fault hr h = tt
  with_left-IsSized a n r out_of_fuel hr h = tt

  with_right-IsSized :
      (a : o.Data) (n : ℕ) (l : HTree o.Data) (m : Run (HTree o.Data))
      → IsSized l
      → Ensures IsSized m
      → Ensures IsSized (m >>= with_right a n l)
  with_right-IsSized a n l (done r) hl h = update_size-IsSized a n l r hl h
  with_right-IsSized a n l fault hl h = tt
  with_right-IsSized a n l out_of_fuel hl h = tt

  delete_root-IsSized : (t : HTree o.Data) → IsSized t → Ensures IsSized (delete_root t)
  unfolding delete_root is_minimum take_place
  delete_root-IsSized leaf h = tt
  delete_root-IsSized (node a n leaf r) h = h.1.1
  delete_root-IsSized (node a n (node b m l2 r2) leaf) h = h.1.0
  delete_root-IsSized (node a n (node b m l2 r2) (node c k leaf r3)) h =
      update_size-IsSized c k (node b m l2 r2) r3 h.1.0 h.1.1.1.1
  delete_root-IsSized (node a n (node b m l2 r2) (node c k (node d j l4 r4) r3)) h = tt

  -- A deletion that returns keeps the size of every node right.
  pub h_tree_delete-IsSized :
      (t : HTree o.Data) (k : o.Key) → IsSized t → Ensures IsSized (h_tree_delete o t (some k))
  unfolding h_tree_delete delete
  h_tree_delete-IsSized leaf k h = tt
  h_tree_delete-IsSized (node a n l r) k h = elim (Sign-cases (o.cmp_key a k)) [
    | inl e ↦ rw e (with_right-IsSized a n l _ h.1.0 (h_tree_delete-IsSized r k h.1.1))
    | inr (inl e) ↦ rw e (delete_root-IsSized (node a n l r) h)
    | inr (inr e) ↦ rw e (with_left-IsSized a n r _ h.1.1 (h_tree_delete-IsSized l k h.1.0))
  ]
