-- ===== src/Fat/Tree/Search.antt =====
-- What a search finds after an insertion.
use operating_system_fa_maf.Common.{◌≡◌, ◌≢◌, refl, ◌∙◌, ap, ◌⊎◌, inl, inr, Option, none, some}
use operating_system_fa_maf.Fat.Tree.{
  Sign, below, same, above, opposite, Order, HTree, leaf, node, h_tree_get_data, update_size, find,
  insert, h_tree_search, h_tree_insert,
}

pub Sign-cases : (s : Sign) → (s ≡ below) ⊎ ((s ≡ same) ⊎ (s ≡ above))
Sign-cases below = inl refl
Sign-cases same = inr (inl refl)
Sign-cases above = inr (inr refl)

module _ (o : Order) where
  -- The element that is in the tree, or else the new one.
  abbrev pub or_new : Option o.Data → o.Data → Option o.Data
  or_new none x = some x
  or_new (some a) x = some a

  find-insert :
      (t : HTree o.Data) (x : o.Data)
      → h_tree_get_data (find o (insert o t x) (o.key x))
        ≡ or_new (h_tree_get_data (find o t (o.key x))) x
  unfolding find insert update_size h_tree_get_data
  find-insert leaf x = rw (o.cmp_key-key x x, o.cmp_self x)
  find-insert (node a n l r) x = elim (Sign-cases (o.cmp x a)) [
    | inl e ↦
        let f : o.cmp_key a (o.key x) ≡ above = o.cmp_key-key a x ∙ ap opposite e in
        rw (e, f) (find-insert l x)
    | inr (inl e) ↦
        let f : o.cmp_key a (o.key x) ≡ same = o.cmp_key-key a x ∙ ap opposite e in rw (e, f)
    | inr (inr e) ↦
        let f : o.cmp_key a (o.key x) ≡ below = o.cmp_key-key a x ∙ ap opposite e in
        rw (e, f) (find-insert r x)
  ]

  find-insert_other :
      (t : HTree o.Data) (x : o.Data) (k : o.Key)
      → o.cmp_key x k ≢ same
      → h_tree_get_data (find o (insert o t x) k) ≡ h_tree_get_data (find o t k)
  unfolding find insert update_size h_tree_get_data
  find-insert_other leaf x k differ = elim (Sign-cases (o.cmp_key x k)) [
    | inl e ↦ rw e
    | inr (inl e) ↦ absurd (differ e)
    | inr (inr e) ↦ rw e
  ]
  find-insert_other (node a n l r) x k differ = elim (Sign-cases (o.cmp x a)) [
    | inl e ↦ elim (Sign-cases (o.cmp_key a k)) [
      | inl f ↦ rw (e, f)
      | inr (inl f) ↦ rw (e, f)
      | inr (inr f) ↦ rw (e, f) (find-insert_other l x k differ)
    ]
    | inr (inl e) ↦ elim (Sign-cases (o.cmp_key a k)) [
      | inl f ↦ rw (e, f)
      | inr (inl f) ↦ rw (e, f)
      | inr (inr f) ↦ rw (e, f)
    ]
    | inr (inr e) ↦ elim (Sign-cases (o.cmp_key a k)) [
      | inl f ↦ rw (e, f) (find-insert_other r x k differ)
      | inr (inl f) ↦ rw (e, f)
      | inr (inr f) ↦ rw (e, f)
    ]
  ]

  -- After an insertion a search by the key of the element finds the element that was found before,
  -- if there was one, and else the new one; a search by a key that the element does not have finds
  -- what it found before.
  pub h_tree_search-h_tree_insert :
      (t : HTree o.Data) (x : o.Data)
      → (h_tree_get_data (h_tree_search o (h_tree_insert o t (some x)) (some (o.key x)))
          ≡ or_new (h_tree_get_data (h_tree_search o t (some (o.key x)))) x)
        × ((k : o.Key)
            → o.cmp_key x k ≢ same
            → h_tree_get_data (h_tree_search o (h_tree_insert o t (some x)) (some k))
              ≡ h_tree_get_data (h_tree_search o t (some k)))
  unfolding h_tree_search h_tree_insert
  h_tree_search-h_tree_insert t x = (find-insert t x, find-insert_other t x)
