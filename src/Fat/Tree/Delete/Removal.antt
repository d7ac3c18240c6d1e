-- ===== src/Fat/Tree/Delete/Removal.antt =====
-- What a deletion takes out of the tree, and when it can be carried out.
use mathlib.Core.List.{append_assoc, append-nil}
use operating_system_fa_maf.Common.{
  ℕ, ◌≡◌, ◌≢◌, refl, sym, ap, subst, ◌∙◌, ◌⊎◌, inl, inr, List, [], ◌∷◌, ◌++◌, some, done, fault,
}
use operating_system_fa_maf.Fat.Tree.{
  Sign, below, same, above, Order, HTree, leaf, node, update_size, find, h_tree_search, branch,
}
use operating_system_fa_maf.Fat.Tree.Search.{Sign-cases}
use operating_system_fa_maf.Fat.Tree.Delete.{
  is_minimum, take_place, delete_root, delete, h_tree_delete,
}

-- The elements in the order of the search.
unfoldable pub inorder : {A : Type 0} → HTree A → List A
inorder leaf = []
inorder (node a n l r) = inorder l ++ a ∷ inorder r

-- The root has at most one child, or its right child has no left one.
pub data Removable {A : Type 0} : HTree A → Type 0 where
  no_left : {a : A} {n : ℕ} {r : HTree A} → Removable (node a n leaf r)
  no_right : {a : A} {n : ℕ} {l : HTree A} → Removable (node a n l leaf)
  right_minimum : {a b : A} {n m : ℕ} {l r : HTree A} → Removable (node a n l (node b m leaf r))

-- One element, and no other, is between the two parts.
abbrev pub Without : {A : Type 0} → A → HTree A → HTree A → Type 0
Without {A} a t u = (xs ys : List A) × (inorder t ≡ xs ++ a ∷ ys) × (inorder u ≡ xs ++ ys)

module _ {A : Type 0} where
  left_part :
      {a : A} (l l' : HTree A) (n m : ℕ) (b : A) (r : HTree A)
      → Without a l l'
      → Without a (node b n l r) (update_size (node b m l' r))
  unfolding inorder update_size
  left_part {a} l l' n m b r (xs, ys, e, e') = (
    xs,
    ys ++ b ∷ inorder r,
    ap (λ z. z ++ b ∷ inorder r) e ∙ append_assoc xs (a ∷ ys) (b ∷ inorder r),
    ap (λ z. z ++ b ∷ inorder r) e' ∙ append_assoc xs ys (b ∷ inorder r),
  )

  right_part :
      {a : A} (r r' : HTree A) (n m : ℕ) (b : A) (l : HTree A)
      → Without a r r'
      → Without a (node b n l r) (update_size (node b m l r'))
  unfolding inorder update_size
  right_part {a} r r' n m b l (xs, ys, e, e') = (
    inorder l ++ b ∷ xs,
    ys,
    ap (λ z. inorder l ++ b ∷ z) e ∙ sym (append_assoc (inorder l) (b ∷ xs) (a ∷ ys)),
    ap (λ z. inorder l ++ b ∷ z) e' ∙ sym (append_assoc (inorder l) (b ∷ xs) ys),
  )

  delete_root-Without :
      (a : A) (n : ℕ) (l r : HTree A)
      → Removable (node a n l r)
      → (u : HTree A) × (delete_root (node a n l r) ≡ done u) × Without a (node a n l r) u
  unfolding delete_root is_minimum take_place update_size inorder
  delete_root-Without a n leaf r h = (r, refl, ([], inorder r, refl, refl))
  delete_root-Without a n (node b m l2 r2) leaf h = (
    node b m l2 r2,
    refl,
    (inorder (node b m l2 r2), [], refl, sym (append-nil (inorder (node b m l2 r2)))),
  )
  delete_root-Without a n (node b m l2 r2) (node c k leaf r3) h = (
    take_place (node b m l2 r2) (node c k leaf r3),
    refl,
    (inorder (node b m l2 r2), c ∷ inorder r3, refl, refl),
  )
  delete_root-Without a n (node b m l2 r2) (node c k (node d j l4 r4) r3) h = elim h [ ]

  delete_root_faults : (t : HTree A) → t ≢ leaf → ¬ (Removable t) → delete_root t ≡ fault
  unfolding delete_root is_minimum
  delete_root_faults leaf h hard = absurd (h refl)
  delete_root_faults (node a n leaf r) h hard = absurd (hard no_left)
  delete_root_faults (node a n (node b m l2 r2) leaf) h hard = absurd (hard no_right)
  delete_root_faults (node a n (node b m l2 r2) (node c k leaf r3)) h hard =
      absurd (hard right_minimum)
  delete_root_faults (node a n (node b m l2 r2) (node c k (node d j l4 r4) r3)) h hard = refl

  Removable-cases :
      (a : A) (n : ℕ) (l r : HTree A) → Removable (node a n l r) ⊎ (¬ (Removable (node a n l r)))
  Removable-cases a n leaf r = inl no_left
  Removable-cases a n (node b m l2 r2) leaf = inl no_right
  Removable-cases a n (node b m l2 r2) (node c k leaf r3) = inl right_minimum
  Removable-cases a n (node b m l2 r2) (node c k (node d j l4 r4) r3) = inr (λ h. elim h [ ])

module _ (o : Order) where
  -- The rounds of a search and of a deletion part in the same way.
  pub find_at :
      (b : o.Data) (m : ℕ) (l r t : HTree o.Data) (k : o.Key) (s : Sign)
      → find o (node b m l r) k ≡ t
      → o.cmp_key b k ≡ s
      → branch s (find o r k) (node b m l r) (find o l k) ≡ t
  unfolding find
  find_at b m l r t k s found e =
      ap (λ x. branch x (find o r k) (node b m l r) (find o l k)) (sym e) ∙ found

  -- The element of the node that a search finds is taken out, if the node is one that can be.
  pub delete-Without :
      (t : HTree o.Data) (k : o.Key) (a : o.Data) (n : ℕ) (l r : HTree o.Data)
      → find o t k ≡ node a n l r
      → Removable (node a n l r)
      → (u : HTree o.Data) × (delete o t k ≡ done u) × Without a t u
  unfolding delete find
  delete-Without leaf k a n l r found h = absurd (cc found)
  delete-Without (node b m l2 r2) k a n l r found h =
      let seen = find_at b m l2 r2 (node a n l r) k in
      elim (Sign-cases (o.cmp_key b k)) [
        | inl e ↦
            let (u, removed, w) = delete-Without r2 k a n l r (seen below found e) h in
            rw (e, removed) (update_size (node b m l2 u), refl, right_part r2 u m m b l2 w)
        | inr (inl e) ↦
            let there : node a n l r ≡ node b m l2 r2 = sym (seen same found e) in
            rw e (
              subst (λ t. (u : HTree o.Data) × (delete_root t ≡ done u) × Without a t u) there
                (delete_root-Without a n l r h))
        | inr (inr e) ↦
            let (u, removed, w) = delete-Without l2 k a n l r (seen above found e) h in
            rw (e, removed) (update_size (node b m u r2), refl, left_part l2 u m m b r2 w)
      ]

  delete_faults :
      (t : HTree o.Data) (k : o.Key) (a : o.Data) (n : ℕ) (l r : HTree o.Data)
      → find o t k ≡ node a n l r
      → ¬ (Removable (node a n l r))
      → delete o t k ≡ fault
  unfolding delete find
  delete_faults leaf k a n l r found h = absurd (cc found)
  delete_faults (node b m l2 r2) k a n l r found h =
      let seen = find_at b m l2 r2 (node a n l r) k in
      elim (Sign-cases (o.cmp_key b k)) [
        | inl e ↦ rw (e, delete_faults r2 k a n l r (seen below found e) h)
        | inr (inl e) ↦
            let there : node b m l2 r2 ≡ node a n l r = seen same found e in
            rw e (ap delete_root there ∙ delete_root_faults (node a n l r) (λ f. absurd (cc f)) h)
        | inr (inr e) ↦ rw (e, delete_faults l2 k a n l r (seen above found e) h)
      ]

  delete_absent :
      (t : HTree o.Data) (k : o.Key)
      → find o t k ≡ leaf
      → (u : HTree o.Data) × (delete o t k ≡ done u) × (inorder u ≡ inorder t)
  unfolding delete find inorder update_size
  delete_absent leaf k absent = (leaf, refl, refl)
  delete_absent (node b m l2 r2) k absent =
      let seen = find_at b m l2 r2 leaf k in
      elim (Sign-cases (o.cmp_key b k)) [
        | inl e ↦
            let (u, removed, w) = delete_absent r2 k (seen below absent e) in
            rw (e, removed) (update_size (node b m l2 u), refl, ap (λ z. inorder l2 ++ b ∷ z) w)
        | inr (inl e) ↦ absurd (cc (seen same absent e))
        | inr (inr e) ↦
            let (u, removed, w) = delete_absent l2 k (seen above absent e) in
            rw (e, removed) (update_size (node b m u r2), refl, ap (λ z. z ++ b ∷ inorder r2) w)
      ]

  -- A deletion by the key of an element takes exactly that element out and keeps the others in
  -- their order, where the element's node has at most one child or a right child that has no left
  -- one; else it frees the element twice.
  pub h_tree_delete_lem :
      (t : HTree o.Data) (k : o.Key) (a : o.Data) (n : ℕ) (l r : HTree o.Data)
      → h_tree_search o t (some k) ≡ node a n l r
      → (Removable (node a n l r)
          × ((u : HTree o.Data) × (h_tree_delete o t (some k) ≡ done u) × Without a t u))
        ⊎ ((¬ (Removable (node a n l r))) × (h_tree_delete o t (some k) ≡ fault))
  unfolding h_tree_search h_tree_delete
  h_tree_delete_lem t k a n l r found = elim (Removable-cases a n l r) [
    | inl h ↦ inl (h, delete-Without t k a n l r found h)
    | inr h ↦ inr (h, delete_faults t k a n l r found h)
  ]

  -- By a key that no search finds nothing is taken out.
  pub h_tree_delete_absent :
      (t : HTree o.Data) (k : o.Key)
      → h_tree_search o t (some k) ≡ leaf
      → (u : HTree o.Data) × (h_tree_delete o t (some k) ≡ done u) × (inorder u ≡ inorder t)
  unfolding h_tree_search h_tree_delete
  h_tree_delete_absent t k absent = delete_absent t k absent
