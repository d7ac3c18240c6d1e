-- ===== src/Fat/Tree/Scan.antt =====
-- A search is a scan of the elements, whatever the shape of the tree; what a deletion leaves to find.
use operating_system_fa_maf.Common.{
  ◌≡◌, ◌≢◌, refl, sym, ap, subst, ◌∙◌, inl, inr, List, [], ◌∷◌, ◌++◌, Option, none, some, done,
}
use operating_system_fa_maf.Fat.Tree.{
  same, Order, HTree, leaf, node, find, branch, h_tree_search, h_tree_get_data,
}
use operating_system_fa_maf.Fat.Tree.Search.{Sign-cases}
use operating_system_fa_maf.Fat.Tree.Delete.{h_tree_delete}
use operating_system_fa_maf.Fat.Tree.Delete.Removal.{
  inorder, h_tree_delete_lem, h_tree_delete_absent,
}
use operating_system_fa_maf.Fat.Tree.Sorted.{
  IsLinear, All, All-imp, IsSorted, IsSorted-parts, IsOrdered, h_tree_delete-IsOrdered,
  node_or_leaf,
}

module _ (o : Order) where
  -- The first element that has the key.
  abbrev pub scan : List o.Data → o.Key → Option o.Data
  scan [] k = none
  scan (a ∷ xs) k = branch (o.cmp_key a k) (scan xs k) (some a) (scan xs k)

  abbrev Differs : o.Key → o.Data → Type 0
  Differs k a = o.cmp_key a k ≢ same

  -- Elements without the key are passed over.
  scan-append :
      (xs ys : List o.Data) (k : o.Key) → All (Differs k) xs → scan (xs ++ ys) k ≡ scan ys k
  scan-append [] ys k h = refl
  scan-append (x ∷ xs) ys k h = elim (Sign-cases (o.cmp_key x k)) [
    | inl e ↦ rw e (scan-append xs ys k h.1)
    | inr (inl e) ↦ absurd (h.0 e)
    | inr (inr e) ↦ rw e (scan-append xs ys k h.1)
  ]

  scan-none : (xs : List o.Data) (k : o.Key) → All (Differs k) xs → scan xs k ≡ none
  scan-none [] k h = refl
  scan-none (x ∷ xs) k h = elim (Sign-cases (o.cmp_key x k)) [
    | inl e ↦ rw e (scan-none xs k h.1)
    | inr (inl e) ↦ absurd (h.0 e)
    | inr (inr e) ↦ rw e (scan-none xs k h.1)
  ]

  -- Nothing behind changes what is found in front.
  scan-prefix :
      (xs ys : List o.Data) (k : o.Key) → All (Differs k) ys → scan (xs ++ ys) k ≡ scan xs k
  scan-prefix [] ys k h = scan-none ys k h
  scan-prefix (x ∷ xs) ys k h = elim (Sign-cases (o.cmp_key x k)) [
    | inl e ↦ rw e (scan-prefix xs ys k h)
    | inr (inl e) ↦ rw e
    | inr (inr e) ↦ rw e (scan-prefix xs ys k h)
  ]

  module _ (linear : IsLinear o) where
    find-scan :
        (t : HTree o.Data) (k : o.Key)
        → IsOrdered o t
        → h_tree_get_data (find o t k) ≡ scan (inorder t) k
    unfolding find inorder h_tree_get_data
    find-scan leaf k s = refl
    find-scan (node a n l r) k s =
        let (sl, sr, under) = IsSorted-parts o (inorder l) (a ∷ inorder r) s in
        elim (Sign-cases (o.cmp_key a k)) [
          | inl e ↦
              let passed : All (Differs k) (inorder l) =
                All-imp _ _ (inorder l) (λ b h f. cc (linear.below_below b a k h.0 (λ g. cc)))
                  under in
              rw e (
                find-scan r k sr.1
                ∙ sym (scan-append (inorder l) (a ∷ inorder r) k passed ∙ rw e refl))
          | inr (inl e) ↦
              let passed : All (Differs k) (inorder l) =
                All-imp _ _ (inorder l) (λ b h f. cc (linear.below_below b a k h.0 (λ g. cc)))
                  under in
              rw e (sym (scan-append (inorder l) (a ∷ inorder r) k passed ∙ rw e refl))
          | inr (inr e) ↦
              let passed : All (Differs k) (inorder r) =
                All-imp _ _ (inorder r) (λ b h f. cc (linear.above_above a b k h (λ g. cc))) sr.0 in
              let here : o.cmp_key a k ≢ same = λ f. cc in
              rw e
                (find-scan l k sl ∙ sym (scan-prefix (inorder l) (a ∷ inorder r) k (here, passed)))
        ]

    -- In a tree whose elements are in the order of the search, a search finds what a scan of its
    -- elements finds: the element with the key, if there is one.
    pub h_tree_search-scan :
        (t : HTree o.Data) (k : o.Key)
        → IsOrdered o t
        → h_tree_get_data (h_tree_search o t (some k)) ≡ scan (inorder t) k
    unfolding h_tree_search
    h_tree_search-scan t k s = find-scan t k s

    scan-IsKeyed :
        (xs : List o.Data) (k : o.Key) (a : o.Data) → scan xs k ≡ some a → o.cmp_key a k ≡ same
    scan-IsKeyed [] k a h = absurd (cc h)
    scan-IsKeyed (x ∷ xs) k a h = elim (Sign-cases (o.cmp_key x k)) [
      | inl e ↦ scan-IsKeyed xs k a (rw e at h)
      | inr (inl e) ↦
          let first : ◌≡◌ {A = Option o.Data} (some x) (some a) = rw e at h in
          let is : x ≡ a = cc first in subst (λ b. o.cmp_key b k ≡ same) is e
      | inr (inr e) ↦ scan-IsKeyed xs k a (rw e at h)
    ]

    -- Around an element with the key there is no other.
    scan-without_self :
        (xs ys : List o.Data) (a : o.Data) (k : o.Key)
        → IsSorted o (xs ++ a ∷ ys)
        → o.cmp_key a k ≡ same
        → scan (xs ++ ys) k ≡ none
    scan-without_self xs ys a k s keyed =
        let (sx, sy, under) = IsSorted-parts o xs (a ∷ ys) s in
        let before : All (Differs k) xs =
          All-imp _ _ xs (λ b h f. cc (linear.below_below b a k h.0 (λ g. cc))) under in
        let behind : All (Differs k) ys =
          All-imp _ _ ys (λ b h f. cc (linear.above_above a b k h (λ g. cc))) sy.0 in
        scan-append xs ys k before ∙ scan-none ys k behind

    scan-without_other :
        (xs ys : List o.Data) (a : o.Data) (k : o.Key)
        → Differs k a
        → scan (xs ++ ys) k ≡ scan (xs ++ a ∷ ys) k
    scan-without_other [] ys a k differ = elim (Sign-cases (o.cmp_key a k)) [
      | inl e ↦ rw e refl
      | inr (inl e) ↦ absurd (differ e)
      | inr (inr e) ↦ rw e refl
    ]
    scan-without_other (x ∷ xs) ys a k differ = elim (Sign-cases (o.cmp_key x k)) [
      | inl e ↦ rw e (scan-without_other xs ys a k differ)
      | inr (inl e) ↦ rw e refl
      | inr (inr e) ↦ rw e (scan-without_other xs ys a k differ)
    ]

    -- After a deletion that returns, a search by its key finds nothing, and a search by a key that no
    -- element with the deleted key has finds what it found before.
    pub h_tree_search-h_tree_delete :
        (t u : HTree o.Data) (k : o.Key)
        → IsOrdered o t
        → h_tree_delete o t (some k) ≡ done u
        → (h_tree_get_data (h_tree_search o u (some k)) ≡ none)
          × ((j : o.Key)
              → ((a : o.Data) → o.cmp_key a k ≡ same → o.cmp_key a j ≢ same)
              → h_tree_get_data (h_tree_search o u (some j))
                ≡ h_tree_get_data (h_tree_search o t (some j)))
    unfolding h_tree_get_data
    h_tree_search-h_tree_delete t u k s run =
        let s' = h_tree_delete-IsOrdered o t u (some k) s run in
        elim (node_or_leaf (h_tree_search o t (some k))) [
          | inl absent ↦
              let (u', ran, keeps) = h_tree_delete_absent o t k absent in
              let is : u' ≡ u = cc (run, ran) in
              let equal : inorder u ≡ inorder t = ap inorder (sym is) ∙ keeps in
              let found = λ (j : o.Key).
                h_tree_search-scan u j s'
                ∙ ap (λ xs. scan xs j) equal
                ∙ sym (h_tree_search-scan t j s) in
              (found k ∙ ap h_tree_get_data absent, λ j other. found j)
          | inr (a, n, l, r, found) ↦ elim (h_tree_delete_lem o t k a n l r found) [
            | inl (removable, (u', ran, (xs, ys, whole, rest))) ↦
                let is : u' ≡ u = cc (run, ran) in
                let left : inorder u ≡ xs ++ ys = ap inorder (sym is) ∙ rest in
                let sorted : IsSorted o (xs ++ a ∷ ys) = subst (IsSorted o) whole s in
                let keyed : o.cmp_key a k ≡ same =
                  scan-IsKeyed (inorder t) k a
                    (sym (h_tree_search-scan t k s) ∙ ap h_tree_get_data found) in
                (
                  h_tree_search-scan u k s'
                      ∙ ap (λ zs. scan zs k) left
                      ∙ scan-without_self xs ys a k sorted keyed,
                  λ j other.
                      h_tree_search-scan u j s'
                      ∙ ap (λ zs. scan zs j) left
                      ∙ scan-without_other xs ys a j (other a keyed)
                      ∙ ap (λ zs. scan zs j) (sym whole)
                      ∙ sym (h_tree_search-scan t j s),
                )
            | inr (stuck, faults) ↦ absurd (cc (run, faults))
          ]
        ]
