-- ===== src/Fat/Tree/Sorted.antt =====
-- The order of the search tree: what its elements are in, and that insertions and deletions keep it.

use operating_system_fa_maf.Common.{
  ℕ, ◌≡◌, ◌≢◌, refl, sym, ap, subst, ◌∙◌, ◌⊎◌, inl, inr, List, [], ◌∷◌, ◌++◌, Option, none, some,
  done,
}
use operating_system_fa_maf.Fat.Tree.{
  below, above, opposite, Order, HTree, leaf, node, update_size, insert, h_tree_search,
  h_tree_insert,
}
use operating_system_fa_maf.Fat.Tree.Search.{Sign-cases}
use operating_system_fa_maf.Fat.Tree.Delete.{h_tree_delete}
use operating_system_fa_maf.Fat.Tree.Delete.Removal.{
  inorder, Without, h_tree_delete_lem, h_tree_delete_absent,
}

-- What makes the comparisons those of a linear order.
pub record IsLinear (o : Order) : Type 0 where
  pub cmp_of_key : (a b : o.Data) → o.cmp_key a (o.key b) ≡ o.cmp a b
  pub below_below :
      (a b : o.Data) (k : o.Key) → o.cmp a b ≡ below → o.cmp_key b k ≢ above → o.cmp_key a k ≡ below
  pub above_above :
      (a b : o.Data) (k : o.Key) → o.cmp a b ≡ below → o.cmp_key a k ≢ below → o.cmp_key b k ≡ above

module _ {A : Type 0} where
  abbrev pub All : (A → Type 0) → List A → Type 0
  All P [] = Unit {0}
  All P (x ∷ xs) = P x × All P xs

  pub All-append : (P : A → Type 0) (xs ys : List A) → All P xs → All P ys → All P (xs ++ ys)
  All-append P [] ys h k = k
  All-append P (x ∷ xs) ys h k = (h.0, All-append P xs ys h.1 k)

  pub All-left : (P : A → Type 0) (xs ys : List A) → All P (xs ++ ys) → All P xs
  All-left P [] ys h = tt
  All-left P (x ∷ xs) ys h = (h.0, All-left P xs ys h.1)

  pub All-right : (P : A → Type 0) (xs ys : List A) → All P (xs ++ ys) → All P ys
  All-right P [] ys h = h
  All-right P (x ∷ xs) ys h = All-right P xs ys h.1

  pub All-imp : (P Q : A → Type 0) (xs : List A) → ((a : A) → P a → Q a) → All P xs → All Q xs
  All-imp P Q [] f h = tt
  All-imp P Q (x ∷ xs) f h = (f x h.0, All-imp P Q xs f h.1)

module _ (o : Order) where
  -- Each element compares as below all those behind it.
  abbrev pub IsSorted : List o.Data → Type 0
  IsSorted [] = Unit {0}
  IsSorted (a ∷ xs) = All (λ b. o.cmp a b ≡ below) xs × IsSorted xs

  -- All of the one list are below all of the other.
  abbrev pub Under : List o.Data → List o.Data → Type 0
  Under xs ys = All (λ a. All (λ b. o.cmp a b ≡ below) ys) xs

  pub IsSorted-append :
      (xs ys : List o.Data) → IsSorted xs → IsSorted ys → Under xs ys → IsSorted (xs ++ ys)
  IsSorted-append [] ys sx sy under = sy
  IsSorted-append (x ∷ xs) ys sx sy under =
      (All-append _ xs ys sx.0 under.0, IsSorted-append xs ys sx.1 sy under.1)

  pub IsSorted-parts :
      (xs ys : List o.Data) → IsSorted (xs ++ ys) → IsSorted xs × IsSorted ys × Under xs ys
  IsSorted-parts [] ys s = (tt, s, tt)
  IsSorted-parts (x ∷ xs) ys s =
      let (sx, sy, under) = IsSorted-parts xs ys s.1 in
      ((All-left _ xs ys s.0, sx), sy, (All-right _ xs ys s.0, under))

  abbrev pub IsOrdered : HTree o.Data → Type 0
  IsOrdered t = IsSorted (inorder t)

  -- Without one element they are sorted still.
  Without-IsOrdered : (a : o.Data) (t u : HTree o.Data) → IsOrdered t → Without a t u → IsOrdered u
  Without-IsOrdered a t u s (xs, ys, e, e') =
      let (sx, sy, under) = IsSorted-parts xs (a ∷ ys) (subst IsSorted e s) in
      subst IsSorted (sym e') (IsSorted-append xs ys sx sy.1 (All-imp _ _ xs (λ b h. h.1) under))

module _ (o : Order) (linear : IsLinear o) where
  cmp_trans : (a b c : o.Data) → o.cmp a b ≡ below → o.cmp b c ≡ below → o.cmp a c ≡ below
  cmp_trans a b c ab bc =
      let bc' : o.cmp_key b (o.key c) ≡ below = linear.cmp_of_key b c ∙ bc in
      sym (linear.cmp_of_key a c) ∙ linear.below_below a b (o.key c) ab (λ e. cc)

  cmp-above : (a x : o.Data) → o.cmp x a ≡ above → o.cmp a x ≡ below
  cmp-above a x e = sym (linear.cmp_of_key a x) ∙ o.cmp_key-key a x ∙ ap opposite e

  insert-All :
      (P : o.Data → Type 0) (t : HTree o.Data) (x : o.Data)
      → P x
      → All P (inorder t)
      → All P (inorder (insert o t x))
  unfolding insert inorder update_size
  insert-All P leaf x p h = (p, tt)
  insert-All P (node a n l r) x p h =
      let hl = All-left P (inorder l) (a ∷ inorder r) h in
      let hr = All-right P (inorder l) (a ∷ inorder r) h in
      elim (Sign-cases (o.cmp x a)) [
        | inl e ↦
            rw e (All-append P (inorder (insert o l x)) (a ∷ inorder r) (insert-All P l x p hl) hr)
        | inr (inl e) ↦ rw e h
        | inr (inr e) ↦ rw e (
            All-append P (inorder l) (a ∷ inorder (insert o r x)) hl
              (hr.0, insert-All P r x p hr.1))
      ]

  insert-IsOrdered : (t : HTree o.Data) (x : o.Data) → IsOrdered o t → IsOrdered o (insert o t x)
  unfolding insert inorder update_size
  insert-IsOrdered leaf x s = (tt, tt)
  insert-IsOrdered (node a n l r) x s =
      let (sl, sr, under) = IsSorted-parts o (inorder l) (a ∷ inorder r) s in
      elim (Sign-cases (o.cmp x a)) [
        | inl e ↦
            let beyond : All (λ c. o.cmp x c ≡ below) (a ∷ inorder r) =
              (e, All-imp _ _ (inorder r) (λ b. cmp_trans x a b e) sr.0) in
            rw e (
              IsSorted-append o (inorder (insert o l x)) (a ∷ inorder r) (insert-IsOrdered l x sl)
                sr
                (insert-All (λ b. All (λ c. o.cmp b c ≡ below) (a ∷ inorder r)) l x beyond under))
        | inr (inl e) ↦ rw e s
        | inr (inr e) ↦
            let ax = cmp-above a x e in
            rw e (
              IsSorted-append o (inorder l) (a ∷ inorder (insert o r x)) sl
                (insert-All (λ b. o.cmp a b ≡ below) r x ax sr.0, insert-IsOrdered r x sr.1)
                (All-imp _ _ (inorder l)
                  (λ b h.
                    (h.0, insert-All (λ c. o.cmp b c ≡ below) r x (cmp_trans b a x h.0 ax) h.1))
                  under))
      ]

  pub h_tree_insert-IsOrdered :
      (t : HTree o.Data) (x : Option o.Data) → IsOrdered o t → IsOrdered o (h_tree_insert o t x)
  unfolding h_tree_insert
  h_tree_insert-IsOrdered t none s = s
  h_tree_insert-IsOrdered t (some x) s = insert-IsOrdered t x s

pub node_or_leaf :
    {A : Type 0} (t : HTree A)
    → (t ≡ leaf) ⊎ ((a : A) × (n : ℕ) × (l : HTree A) × (r : HTree A) × (t ≡ node a n l r))
node_or_leaf leaf = inl refl
node_or_leaf (node a n l r) = inr (a, n, l, r, refl)

module _ (o : Order) where
  pub h_tree_delete-IsOrdered :
      (t u : HTree o.Data) (k : Option o.Key)
      → IsOrdered o t
      → h_tree_delete o t k ≡ done u
      → IsOrdered o u
  unfolding h_tree_delete
  h_tree_delete-IsOrdered t u none s run = subst (IsOrdered o) (cc run) s
  h_tree_delete-IsOrdered t u (some k) s run = elim (node_or_leaf (h_tree_search o t (some k))) [
    | inl absent ↦
        let (u', ran, keeps) = h_tree_delete_absent o t k absent in
        let same : u' ≡ u = cc (run, ran) in
        subst (IsOrdered o) same (subst (IsSorted o) (sym keeps) s)
    | inr (a, n, l, r, found) ↦ elim (h_tree_delete_lem o t k a n l r found) [
      | inl (removable, (u', ran, without)) ↦
          let same : u' ≡ u = cc (run, ran) in
          subst (IsOrdered o) same (Without-IsOrdered o a t u' s without)
      | inr (stuck, faults) ↦ absurd (cc (run, faults))
    ]
  ]
