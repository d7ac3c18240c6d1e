-- ===== src/Fat/Tree/Sizes.antt =====
-- The sizes that the nodes keep, and the array that they guide.
use mathlib.Core.List.{append_assoc}
use operating_system_fa_maf.Common.{
  ℕ, suc, ◌+◌, ◌≡◌, refl, sym, ap, ◌∙◌, inl, inr, List, [], ◌∷◌, ◌++◌, Option, none, some, length,
  length-append, set, length-take, length-drop, take-append-drop, take, drop, arith,
}
use operating_system_fa_maf.Fat.Tree.{
  Order, HTree, leaf, node, h_tree_size, update_size, insert, h_tree_insert,
  h_tree_flatten_preorder,
}
use operating_system_fa_maf.Fat.Tree.Search.{Sign-cases}

-- The elements: the node's, those to the left, those to the right.
unfoldable pub preorder : {A : Type 0} → HTree A → List A
preorder leaf = []
preorder (node a n l r) = a ∷ preorder l ++ preorder r

-- Each node holds the number of elements of its tree.
abbrev pub IsSized : {A : Type 0} → HTree A → Type 0
IsSized leaf = Unit {0}
IsSized (node a n l r) =
    (n ≡ suc (length (preorder l) + length (preorder r))) × (IsSized l × IsSized r)

pub size-preorder : {A : Type 0} (t : HTree A) → IsSized t → h_tree_size t ≡ length (preorder t)
unfolding h_tree_size preorder
size-preorder leaf h = refl
size-preorder (node a n l r) h = omega (arith, h.0, length-append (preorder l) (preorder r))

pub update_size-IsSized :
    {A : Type 0} (a : A) (n : ℕ) (l r : HTree A)
    → IsSized l
    → IsSized r
    → IsSized (update_size (node a n l r))
unfolding update_size
update_size-IsSized a n l r hl hr =
    (omega (arith, size-preorder l hl, size-preorder r hr), (hl, hr))

module _ (o : Order) where
  insert-IsSized : (t : HTree o.Data) (x : o.Data) → IsSized t → IsSized (insert o t x)
  unfolding insert preorder
  insert-IsSized leaf x h = (omega arith, (tt, tt))
  insert-IsSized (node a n l r) x h = elim (Sign-cases (o.cmp x a)) [
    | inl e ↦ rw e (update_size-IsSized a n (insert o l x) r (insert-IsSized l x h.1.0) h.1.1)
    | inr (inl e) ↦ rw e (update_size-IsSized a n l r h.1.0 h.1.1)
    | inr (inr e) ↦ rw e (update_size-IsSized a n l (insert o r x) h.1.0 (insert-IsSized r x h.1.1))
  ]

  -- Insertion, of NULL too, keeps the size of every node right.
  h_tree_insert-IsSized :
      (t : HTree o.Data) (x : Option o.Data) → IsSized t → IsSized (h_tree_insert o t x)
  unfolding h_tree_insert
  h_tree_insert-IsSized t none h = h
  h_tree_insert-IsSized t (some x) h = insert-IsSized t x h

set-append :
    {A : Type 0} (xs : List A) (y z : A) (ys : List A)
    → set (xs ++ y ∷ ys) (length xs) z ≡ xs ++ z ∷ ys
set-append [] y z ys = refl
set-append (x ∷ xs) y z ys = rw (set-append xs y z ys)

length-take_of : {A : Type 0} (n m : ℕ) (xs : List A) → length xs ≡ n + m → length (take n xs) ≡ n
length-take_of n m xs e = omega (arith, length-take n xs)

length-drop_of : {A : Type 0} (n m : ℕ) (xs : List A) → length xs ≡ n + m → length (drop n xs) ≡ m
length-drop_of n m xs e = omega (arith, length-drop n xs)

module _ {A : Type 0} where
  flatten-eq :
      (t : HTree A) (arr : List A) (i : ℕ) (pre mid post : List A)
      → IsSized t
      → arr ≡ pre ++ (mid ++ post)
      → i ≡ length pre
      → length mid ≡ length (preorder t)
      → h_tree_flatten_preorder t arr i ≡ pre ++ (preorder t ++ post)
  unfolding h_tree_flatten_preorder preorder
  flatten-eq leaf arr i pre [] post h e at len = e
  flatten-eq leaf arr i pre (m ∷ mid) post h e at len = absurd (omega (arith, len))
  flatten-eq (node a n l r) arr i pre [] post h e at len = absurd (omega (arith, len))
  flatten-eq (node a n l r) arr i pre (m ∷ mid) post h e at len =
      let nl = length (preorder l) in
      let nr = length (preorder r) in
      let both : length mid ≡ length (preorder l) + length (preorder r) =
        omega (arith, len, length-append (preorder l) (preorder r)) in
      let first = take nl mid in
      let second = drop nl mid in
      let split : first ++ second ≡ mid = take-append-drop nl mid in
      let placed : set arr i a ≡ (pre ++ a ∷ []) ++ (first ++ (second ++ post)) =
        ap (λ x. set x i a) e
        ∙ ap (λ j. set (pre ++ (m ∷ mid ++ post)) j a) at
        ∙ set-append pre m a (mid ++ post)
        ∙ ap (λ x. pre ++ a ∷ (x ++ post)) (sym split)
        ∙ simp append_assoc in
      let left =
        flatten-eq l (set arr i a) (i + 1) (pre ++ a ∷ []) first (second ++ post) h.1.0 placed
          (omega (arith, at, length-append pre (a ∷ []))) (length-take_of nl nr mid both) in
      let right =
        flatten-eq r (h_tree_flatten_preorder l (set arr i a) (i + 1)) (i + 1 + h_tree_size l)
          ((pre ++ a ∷ []) ++ preorder l) second post h.1.1
          (left ∙ sym (append_assoc (pre ++ a ∷ []) (preorder l) (second ++ post)))
          (omega (
            arith,
            at,
            size-preorder l h.1.0,
            length-append pre (a ∷ []),
            length-append (pre ++ a ∷ []) (preorder l),
          ))
          (length-drop_of nl nr mid both) in
      right ∙ simp append_assoc

  -- Where every node holds its size, the traversal fills as many places of the array as there are
  -- elements with the elements in preorder, and leaves what stands before and behind.
  h_tree_flatten_preorder_lem :
      (t : HTree A) (pre mid post : List A)
      → IsSized t
      → length mid ≡ length (preorder t)
      → h_tree_flatten_preorder t (pre ++ (mid ++ post)) (length pre) ≡ pre ++ (preorder t ++ post)
  h_tree_flatten_preorder_lem t pre mid post h len =
      flatten-eq t (pre ++ (mid ++ post)) (length pre) pre mid post h refl refl len
