-- ===== src/Fat/Hierarchy/Unlink.antt =====
-- A child is taken out of its parent's children.
use operating_system_fa_maf.Common.{
  ℕ, zero, suc, ◌<◌, ◌≡◌, refl, sym, ap, subst, inl, inr, true, false, Option, some, List, [], ◌∷◌,
  ◌++◌, ◌==◌, length, arith, Bool-cases, eq→==, ==→eq, done,
}
use operating_system_fa_maf.Fat.Table.Chain.{has}
use operating_system_fa_maf.Fat.Hierarchy.{
  HNode, Nodes, node_at, set_node, child_loop, remove_from_parent, remove_child_from_h,
}
use operating_system_fa_maf.Fat.Hierarchy.Siblings.{
  Siblings, next, has-head, Siblings-set_other, Siblings-set_same,
}

has-append : (a c : ℕ) (xs ys : List ℕ) → has a (xs ++ c ∷ ys) ≡ false → has a (xs ++ ys) ≡ false
has-append a c [] ys h = (has-head a c ys h).1
has-append a c (x ∷ xs) ys h = elim (Bool-cases (a == x)) [
  | inl e ↦ absurd (cc (e, h))
  | inr e ↦ rw e (has-append a c xs ys (has-head a x (xs ++ c ∷ ys) h).1)
]

-- What does not occur with `c` put in is not `c`.
pub has-ne : (a c : ℕ) (xs ys : List ℕ) → has a (xs ++ c ∷ ys) ≡ false → (c == a) ≡ false
has-ne a c [] ys h = (has-head a c ys h).0
has-ne a c (x ∷ xs) ys h = has-ne a c xs ys (has-head a x (xs ++ c ∷ ys) h).1

has-tail : (a c : ℕ) (cs : List ℕ) → has a cs ≡ true → has a (c ∷ cs) ≡ true
has-tail a c cs h = elim (Bool-cases (a == c)) [ inl e ↦ rw e | inr e ↦ rw (e, h) ]

has-apart : (a b : ℕ) (cs : List ℕ) → has a cs ≡ false → has b cs ≡ true → (a == b) ≡ false
has-apart a b cs h on = elim (Bool-cases (a == b)) [
  | inl same ↦ absurd (cc (ap (λ j. has j cs) (==→eq a b same), on, h))
  | inr distinct ↦ distinct
]

module _ {A : Type 0} where
  -- A child occurs once.
  pub Siblings-distinct :
      (nodes : Nodes A) (p : Option ℕ) (c : ℕ) (pre post : List ℕ)
      → Siblings nodes p (pre ++ c ∷ post)
      → has c (pre ++ post) ≡ false
  Siblings-distinct nodes p c [] post (next q e new rest) = new
  Siblings-distinct nodes p c (d ∷ pre) post (next {n = n} q e new rest) =
      let later = Siblings-distinct nodes n.h_next_sibling c pre post rest in
      let differ = has-ne d c pre post new in rw (differ, later) refl

  -- Where the loop stops, and the siblings once the link there leads past the child.
  data Passed (nodes : Nodes A) (c : ℕ) (child : HNode A) (fuel it : ℕ) (cs : List ℕ) : Type 0 where
    passed :
        {b : ℕ} {n : HNode A}
        → child_loop fuel nodes c it ≡ done b
        → nodes b ≡ some n
        → has b (it ∷ cs) ≡ true
        → Siblings
            (set_node nodes b (some (record n { h_next_sibling = child.h_next_sibling })))
            (some it)
            (it ∷ cs)
        → Passed nodes c child fuel it cs

  child_loop-Passed :
      (fuel : ℕ) (nodes : Nodes A) (p : Option ℕ) (it c : ℕ) (child : HNode A) (mid post : List ℕ)
      → nodes c ≡ some child
      → Siblings nodes p (it ∷ (mid ++ c ∷ post))
      → length mid < fuel
      → Passed nodes c child fuel it (mid ++ post)
  unfolding child_loop node_at set_node
  child_loop-Passed zero nodes p it c child mid post here s enough = absurd (omega arith)
  child_loop-Passed (suc fuel) nodes p it c child [] post here
        (next {n = n} q e new (next {n = n2} q2 e2 new2 rest)) enough =
      let run : child_loop (suc fuel) nodes c it ≡ done it = rw (e, q2, eq→== c c refl) refl in
      let same : n2 ≡ child = cc (e2, here) in
      let linked = subst (λ (r : HNode A). Siblings nodes r.h_next_sibling post) same rest in
      let cut = record n { h_next_sibling = child.h_next_sibling } in
      let later = (has-head it c post new).1 in
      let there : set_node nodes it (some cut) it ≡ some cut = rw (eq→== it it refl) refl in
      passed run e (ground arith) (
        next refl there later
          (Siblings-set_other nodes it (some cut) child.h_next_sibling post later linked))
  child_loop-Passed (suc fuel) nodes p it c child (d ∷ mid) post here
        (next {n = n} q e new (next {n = n2} q2 e2 new2 rest)) enough =
      let apart = has-ne d c mid post new2 in
      let differ : (d == c) ≡ false = ground arith in
      let others = has-append it c (d ∷ mid) post new in
      elim (child_loop-Passed fuel nodes n.h_next_sibling d c child mid post here
        (next q2 e2 new2 rest) (omega arith)) [
          | passed {b = b} {n = nb} run at on after ↦
              let more : child_loop (suc fuel) nodes c it ≡ done b = rw (e, q2, differ) run in
              let away = has-apart it b (d ∷ (mid ++ post)) others on in
              let cut = record nb { h_next_sibling = child.h_next_sibling } in
              let there : set_node nodes b (some cut) it ≡ some n = rw away e in
              let either : has b (it ∷ (d ∷ (mid ++ post))) ≡ true =
                has-tail b it (d ∷ (mid ++ post)) on in
              passed more at either (
                next refl there others (
                  subst (λ m. Siblings (set_node nodes b (some cut)) m (d ∷ (mid ++ post))) (sym q2)
                    after))
        ]

  -- What the removal of `c` from the children `pre ++ c ∷ post` of the node at `p` comes to.
  pub record Unlinked (nodes nodes' : Nodes A) (p c : ℕ) (parent : HNode A) (cs : List ℕ)
      : Type 0 where
    pub after : HNode A
    pub at_parent : nodes' p ≡ some after
    pub children : Siblings nodes' after.h_children cs
    pub parent_content : after.content ≡ parent.content
    pub others : (b : ℕ) → (b == p) ≡ false → has b cs ≡ false → nodes' b ≡ nodes b

  pub remove_child_from_h_lem :
      (fuel : ℕ) (nodes : Nodes A) (c p errno : ℕ) (child parent : HNode A) (pre post : List ℕ)
      → nodes c ≡ some child
      → child.h_parent ≡ some p
      → nodes p ≡ some parent
      → Siblings nodes parent.h_children (pre ++ c ∷ post)
      → has p (pre ++ c ∷ post) ≡ false
      → length pre < fuel
      → (nodes' : Nodes A) × (remove_child_from_h fuel nodes c errno ≡ done (nodes', errno))
        × Unlinked nodes nodes' p c parent (pre ++ post)
  unfolding remove_child_from_h remove_from_parent node_at set_node
  remove_child_from_h_lem fuel nodes c p errno child parent [] post here up there
        (next {n = n} q e new rest) apart enough =
      let after : HNode A = record parent { h_children = child.h_next_sibling } in
      let nodes' = set_node nodes p (some after) in
      let same : n ≡ child = cc (e, here) in
      let kept = Siblings-set_same nodes p parent after n.h_next_sibling post there refl rest in
      let run : remove_child_from_h fuel nodes c errno ≡ done (nodes', errno) =
        rw (here, up, there, q, eq→== c c refl) refl in
      (
        nodes',
        run,
        record {
          after = after;
          at_parent = rw (eq→== p p refl) refl;
          children = subst (λ (r : HNode A). Siblings nodes' r.h_next_sibling post) same kept;
          parent_content = refl;
          others = λ b away h. rw away refl;
        },
      )
  remove_child_from_h_lem fuel nodes c p errno child parent (d ∷ pre) post here up there
        (next {n = n} q e new rest) apart enough =
      let apart_left = has-append p c (d ∷ pre) post apart in
      let met = has-ne d c pre post new in
      let differ : (d == c) ≡ false = ground arith in
      elim (child_loop-Passed fuel nodes parent.h_children d c child pre post here
        (next q e new rest) (omega arith)) [
          | passed {b = b} {n = nb} run at on after ↦
              let cut : HNode A = record nb { h_next_sibling = child.h_next_sibling } in
              let nodes' = set_node nodes b (some cut) in
              let whole : remove_child_from_h fuel nodes c errno ≡ done (nodes', errno) =
                rw (here, up, there, q, differ, run, at) refl in
              (
                nodes',
                whole,
                record {
                  after = parent;
                  at_parent = rw (has-apart p b (d ∷ (pre ++ post)) apart_left on) there;
                  children = subst (λ m. Siblings nodes' m (d ∷ (pre ++ post))) (sym q) after;
                  parent_content = refl;
                  others = λ j away h. rw (has-apart j b (d ∷ (pre ++ post)) h on) refl;
                },
              )
        ]
