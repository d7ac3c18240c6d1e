-- ===== src/Fat/Hierarchy/Siblings.antt =====
-- The children of a directory as a chain of siblings, and the traversal of them.
use operating_system_fa_maf.Common.{
  ℕ, zero, suc, ◌<◌, ◌≡◌, refl, sym, ap, subst, ◌∙◌, inl, inr, false, Option, none, some, List, [],
  ◌∷◌, ◌==◌, length, arith, Bool-cases, eq→==, ==→eq, done,
}
use operating_system_fa_maf.Fat.Table.Chain.{has}
use operating_system_fa_maf.Fat.Hierarchy.{
  HNode, Nodes, node_at, set_node, h_node_init, children_loop, flatten_h_children,
}

pub set_node_self :
    {A : Type 0} (nodes : Nodes A) (a : ℕ) (n : Option (HNode A)) → set_node nodes a n a ≡ n
unfolding set_node
set_node_self nodes a n = rw (eq→== a a refl) refl

pub set_node_other :
    {A : Type 0} (nodes : Nodes A) (a b : ℕ) (n : Option (HNode A))
    → (b == a) ≡ false
    → set_node nodes a n b ≡ nodes b
unfolding set_node
set_node_other nodes a b n away = rw away refl

-- From a pointer on the siblings are the distinct nodes of the list.
pub data Siblings {A : Type 0} (nodes : Nodes A) : Option ℕ → List ℕ → Type 0 where
  last : {p : Option ℕ} → p ≡ none → Siblings nodes p []
  next :
      {p : Option ℕ} {c : ℕ} {n : HNode A} {cs : List ℕ}
      → p ≡ some c
      → nodes c ≡ some n
      → has c cs ≡ false
      → Siblings nodes n.h_next_sibling cs
      → Siblings nodes p (c ∷ cs)

pub has-head :
    (a c : ℕ) (cs : List ℕ) → has a (c ∷ cs) ≡ false → ((c == a) ≡ false) × (has a cs ≡ false)
has-head a c cs h = elim (Bool-cases (a == c)) [
  | inl e ↦ absurd (cc (e, h))
  | inr e ↦ (ground arith, cc (e, h))
]

module _ {A : Type 0} where
  -- A store of nodes that keeps the siblings where the list has them.
  pub Siblings-set_other :
      (nodes : Nodes A) (a : ℕ) (x : Option (HNode A)) (it : Option ℕ) (cs : List ℕ)
      → has a cs ≡ false
      → Siblings nodes it cs
      → Siblings (set_node nodes a x) it cs
  unfolding set_node
  Siblings-set_other nodes a x it cs h (last p) = last p
  Siblings-set_other nodes a x it cs h (next {c = c} {n = n} {cs = ds} p e new rest) =
      let (differ, later) = has-head a c ds h in
      let there : set_node nodes a x c ≡ some n = rw differ e in
      next p there new (Siblings-set_other nodes a x n.h_next_sibling ds later rest)

  pub Siblings-set_same :
      (nodes : Nodes A) (a : ℕ) (old n : HNode A) (it : Option ℕ) (cs : List ℕ)
      → nodes a ≡ some old
      → n.h_next_sibling ≡ old.h_next_sibling
      → Siblings nodes it cs
      → Siblings (set_node nodes a (some n)) it cs
  unfolding set_node
  Siblings-set_same nodes a old n it cs was same (last p) = last p
  Siblings-set_same nodes a old n it cs was same (next {c = c} {n = n0} {cs = ds} p e new rest) =
      let after = Siblings-set_same nodes a old n n0.h_next_sibling ds was same rest in
      elim (Bool-cases (c == a)) [
        | inl here ↦
            let there : set_node nodes a (some n) c ≡ some n = rw here refl in
            let old_is : old ≡ n0 = cc (was, ap nodes (==→eq c a here), e) in
            let linked = same ∙ ap (λ (r : HNode A). r.h_next_sibling) old_is in
            next p there new
              (subst (λ m. Siblings (set_node nodes a (some n)) m ds) (sym linked) after)
        | inr away ↦
            let there : set_node nodes a (some n) c ≡ some n0 = rw away e in next p there new after
      ]

  children_loop_lem :
      (fuel : ℕ) (nodes : Nodes A) (it : Option ℕ) (cs : List ℕ)
      → Siblings nodes it cs
      → length cs < fuel
      → children_loop fuel nodes it ≡ done cs
  unfolding children_loop node_at
  children_loop_lem zero nodes it cs s enough = absurd (omega arith)
  children_loop_lem (suc fuel) nodes it cs (last p) enough = rw p refl
  children_loop_lem (suc fuel) nodes it cs (next {n = n} {cs = ds} p e new rest) enough =
      rw (p, e, children_loop_lem fuel nodes n.h_next_sibling ds rest (omega arith)) refl

  -- With fuel for each child of a directory the traversal returns the children in their order.
  pub flatten_h_children_lem :
      (fuel : ℕ) (nodes : Nodes A) (root : ℕ) (n : HNode A) (cs : List ℕ)
      → nodes root ≡ some n
      → Siblings nodes n.h_children cs
      → length cs < fuel
      → flatten_h_children fuel nodes root ≡ done cs
  unfolding flatten_h_children node_at
  flatten_h_children_lem fuel nodes root n cs e s enough =
      rw e (children_loop_lem fuel nodes n.h_children cs s enough)

  -- The store with a new node as the first child of the node at `p`.
  pub record IsLinked (nodes nodes' : Nodes A) (new p : ℕ) (x : A) (parent : HNode A) (cs : List ℕ)
      : Type 0 where
    pub parent_after : HNode A
    pub child : HNode A
    pub at_parent : nodes' p ≡ some parent_after
    pub at_child : nodes' new ≡ some child
    pub siblings : Siblings nodes' parent_after.h_children (new ∷ cs)
    pub parent_content : parent_after.content ≡ parent.content
    pub content : child.content ≡ x
    pub up : child.h_parent ≡ some p
    pub no_children : child.h_children ≡ none
    pub others : (b : ℕ) → (b == p) ≡ false → (b == new) ≡ false → nodes' b ≡ nodes b

  -- A new node at a free address becomes the first child of its parent, before the children that
  -- there were, and has no children itself; the other nodes are as they were.
  pub h_node_init_lem :
      (nodes : Nodes A) (new : ℕ) (x : A) (p : ℕ) (parent : HNode A) (cs : List ℕ)
      → nodes p ≡ some parent
      → nodes new ≡ none
      → Siblings nodes parent.h_children cs
      → has new cs ≡ false
      → (nodes' : Nodes A) × (h_node_init nodes new x (some p) ≡ done nodes')
        × IsLinked nodes nodes' new p x parent cs
  unfolding h_node_init node_at set_node
  h_node_init_lem nodes new x p parent cs e free s distinct =
      let parent' = record parent { h_children = some new } in
      let n : HNode A = record {
        content = x;
        h_parent = some p;
        h_next_sibling = parent.h_children;
        h_children = none;
      } in
      let one = set_node nodes p (some parent') in
      let apart : (p == new) ≡ false = elim (Bool-cases (p == new)) [
        | inl same ↦ absurd (cc (ap nodes (==→eq p new same), e, free))
        | inr differ ↦ differ
      ] in
      let kept =
        Siblings-set_other one new (some n) parent.h_children cs distinct
          (Siblings-set_same nodes p parent parent' parent.h_children cs e refl s) in
      let first : set_node one new (some n) new ≡ some n = rw (eq→== new new refl) refl in
      rw e (
        set_node one new (some n),
        refl,
        record {
          parent_after = parent';
          child = n;
          at_parent = rw (apart, eq→== p p refl) refl;
          at_child = first;
          siblings = next refl first distinct kept;
          parent_content = refl;
          content = refl;
          up = refl;
          no_children = refl;
          others = λ b away other. rw (other, away) refl;
        },
      )
