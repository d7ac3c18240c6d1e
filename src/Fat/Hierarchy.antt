-- ===== src/Fat/Hierarchy.antt =====
-- lab4/esqueleto/hierarchy_tree.c: the links between a directory and its children. The same nodes
-- make up the search tree; here they are a store from the address of a node to its data, which is a
-- file, and its links. An address with no node was never allocated, or has been freed: to follow
-- it is a fault. NULL is `none`. A loop runs on fuel, one round for each node that it visits.
pub mod Siblings
pub mod Unlink
mod Examples
use operating_system_fa_maf.Common.{
  ℕ, zero, suc, Bool, Option, none, some, List, [], ◌∷◌, ◌==◌, if◌then◌else◌, Run, done, fault,
  out_of_fuel, ◌>>=◌,
}
use operating_system_fa_maf.Fat.Tree.{Order, HTree, leaf, node, branch}

abbrev pub einval : ℕ
einval = 22

pub record HNode (A : Type 0) : Type 0 where
  pub content : A
  pub h_parent : Option ℕ
  pub h_next_sibling : Option ℕ
  pub h_children : Option ℕ

abbrev pub Nodes : Type 0 → Type 0
Nodes A = ℕ → Option (HNode A)

abbrev pub found : {B : Type 0} → Option B → Run B
found none = fault
found (some b) = done b

module _ {A : Type 0} where
  unfoldable pub node_at : Nodes A → ℕ → Run (HNode A)
  node_at nodes a = found (nodes a)

  unfoldable pub set_node : Nodes A → ℕ → Option (HNode A) → Nodes A
  set_node nodes a n b = if b == a then n else nodes b

  -- The new node becomes the first child of its parent.
  unfoldable pub h_node_init : Nodes A → (new : ℕ) → A → (h_parent : Option ℕ) → Run (Nodes A)
  unfolding node_at set_node
  h_node_init nodes new x none = done (
      set_node nodes new
        (some record { content = x; h_parent = none; h_next_sibling = none; h_children = none }))
  h_node_init nodes new x (some p) = node_at nodes p >>= λ parent. done (
      set_node (set_node nodes p (some (record parent { h_children = some new }))) new (
        some record {
          content = x;
          h_parent = some p;
          h_next_sibling = parent.h_children;
          h_children = none;
        }))

  unfoldable pub h_tree_get_h_parent : Nodes A → Option ℕ → Run (Option ℕ)
  unfolding node_at
  h_tree_get_h_parent nodes none = done none
  h_tree_get_h_parent nodes (some a) = node_at nodes a >>= λ n. done n.h_parent

  -- The `while` loop of `remove_child_from_h`: the node that stops it, from `iterator` on.
  unfoldable pub child_loop : (fuel : ℕ) → Nodes A → (h_child iterator : ℕ) → Run ℕ
  unfolding node_at
  child_loop zero nodes h_child iterator = out_of_fuel
  child_loop (suc fuel) nodes h_child iterator = node_at nodes iterator >>= λ n.
      elim n.h_next_sibling [
        | none ↦ done iterator
        | some next ↦
            let rest = child_loop fuel nodes h_child next in
            if next == h_child then done iterator else rest
      ]

  -- The rest of `remove_child_from_h` for a child with a parent at `p`; the number is `errno`.
  unfoldable pub remove_from_parent :
      (fuel : ℕ)
      → Nodes A
      → (h_child : ℕ) → HNode A
      → (p : ℕ) → HNode A
      → (errno : ℕ) → Run (Nodes A × ℕ)
  unfolding child_loop node_at set_node
  remove_from_parent fuel nodes h_child child p parent errno = elim parent.h_children [
    | none ↦ done (nodes, einval)
    | some first ↦
        let rest : Run (Nodes A × ℕ) = child_loop fuel nodes h_child first >>= λ iterator.
        node_at nodes iterator >>= λ n. done (
          set_node nodes iterator (some (record n { h_next_sibling = child.h_next_sibling })),
          errno,
        ) in
        if first == h_child
        then done
            (set_node nodes p (some (record parent { h_children = child.h_next_sibling })), errno)
        else rest
  ]

  unfoldable pub remove_child_from_h :
      (fuel : ℕ) → Nodes A → (h_child : ℕ) → (errno : ℕ) → Run (Nodes A × ℕ)
  unfolding remove_from_parent node_at
  remove_child_from_h fuel nodes h_child errno = node_at nodes h_child >>= λ child.
      elim child.h_parent [
        | none ↦ done (nodes, errno)
        | some p ↦
            node_at nodes p >>= λ parent. remove_from_parent fuel nodes h_child child p parent errno
      ]

  -- `h_tree_iterate_h_ancestors`, from a node on; `mod_fn` alters the data.
  unfoldable pub iterate_h_ancestors :
      (fuel : ℕ) → (mod_fn : A → A) → Nodes A → Option ℕ → Run (Nodes A)
  unfolding node_at set_node
  iterate_h_ancestors fuel mod_fn nodes none = done nodes
  iterate_h_ancestors zero mod_fn nodes (some a) = out_of_fuel
  iterate_h_ancestors (suc fuel) mod_fn nodes (some a) = node_at nodes a >>= λ n.
      iterate_h_ancestors fuel mod_fn
        (set_node nodes a (some (record n { content = mod_fn n.content }))) n.h_parent

  -- The loop of `h_tree_flatten_h_children`: the nodes whose data come into the array.
  unfoldable pub children_loop : (fuel : ℕ) → Nodes A → (child_it : Option ℕ) → Run (List ℕ)
  unfolding node_at
  children_loop fuel nodes none = done []
  children_loop zero nodes (some c) = out_of_fuel
  children_loop (suc fuel) nodes (some c) =
      node_at nodes c >>= λ n. children_loop fuel nodes n.h_next_sibling >>= λ cs. done (c ∷ cs)

  unfoldable pub flatten_h_children : (fuel : ℕ) → Nodes A → (root : ℕ) → Run (List ℕ)
  unfolding node_at children_loop
  flatten_h_children fuel nodes root =
      node_at nodes root >>= λ n. children_loop fuel nodes n.h_children

-- What insertion into the search tree and deletion from it do to the links, the elements of that
-- tree being known by their addresses.
module _ (o : Order) (addr : o.Data → ℕ) {A : Type 0} where
  unfoldable pub insert_linked :
      HTree o.Data → o.Data → A → (h_parent : Option ℕ) → Nodes A → Run (Nodes A)
  unfolding h_node_init
  insert_linked leaf x new_data h_parent nodes = h_node_init nodes (addr x) new_data h_parent
  insert_linked (node a n l r) x new_data h_parent nodes =
      branch (o.cmp x a) (insert_linked l x new_data h_parent nodes) (done nodes)
        (insert_linked r x new_data h_parent nodes)

  -- The root of the deletion is taken out of its parent's children, and freed with its data.
  unfoldable pub delete_linked :
      (fuel : ℕ) → HTree o.Data → o.Key → (errno : ℕ) → Nodes A → Run (Nodes A × ℕ)
  unfolding remove_child_from_h set_node
  delete_linked fuel leaf k errno nodes = done (nodes, errno)
  delete_linked fuel (node a n l r) k errno nodes =
      branch (o.cmp_key a k) (delete_linked fuel r k errno nodes)
        (remove_child_from_h fuel nodes (addr a) errno >>= λ result.
          done (set_node result.0 (addr a) none, result.1))
        (delete_linked fuel l k errno nodes)
