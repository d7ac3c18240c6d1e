-- ===== src/Fat/Hierarchy/Examples.antt =====
-- The second of three children is taken out.
use operating_system_fa_maf.Common.{ℕ, zero, suc, none, some}
use operating_system_fa_maf.Fat.Hierarchy.{HNode, Nodes}
use operating_system_fa_maf.Fat.Hierarchy.Siblings.{Siblings}
use mathlib.Core.Option.{Option}

abbrev family_node : ℕ → Option ℕ → Option ℕ → Option ℕ → HNode ℕ
family_node x parent sibling children = record {
  content = x;
  h_parent = parent;
  h_next_sibling = sibling;
  h_children = children;
}

abbrev family : Nodes ℕ
family zero = some (family_node 10 none none (some 1))
family (suc zero) = some (family_node 11 (some 0) (some 2) none)
family (suc (suc zero)) = some (family_node 12 (some 0) (some 3) none)
family (suc (suc (suc zero))) = some (family_node 13 (some 0) none none)
family (suc (suc (suc (suc a)))) = none
