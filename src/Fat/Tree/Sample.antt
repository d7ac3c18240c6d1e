-- ===== src/Fat/Tree/Sample.antt =====
-- Trees of numbers, which are their own keys, for the tests.
use Prim.Native.Nat.{compare, Ordering}
use operating_system_fa_maf.Common.{ℕ, ◌≡◌, arith}
use operating_system_fa_maf.Fat.Tree.{Sign, below, same, above, opposite, Order, HTree, leaf, node}

abbrev pub sign : ℕ → ℕ → Sign
sign a b = elim (compare a b) [ Ordering.lt ↦ below | Ordering.eq ↦ same | Ordering.gt ↦ above ]

pub sign-opposite : (a b : ℕ) → sign a b ≡ opposite (sign b a)
sign-opposite a b = ground arith

pub sign_self : (a : ℕ) → sign a a ≡ same
sign_self a = ground arith

abbrev pub numbers : Order
numbers = record {
  Data = ℕ;
  Key = ℕ;
  cmp = sign;
  cmp_key = sign;
  key = λ a. a;
  cmp_key-key = sign-opposite;
  cmp_self = sign_self;
}

abbrev pub three : HTree ℕ
three = node 5 3 (node 2 1 leaf leaf) (node 9 1 leaf leaf)
