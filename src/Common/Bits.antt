-- ===== src/Common/Bits.antt =====
-- Operations on bit fields, digit by digit, and the join of two fields that overlap nowhere.
use Prim.Native.Nat.{bit_or, bit_or-bitwise, bit_and, bit_and-bitwise, digits, max, min}
use operating_system_fa_maf.Common.{
  ℕ, zero, suc, ◌+◌, ◌-◌, ◌*◌, ◌/◌, ◌%◌, ◌^◌, ◌≤◌, ◌<◌, ◌≡◌, refl, sym, ap, ◌∙◌, inl, inr, arith,
  Bool-cases, ltb,
}
use native.Mathlib.Nat.{
  pow-suc, one-le-pow, zero-mod, mod-lt, mod-eq_of_lt, div-add-mod, mul-add-mod_self_left,
}

-- Once the count covers the first number, more of it changes nothing.
module _ (empty : ℕ → ℕ) (op : ℕ → ℕ → ℕ) where
  one_more : (n a b : ℕ) → a ≤ n → digits empty op n a b ≡ digits empty op (suc n) a b
  one_more zero zero b covers = refl
  one_more zero (suc a) b covers = absurd (omega arith)
  one_more (suc n) zero b covers = refl
  one_more (suc n) (suc a) b covers =
      ap (λ high. high * 2 + op (suc a % 2) (b % 2)) (one_more n (suc a / 2) (b / 2) (omega arith))

  any_count : (m n a b : ℕ) → a ≤ n → n ≤ m → digits empty op n a b ≡ digits empty op m a b
  any_count zero n a b covers le =
      let same : n ≡ 0 = omega arith in ap (λ c. digits empty op c a b) same
  any_count (suc m) n a b covers le = elim (Bool-cases (ltb n (suc m))) [
    | inl lt ↦ any_count m n a b covers (ground arith) ∙ one_more m a b (ground arith)
    | inr ge ↦ let same : n ≡ suc m = ground arith in ap (λ c. digits empty op c a b) same
  ]

  -- The lowest digit apart, of a first number that is not 0.
  pub lowest :
      (a b : ℕ)
      → digits empty op (suc a) (suc a) b
        ≡ digits empty op (suc a / 2) (suc a / 2) (b / 2) * 2 + op (suc a % 2) (b % 2)
  lowest a b =
      ap (λ high. high * 2 + op (suc a % 2) (b % 2))
        (sym (any_count a (suc a / 2) (suc a / 2) (b / 2) (omega arith) (omega arith)))

pub bit_and_lowest :
    (a b : ℕ) → bit_and (suc a) b ≡ bit_and (suc a / 2) (b / 2) * 2 + min (suc a % 2) (b % 2)
bit_and_lowest a b =
    bit_and-bitwise (suc a) b
    ∙ lowest (λ b. 0) min a b
    ∙ ap (λ high. high * 2 + min (suc a % 2) (b % 2)) (sym (bit_and-bitwise (suc a / 2) (b / 2)))

bit_or_lowest :
    (a b : ℕ) → bit_or (suc a) b ≡ bit_or (suc a / 2) (b / 2) * 2 + max (suc a % 2) (b % 2)
bit_or_lowest a b =
    bit_or-bitwise (suc a) b
    ∙ lowest (λ b. b) max a b
    ∙ ap (λ high. high * 2 + max (suc a % 2) (b % 2)) (sym (bit_or-bitwise (suc a / 2) (b / 2)))

-- A field of `w` bits, joined with a number that stands `w` bits higher.
pub bit_or-shift : (w low high : ℕ) → low < 2 ^ w → bit_or low (high * 2 ^ w) ≡ low + high * 2 ^ w
bit_or-shift w zero high fits = bit_or-bitwise 0 (high * 2 ^ w) ∙ omega arith
bit_or-shift zero (suc low) high fits = absurd (omega arith)
bit_or-shift (suc w) (suc low) high fits =
    let twice = pow-suc 2 w in
    let place : high * 2 ^ suc w ≡ high * 2 ^ w * 2 = omega (arith, ap (λ p. high * p) twice) in
    let rest = bit_or-shift w (suc low / 2) high (omega (arith, twice)) in
    let halved : (high * 2 ^ w * 2) / 2 ≡ high * 2 ^ w = omega arith in
    rw (place, bit_or_lowest low (high * 2 ^ w * 2), halved, rest) (omega arith)

bit_and_none : (fuel a : ℕ) → a ≤ fuel → bit_and a 0 ≡ 0
bit_and_none fuel zero h = bit_and-bitwise 0 0
bit_and_none zero (suc a) h = absurd (omega arith)
bit_and_none (suc fuel) (suc a) h =
    omega (arith, bit_and_lowest a 0, bit_and_none fuel (suc a / 2) (omega arith))

-- The remainder by an even number, its lowest digit apart.
mod_double : (a p : ℕ) → 0 < p → a % (p * 2) ≡ (a / 2) % p * 2 + a % 2
mod_double a p pos =
    let q = a / 2 / p in
    let r = (a / 2) % p in
    let whole : p * (a / 2 / p) + (a / 2) % p ≡ a / 2 = div-add-mod (a / 2) p in
    let small : (a / 2) % p < p = mod-lt (a / 2) pos in
    let swap : (p * 2) * q ≡ p * q * 2 = omega arith in
    let parts : a ≡ (p * 2) * q + (r * 2 + a % 2) = omega (arith, whole, swap) in
    ap (λ x. x % (p * 2)) parts
    ∙ mul-add-mod_self_left (p * 2) q (r * 2 + a % 2)
    ∙ mod-eq_of_lt (omega arith)

-- A mask of the lowest `w` bits.
pub bit_and-mask : (w a : ℕ) → bit_and a (2 ^ w - 1) ≡ a % 2 ^ w
bit_and-mask zero a = bit_and_none a a (omega arith) ∙ omega arith
bit_and-mask (suc w) zero = bit_and-bitwise 0 (2 ^ suc w - 1) ∙ sym (zero-mod (2 ^ suc w))
bit_and-mask (suc w) (suc a) =
    let twice = pow-suc 2 w in
    let pos : 1 ≤ 2 ^ w = one-le-pow w 2 (omega arith) in
    let double : 2 ^ suc w ≡ 2 ^ w * 2 = omega (arith, twice) in
    let half : (2 ^ w * 2 - 1) / 2 ≡ 2 ^ w - 1 = omega arith in
    let odd : (2 ^ w * 2 - 1) % 2 ≡ 1 = omega arith in
    let rest = bit_and-mask w (suc a / 2) in
    rw (double, bit_and_lowest a (2 ^ w * 2 - 1), half, odd, rest, mod_double (suc a) (2 ^ w) pos)
      (omega arith)
