-- ===== src/Fat/Volume/Powers.antt =====
-- That `is_power_of_2` and `bsr` find the powers of two.
use Prim.Native.Nat.{bit_and, min}
use operating_system_fa_maf.Common.{
  ℕ, zero, suc, ◌+◌, ◌-◌, ◌*◌, ◌/◌, ◌%◌, ◌^◌, ◌≤◌, ◌<◌, ◌≡◌, ◌≢◌, refl, sym, ap, ◌∙◌, inl, inr,
  true, false, ltb, ◌==◌, arith, Bool-cases,
}
use operating_system_fa_maf.Common.Bits.{bit_and_lowest, bit_and-mask}
use native.Mathlib.Nat.{pow-suc, one-le-pow, mod_self}
use operating_system_fa_maf.Fat.Volume.{bsr_on, bsr, is_power_of_2}

bit_and_self : (fuel a : ℕ) → a ≤ fuel → bit_and a a ≡ a
bit_and_self zero zero h = refl
bit_and_self (suc fuel) zero h = refl
bit_and_self zero (suc a) h = absurd (omega arith)
bit_and_self (suc fuel) (suc a) h =
    omega (arith, bit_and_lowest a (suc a), bit_and_self fuel (suc a / 2) (omega arith))

-- A number that has no bit in common with the one before it is the power of two that its highest bit
-- is.
power_of_bsr_on : (fuel n : ℕ) → n < fuel → bit_and (suc n) n ≡ 0 → suc n ≡ 2 ^ bsr_on fuel (suc n)
unfolding bsr_on
power_of_bsr_on zero n h e = absurd (omega arith)
power_of_bsr_on (suc fuel) zero h e = refl
power_of_bsr_on (suc fuel) (suc n) h e =
    let m = n / 2 in
    let step = bit_and_lowest (suc n) (suc n) in
    let half : suc (suc n) / 2 ≡ suc m = omega arith in
    let self = bit_and_self (suc m) (suc m) (omega arith) in
    elim (Bool-cases (n % 2 == 0)) [
      | inl even ↦
          let rem : n % 2 ≡ 0 = ground arith in
          let below : suc n / 2 ≡ m = omega arith in
          let zero_and : bit_and (suc m) m ≡ 0 = omega (
            arith,
            e,
            step
                ∙ ap (λ h. bit_and h (suc n / 2) * 2 + min (suc (suc n) % 2) (suc n % 2)) half
                ∙ ap (λ h. bit_and (suc m) h * 2 + min (suc (suc n) % 2) (suc n % 2)) below,
          ) in
          let ih = power_of_bsr_on fuel m (omega arith) zero_and in
          let size : suc (suc n) ≡ 2 ^ suc (bsr_on fuel (suc m)) =
            omega (arith, ih, pow-suc 2 (bsr_on fuel (suc m))) in
          let big : ltb (suc (suc n)) 2 ≡ false = ground arith in rw (big, half) size
      | inr odd ↦
          let rem : n % 2 ≢ 0 = ground arith in
          let below : suc n / 2 ≡ suc m = omega arith in
          absurd (
            omega (
              arith,
              e,
              self,
              step
                  ∙ ap (λ h. bit_and h (suc n / 2) * 2 + min (suc (suc n) % 2) (suc n % 2)) half
                  ∙ ap (λ h. bit_and (suc m) h * 2 + min (suc (suc n) % 2) (suc n % 2)) below,
            ))
    ]

pub power_of_bsr : (n : ℕ) → is_power_of_2 n ≡ true → n ≡ 2 ^ bsr n
unfolding is_power_of_2 bsr
power_of_bsr zero h = absurd (ground arith)
power_of_bsr (suc n) h =
    let pred : suc n - 1 ≡ n = omega arith in
    let meet : bit_and (suc n) (suc n - 1) ≡ 0 = ground arith in
    power_of_bsr_on (suc n) n (omega arith) (ap (bit_and (suc n)) (sym pred) ∙ meet)

bsr_on-pow : (fuel k : ℕ) → k < fuel → bsr_on fuel (2 ^ k) ≡ k
unfolding bsr_on
bsr_on-pow zero k h = absurd (omega arith)
bsr_on-pow (suc fuel) zero h = refl
bsr_on-pow (suc fuel) (suc k) h =
    let twice = pow-suc 2 k in
    let pos : 1 ≤ 2 ^ k = one-le-pow k 2 (omega arith) in
    let half : 2 ^ suc k / 2 ≡ 2 ^ k = omega (arith, twice) in
    let big : ltb (2 ^ suc k) 2 ≡ false = ground (arith, twice) in
    rw (big, half, bsr_on-pow fuel k (omega arith))

lt_pow : (k : ℕ) → k < 2 ^ k
lt_pow zero = omega arith
lt_pow (suc k) = omega (arith, lt_pow k, pow-suc 2 k)

pub bsr-pow : (k : ℕ) → bsr (2 ^ k) ≡ k
unfolding bsr
bsr-pow k = bsr_on-pow (2 ^ k) k (lt_pow k)

pub is_power_of_2_pow : (k : ℕ) → is_power_of_2 (2 ^ k) ≡ true
unfolding is_power_of_2
is_power_of_2_pow k =
    let pos : 1 ≤ 2 ^ k = one-le-pow k 2 (omega arith) in
    let clear : bit_and (2 ^ k) (2 ^ k - 1) ≡ 0 = bit_and-mask k (2 ^ k) ∙ mod_self (2 ^ k) in
    rw clear (ground arith)
