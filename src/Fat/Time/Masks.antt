-- ===== src/Fat/Time/Masks.antt =====
-- The masks of lab4/esqueleto/fat_util.c: the low bits of a word, as a remainder.
use Prim.Native.Nat.{bit_and}
use operating_system_fa_maf.Common.{ℕ, ◌%◌, ◌<◌, ◌≡◌, ◌∙◌, arith}
use operating_system_fa_maf.Common.Bits.{bit_and-mask}

pub low5 : (x : ℕ) → bit_and x 31 ≡ x % 32
low5 = bit_and-mask 5

pub low4 : (x : ℕ) → bit_and x 15 ≡ x % 16
low4 = bit_and-mask 4

pub low6 : (x : ℕ) → bit_and x 63 ≡ x % 64
low6 = bit_and-mask 6

-- Under a mask that covers it a word stays.
pub low9 : (x : ℕ) → x < 512 → bit_and x 511 ≡ x
low9 x h = bit_and-mask 9 x ∙ omega arith

pub low11 : (x : ℕ) → x < 2048 → bit_and x 2047 ≡ x
low11 x h = bit_and-mask 11 x ∙ omega arith
