-- ===== src/Base/Bits.antt =====
-- The C operators `&`, `|` and `^` on unsigned numbers, as arithmetic.
mod Step
use Step.{bit_and_step, bit_or_step, bit_xor_step, differ_self}
use Prim.Native.Nat.{
  ℕ, zero, suc, ◌+◌, ◌*◌, ◌/◌, ◌%◌, ◌^◌, ◌<◌, ◌≤◌, bit_and, bit_or, bit_xor, bit_or-bitwise,
  bit_xor-bitwise,
}
use mathlib.Core.Path.{◌≡◌, refl, ap, sym, ◌∙◌}
use mathlib.Core.Logic.{◌↔◌, ◌⊎◌, inl, inr}
use mathlib.Core.Bool.{Bool, true, false, ◌&&◌}
use native.Mathlib.Nat.{pow-suc}
use native.Mathlib.Omega.{arith}
use uds.Base.Tests.{◌==◌, ==_iff, if◌then◌else◌}

abbrev pub IsByte : ℕ → Type 0
IsByte b = b < 256

-- A test that holds at every number below a bound, by evaluation.
unfoldable pub holds_below : (ℕ → Bool) → ℕ → Bool
holds_below test zero = true
holds_below test (suc bound) = if test bound then holds_below test bound else false

pub holds_below_at :
    (test : ℕ → Bool) (bound x : ℕ) → x < bound → holds_below test bound ≡ true → test x ≡ true
unfolding holds_below
holds_below_at test (suc bound) x lt all = ground (arith, holds_below_at test bound x)
holds_below_at test zero x lt all = absurd (omega arith)

-- A number and 0, by recursion on a bound for the number.
and_zero_upto : (n a : ℕ) → a ≤ n → bit_and a 0 ≡ 0
and_zero_upto n zero h = refl
and_zero_upto zero (suc a) h = absurd (omega arith)
and_zero_upto (suc n) (suc a) h =
    omega (arith, bit_and_step (suc a) 0, and_zero_upto n (suc a / 2) (omega arith))

or_zero_upto : (n a : ℕ) → a ≤ n → bit_or a 0 ≡ a
or_zero_upto n zero h = refl
or_zero_upto zero (suc a) h = absurd (omega arith)
or_zero_upto (suc n) (suc a) h =
    omega (arith, bit_or_step (suc a) 0, or_zero_upto n (suc a / 2) (omega arith))

pub bit_and-zero : (a : ℕ) → bit_and a 0 ≡ 0
bit_and-zero a = and_zero_upto a a (omega arith)

pub bit_or-zero : (a : ℕ) → bit_or a 0 ≡ a
bit_or-zero a = or_zero_upto a a (omega arith)

-- Low masks, one bit more at each step.
pub bit_and_1 : (a : ℕ) → bit_and a 0x01 ≡ a % 2
bit_and_1 a = omega (arith, bit_and_step a 1, bit_and-zero (a / 2))

bit_and_3 : (a : ℕ) → bit_and a 3 ≡ a % 4
bit_and_3 a = omega (arith, bit_and_step a 3, bit_and_1 (a / 2))

bit_and_7 : (a : ℕ) → bit_and a 7 ≡ a % 8
bit_and_7 a = omega (arith, bit_and_step a 7, bit_and_3 (a / 2))

pub bit_and_15 : (a : ℕ) → bit_and a 0x0F ≡ a % 16
bit_and_15 a = omega (arith, bit_and_step a 15, bit_and_7 (a / 2))

bit_and_31 : (a : ℕ) → bit_and a 31 ≡ a % 32
bit_and_31 a = omega (arith, bit_and_step a 31, bit_and_15 (a / 2))

bit_and_63 : (a : ℕ) → bit_and a 63 ≡ a % 64
bit_and_63 a = omega (arith, bit_and_step a 63, bit_and_31 (a / 2))

pub bit_and_127 : (a : ℕ) → bit_and a 0x7F ≡ a % 128
bit_and_127 a = omega (arith, bit_and_step a 127, bit_and_63 (a / 2))

pub bit_and_255 : (a : ℕ) → bit_and a 0xFF ≡ a % 256
bit_and_255 a = omega (arith, bit_and_step a 255, bit_and_127 (a / 2))

bit_and_511 : (a : ℕ) → bit_and a 511 ≡ a % 512
bit_and_511 a = omega (arith, bit_and_step a 511, bit_and_255 (a / 2))

bit_and_1023 : (a : ℕ) → bit_and a 1023 ≡ a % 1024
bit_and_1023 a = omega (arith, bit_and_step a 1023, bit_and_511 (a / 2))

pub bit_and_2047 : (a : ℕ) → bit_and a 0x7FF ≡ a % 2048
bit_and_2047 a = omega (arith, bit_and_step a 2047, bit_and_1023 (a / 2))

-- `(a << k) | b` is a sum when `b` fits `k` bits.
pub bit_or_shifted : (k a b : ℕ) → b < 2 ^ k → bit_or (a * 2 ^ k) b ≡ a * 2 ^ k + b
bit_or_shifted zero a b h = ground (arith, bit_or-zero a)
bit_or_shifted (suc k) a b h = ground (
  arith,
  ap (λ (t : ℕ). a * t) (pow-suc 2 k),
  pow-suc 2 k,
  bit_or_step (a * 2 ^ suc k) b,
  bit_or_shifted k a (b / 2) (omega (arith, pow-suc 2 k)),
)

-- A PCI nibble above a nibble.
or_nibble_table :
    holds_below
      (λ y. bit_or 0x10 y == 0x10 + y && (bit_or 0x20 y == 0x20 + y && bit_or 0x30 y == 0x30 + y))
      16
    ≡ true
unfolding holds_below
or_nibble_table = refl

pub or_nibble :
    (y : ℕ)
    → y < 16
    → (bit_or 0x10 y ≡ 0x10 + y) × (bit_or 0x20 y ≡ 0x20 + y) × (bit_or 0x30 y ≡ 0x30 + y)
or_nibble y h = ground (arith, holds_below_at nibbles 16 y h or_nibble_table)
  where
    nibbles : ℕ → Bool
    nibbles y =
        bit_or 0x10 y == 0x10 + y && (bit_or 0x20 y == 0x20 + y && bit_or 0x30 y == 0x30 + y)

-- The top bit of a byte.
top_bit_table : holds_below (λ x. bit_and x 0x80 == x / 128 * 128) 256 ≡ true
unfolding holds_below
top_bit_table = refl

pub bit_and_128 : (x : ℕ) → x < 256 → bit_and x 0x80 ≡ x / 128 * 128
bit_and_128 x h =
    (==_iff _ _).0 (holds_below_at (λ x. bit_and x 0x80 == x / 128 * 128) 256 x h top_bit_table)

-- `|` is zero when both sides are.
or_eq_zero_upto : (n a b : ℕ) → a ≤ n → bit_or a b ≡ 0 → (a ≡ 0) × (b ≡ 0)
or_eq_zero_upto n zero b le h = (refl, sym (simp bit_or-bitwise refl) ∙ h)
or_eq_zero_upto zero (suc a) b le h = absurd (omega arith)
or_eq_zero_upto (suc n) (suc a) b le h = ground (
  arith,
  bit_or_step (suc a) b,
  or_eq_zero_upto n (suc a / 2) (b / 2) (omega arith) (omega (arith, bit_or_step (suc a) b)),
)

pub bit_or_eq_zero : (a b : ℕ) → bit_or a b ≡ 0 → (a ≡ 0) × (b ≡ 0)
bit_or_eq_zero a b = or_eq_zero_upto a a b (omega arith)

-- `^` is zero exactly at equal sides, and undoes itself.
zero-bit_xor : (b : ℕ) → bit_xor 0 b ≡ b
zero-bit_xor b = simp bit_xor-bitwise refl

xor_self_upto : (n a : ℕ) → a ≤ n → bit_xor a a ≡ 0
xor_self_upto n zero h = refl
xor_self_upto zero (suc a) h = absurd (omega arith)
xor_self_upto (suc n) (suc a) h = ground (
  arith,
  bit_xor_step (suc a) (suc a),
  differ_self (suc a % 2),
  xor_self_upto n (suc a / 2) (omega arith),
)

pub bit_xor_self : (a : ℕ) → bit_xor a a ≡ 0
bit_xor_self a = xor_self_upto a a (omega arith)

xor_eq_zero_upto : (n a b : ℕ) → a ≤ n → bit_xor a b ≡ 0 → a ≡ b
xor_eq_zero_upto n zero b le h = sym (sym (zero-bit_xor b) ∙ h)
xor_eq_zero_upto zero (suc a) b le h = absurd (omega arith)
xor_eq_zero_upto (suc n) (suc a) b le h = ground (
  arith,
  bit_xor_step (suc a) b,
  xor_eq_zero_upto n (suc a / 2) (b / 2) (omega arith) (omega (arith, bit_xor_step (suc a) b)),
)

pub bit_xor_eq_zero : (a b : ℕ) → bit_xor a b ≡ 0 → a ≡ b
bit_xor_eq_zero a b = xor_eq_zero_upto a a b (omega arith)
