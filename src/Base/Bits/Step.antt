-- ===== src/Base/Bits/Step.antt =====
-- The native operations stand for a recursion on binary digits with a count. Without the count:
-- one equation for the lowest digit of each.
use Prim.Native.Nat.{
  ℕ, zero, suc, ◌+◌, ◌*◌, ◌/◌, ◌%◌, ◌≤◌, min, max, bit_and, bit_or, bit_xor, digits, bitwise,
  differ, bit_and-bitwise, bit_or-bitwise, bit_xor-bitwise,
}
use mathlib.Core.Path.{◌≡◌, refl}
use native.Mathlib.Nat.{le_refl}
use native.Mathlib.Omega.{arith}

module _ (rest : ℕ → ℕ) (op : ℕ → ℕ → ℕ) where
  -- Two counts that reach the number give the same digits.
  digits_count : (b n m a : ℕ) → a ≤ m → a ≤ n → digits rest op n a b ≡ digits rest op m a b
  digits_count b (suc n) (suc m) (suc a) h k =
      let next = digits_count (b / 2) n m (suc a / 2) (omega arith) (omega arith) in rw next
  digits_count b (suc n) (suc m) zero h k = refl
  digits_count b (suc n) zero zero h k = refl
  digits_count b (suc n) zero (suc a) h k = absurd (omega arith)
  digits_count b zero (suc m) (suc a) h k = absurd (omega arith)
  digits_count b zero (suc m) zero h k = refl
  digits_count b zero zero a h k = refl

  lowest_digit :
      (a b : ℕ)
      → bitwise rest op (suc a) b ≡ bitwise rest op (suc a / 2) (b / 2) * 2 + op (suc a % 2) (b % 2)
  lowest_digit a b =
      let enough = digits_count (b / 2) a (suc a / 2) (suc a / 2) (le_refl _) (omega arith) in
      omega (arith, enough)

pub bit_and_step : (x y : ℕ) → bit_and x y ≡ bit_and (x / 2) (y / 2) * 2 + min (x % 2) (y % 2)
bit_and_step (suc x) y = simp bit_and-bitwise (lowest_digit (λ _. 0) min x y)
bit_and_step zero y = simp bit_and-bitwise (omega arith)

pub bit_or_step : (x y : ℕ) → bit_or x y ≡ bit_or (x / 2) (y / 2) * 2 + max (x % 2) (y % 2)
bit_or_step (suc x) y = simp bit_or-bitwise (lowest_digit (λ r. r) max x y)
bit_or_step zero y = simp bit_or-bitwise (omega arith)

pub bit_xor_step : (x y : ℕ) → bit_xor x y ≡ bit_xor (x / 2) (y / 2) * 2 + differ (x % 2) (y % 2)
bit_xor_step (suc x) y = simp bit_xor-bitwise (lowest_digit (λ r. r) differ x y)
bit_xor_step zero y = simp bit_xor-bitwise (ground arith)

pub differ_self : (x : ℕ) → differ x x ≡ 0
differ_self zero = refl
differ_self (suc x) = differ_self x
