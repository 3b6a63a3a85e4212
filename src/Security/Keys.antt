-- ===== src/Security/Keys.antt =====
-- src/core/security.c: the key that answers a seed, and the comparison without early exit.
use uds.Base.{ℕ, ◌+◌, ◌≡◌, refl, ◌↔◌, List, [], ◌∷◌, length, bit_or, bit_xor, arith}
use uds.Base.Bits.{bit_or_eq_zero, bit_xor_eq_zero, bit_xor_self}
use uds.Security.{compute_key_from, compute_key, mismatch}

length-compute_key_from : (i : ℕ) (seed : List ℕ) → length (compute_key_from i seed) ≡ length seed
unfolding compute_key_from
length-compute_key_from i [] = refl
length-compute_key_from i (s ∷ seed) = omega (arith, length-compute_key_from (i + 1) seed)

pub length-compute_key : (seed : List ℕ) → length (compute_key seed) ≡ length seed
unfolding compute_key
length-compute_key seed = length-compute_key_from 0 seed

-- An accumulator that is not zero stays so, and a difference shows.
mismatch_zero :
    (acc : ℕ) (key expected : List ℕ)
    → length key ≡ length expected
    → mismatch acc key expected ≡ 0
    → (acc ≡ 0) × (key ≡ expected)
unfolding mismatch
mismatch_zero acc [] [] e h = (h, refl)
mismatch_zero acc [] (x ∷ expected) e h = absurd (omega arith)
mismatch_zero acc (k ∷ key) [] e h = absurd (omega arith)
mismatch_zero acc (k ∷ key) (x ∷ expected) e h = ground (
  arith,
  mismatch_zero (bit_or acc (bit_xor k x)) key expected (omega arith) h,
  bit_or_eq_zero acc (bit_xor k x),
  bit_xor_eq_zero k x,
)

mismatch_self : (key : List ℕ) → mismatch 0 key key ≡ 0
unfolding mismatch
mismatch_self [] = refl
mismatch_self (k ∷ key) = rw (bit_xor_self k) (mismatch_self key)

-- The loop ends in zero exactly when the keys agree byte by byte.
pub mismatch-zero_iff :
    (key expected : List ℕ)
    → length key ≡ length expected
    → (mismatch 0 key expected ≡ 0) ↔ (key ≡ expected)
mismatch-zero_iff key expected e =
    (λ h. (mismatch_zero 0 key expected e h).1, λ h. rw h (mismatch_self expected))
