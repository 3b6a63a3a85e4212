-- ===== src/Transfer/Format.antt =====
-- src/bootloader/flash_services.c: the address and length field of services 0x34 and 0x35.
use uds.Base.{
  ℕ, ◌+◌, ◌*◌, ◌/◌, ◌%◌, ◌^◌, ◌≤◌, ◌<◌, ◌≡◌, ◌↔◌, ◌⊎◌, refl, ◌∙◌, none, some, List, [], ◌∷◌, ◌++◌,
  bit_or, bit_and, length, take, drop, All, arith, ap, ap₂, take-append, drop-append, length-append,
}
use uds.Base.Bits.{IsByte, bit_or_shifted, bit_and_15}
use uds.Transfer.{big_endian, parse_addr_len_fmt}

-- The number that bytes stand for after `value`, in base 256, unbounded.
pub number : ℕ → List ℕ → ℕ
number value [] = value
number value (b ∷ bytes) = number (value * 256 + b) bytes

le-number : (value : ℕ) (bytes : List ℕ) → value ≤ number value bytes
unfolding number
le-number value [] = omega arith
le-number value (b ∷ bytes) = omega (arith, le-number (value * 256 + b) bytes)

-- The shifts of the code lose nothing while the number fits 32 bits.
big_endian-number :
    (value : ℕ) (bytes : List ℕ)
    → All IsByte bytes
    → number value bytes < 2 ^ 32
    → big_endian value bytes ≡ number value bytes
unfolding big_endian number
big_endian-number value [] a h = refl
big_endian-number value (b ∷ bytes) a h =
    ap (λ v. big_endian v bytes) shifted ∙ big_endian-number (value * 256 + b) bytes a.1 h
  where
    small : value * 256 + b < 2 ^ 32
    small = omega (arith, le-number (value * 256 + b) bytes, h)

    shifted : bit_or (value * 2 ^ 8 % 2 ^ 32) b ≡ value * 256 + b
    shifted = ground (arith, small, a.0, bit_or_shifted 8 value b)

-- Four bytes fit.
number_small : (bytes : List ℕ) → All IsByte bytes → length bytes ≤ 4 → number 0 bytes < 2 ^ 32
unfolding number
number_small [] a h = omega arith
number_small (b ∷ []) a h = omega arith
number_small (b ∷ c ∷ []) a h = omega arith
number_small (b ∷ c ∷ d ∷ []) a h = omega arith
number_small (b ∷ c ∷ d ∷ e ∷ []) a h = omega arith
number_small (b ∷ c ∷ d ∷ e ∷ f ∷ bytes) a h = absurd (omega arith)

parsed :
    (fmt : ℕ) (bytes : List ℕ) (m n : ℕ)
    → bit_and fmt 0x0F ≡ m
    → bit_and (fmt / 2 ^ 4) 0x0F ≡ n
    → (1 ≤ m) × (m ≤ 4)
    → (1 ≤ n) × (n ≤ 4)
    → m + n ≤ length bytes
    → parse_addr_len_fmt fmt bytes
      ≡ some (big_endian 0 (take m bytes), big_endian 0 (take n (drop m bytes)))
unfolding parse_addr_len_fmt
parsed fmt bytes m n low high hm hn fits = rw (low, high) (ground arith)

-- A field is refused exactly when one of the two lengths in its format byte is not 1 to 4, or there
-- are too few bytes for them.
pub parse_addr_len_fmt-none_iff :
    (fmt : ℕ) (bytes : List ℕ)
    → fmt < 256
    → (parse_addr_len_fmt fmt bytes ≡ none) ↔ (
        (fmt % 16 ≡ 0)
        ⊎ (4 < fmt % 16)
        ⊎ (fmt / 16 ≡ 0)
        ⊎ (4 < fmt / 16)
        ⊎ (length bytes < fmt % 16 + fmt / 16))
unfolding parse_addr_len_fmt
parse_addr_len_fmt-none_iff fmt bytes h = (
  λ e. ground (arith, bit_and_15 fmt, bit_and_15 (fmt / 2 ^ 4), e),
  λ e. ground (arith, bit_and_15 fmt, bit_and_15 (fmt / 2 ^ 4), e),
)

-- A field of one to four address bytes, then one to four size bytes, each high byte first, is read
-- as the two numbers; what follows them is not looked at.
pub parse_addr_len_fmt_lem :
    (fmt : ℕ) (addr size rest : List ℕ)
    → All IsByte addr
    → All IsByte size
    → (1 ≤ length addr) × (length addr ≤ 4)
    → (1 ≤ length size) × (length size ≤ 4)
    → fmt ≡ length size * 16 + length addr
    → parse_addr_len_fmt fmt (addr ++ (size ++ rest)) ≡ some (number 0 addr, number 0 size)
parse_addr_len_fmt_lem fmt addr size rest a s la ls e =
    parsed fmt (addr ++ (size ++ rest)) (length addr) (length size) (omega (arith, bit_and_15 fmt))
      (omega (arith, bit_and_15 (fmt / 2 ^ 4))) la ls
      (omega (arith, length-append addr (size ++ rest), length-append size rest))
    ∙ rw (drop-append addr (size ++ rest), take-append addr (size ++ rest), take-append size rest)
        (ap₂ (λ v w. some (v, w)) (big_endian-number 0 addr a (number_small addr a la.1))
          (big_endian-number 0 size s (number_small size s ls.1)))
