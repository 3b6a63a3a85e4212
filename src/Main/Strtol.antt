-- ===== src/Main/Strtol.antt =====
-- `strtol` of the C library with base 0, as src/ecusim/main.c calls it.
use uds.Base.{
  ℕ, ◌+◌, ◌-◌, ◌*◌, ◌^◌, min, Bool, true, false, ◌&&◌, ◌||◌, Option, none, some, List, [], ◌∷◌, ltb,
  leb, ◌==◌, if◌then◌else◌,
}
use uds.Base.Int.{ℤ, pos, sub_ℕ}

-- `isspace`
abbrev is_space : ℕ → Bool
is_space c = c == b' ' || (leb 9 c && leb c 13)

abbrev letter : ℕ → ℕ → Option ℕ
letter base value = if ltb value base then some value else none

-- The value of a digit in the base.
abbrev digit_of : ℕ → ℕ → Option ℕ
digit_of base c =
    if leb b'0' c && leb c b'9'
    then letter base (c - b'0')
    else if leb b'a' c && leb c b'z'
    then letter base (c - b'a' + 10)
    else if leb b'A' c && leb c b'Z'
    then letter base (c - b'A' + 10)
    else none

-- The number that the digits at the front stand for, after `value`, and what follows them.
abbrev digits : ℕ → ℕ → List ℕ → ℕ × List ℕ
digits base value [] = (value, [])
digits base value (c ∷ rest) = elim (digit_of base c) [
  | none ↦ (value, c ∷ rest)
  | some d ↦ digits base (value * base + d) rest
]

-- 0x, and a hexadecimal digit behind it.
abbrev is_hex : List ℕ → Bool
is_hex (x ∷ d ∷ rest) =
    (x == b'x' || x == b'X') && (elim (digit_of 16 d) [ none ↦ false | some _ ↦ true ])
is_hex _ = false

abbrev tail : List ℕ → List ℕ
tail [] = []
tail (x ∷ rest) = rest

-- A number without a sign; none where there is no digit.
abbrev magnitude : List ℕ → Option (ℕ × List ℕ)
magnitude [] = none
magnitude (c ∷ rest) =
    if c == b'0'
    then (if is_hex rest then some (digits 16 0 (tail rest)) else some (digits 8 0 (c ∷ rest)))
    else elim (digit_of 10 c) [ none ↦ none | some _ ↦ some (digits 10 0 (c ∷ rest)) ]

-- A `long` has 64 bits: the values beyond are the nearest ones.
abbrev positive : Option (ℕ × List ℕ) → Option (ℤ × List ℕ)
positive none = none
positive (some (value, end)) = some (pos (min value (2 ^ 63 - 1)), end)

abbrev negative : Option (ℕ × List ℕ) → Option (ℤ × List ℕ)
negative none = none
negative (some (value, end)) = some (sub_ℕ 0 (min value (2 ^ 63)), end)

abbrev signed : List ℕ → Option (ℤ × List ℕ)
signed [] = none
signed (c ∷ rest) =
    if c == b'-'
    then negative (magnitude rest)
    else if c == b'+'
    then positive (magnitude rest)
    else positive (magnitude (c ∷ rest))

-- The value, and the bytes from `*endptr` on; none where nothing is converted.
unfoldable pub strtol : List ℕ → Option (ℤ × List ℕ)
strtol [] = none
strtol (c ∷ rest) = let more = strtol rest in if is_space c then more else signed (c ∷ rest)
