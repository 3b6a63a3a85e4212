-- ===== src/Base/Lists.antt =====
-- Lists measured and indexed by native numbers, under the library's names, and the two ways in
-- which the code moves bytes: `memset` then `memcpy` into a cleared block (`pad`), and `memcpy`
-- over a part of an array (`blit`).
use Prim.Native.Nat.{ℕ, zero, suc, ◌+◌, ◌-◌, ◌≤◌, ◌<◌, min}
use mathlib.Core.Path.{◌≡◌, refl, ap, ◌∙◌}
use mathlib.Core.Logic.{◌⊎◌}
use mathlib.Core.List.{List, [], ◌∷◌, ◌++◌}
use native.Mathlib.Omega.{arith}

module _ {ℓ} {A : Type ℓ} where
  abbrev pub length : List A → ℕ
  length [] = 0
  length (x ∷ xs) = suc (length xs)

  abbrev pub get_or : List A → ℕ → A → A
  get_or [] i d = d
  get_or (x ∷ xs) zero d = x
  get_or (x ∷ xs) (suc i) d = get_or xs i d

  abbrev pub take : ℕ → List A → List A
  take zero xs = []
  take (suc n) [] = []
  take (suc n) (x ∷ xs) = x ∷ take n xs

  abbrev pub drop : ℕ → List A → List A
  drop zero xs = xs
  drop (suc n) [] = []
  drop (suc n) (x ∷ xs) = drop n xs

  abbrev pub replicate : ℕ → A → List A
  replicate zero a = []
  replicate (suc n) a = a ∷ replicate n a

  -- A predicate on every member.
  abbrev pub All {κ} : (A → Type κ) → List A → Type κ
  All P [] = Unit
  All P (x ∷ xs) = P x × All P xs

  -- A predicate on some member.
  abbrev pub Any : (A → Type 0) → List A → Type 0
  Any P [] = ⊥
  Any P (x ∷ xs) = P x ⊎ Any P xs

  -- `n` cells, the first ones taken from the list and the others `d`.
  abbrev pub pad : ℕ → A → List A → List A
  pad zero d xs = []
  pad (suc n) d [] = d ∷ pad n d []
  pad (suc n) d (x ∷ xs) = x ∷ pad n d xs

  -- `memcpy(&cells[at], bytes, n)`: what would lie past the end is dropped.
  unfoldable pub blit : List A → ℕ → List A → List A
  blit [] at bytes = []
  blit (c ∷ cs) (suc at) bytes = c ∷ blit cs at bytes
  blit (c ∷ cs) zero [] = c ∷ cs
  blit (c ∷ cs) zero (b ∷ bs) = b ∷ blit cs zero bs

  -- `memcpy(buf, &cells[at], n)`
  abbrev pub slice : List A → ℕ → ℕ → List A
  slice cells at n = take n (drop at cells)

module _ {ℓ} {A : Type ℓ} where
  pub length-append : (xs ys : List A) → length (xs ++ ys) ≡ length xs + length ys
  length-append [] ys = omega arith
  length-append (x ∷ xs) ys = omega (arith, length-append xs ys)

  pub length-pad : (n : ℕ) (d : A) (xs : List A) → length (pad n d xs) ≡ n
  length-pad zero d xs = refl
  length-pad (suc n) d [] = ap suc (length-pad n d [])
  length-pad (suc n) d (x ∷ xs) = ap suc (length-pad n d xs)

  pub take-append-drop : (n : ℕ) (xs : List A) → take n xs ++ drop n xs ≡ xs
  take-append-drop zero xs = refl
  take-append-drop (suc n) [] = refl
  take-append-drop (suc n) (x ∷ xs) = ap (◌∷◌ x) (take-append-drop n xs)

  pub length-take : (n : ℕ) (xs : List A) → length (take n xs) ≡ min n (length xs)
  length-take zero xs = omega arith
  length-take (suc n) [] = omega arith
  length-take (suc n) (x ∷ xs) = omega (arith, length-take n xs)

  pub length-drop : (n : ℕ) (xs : List A) → length (drop n xs) ≡ length xs - n
  length-drop zero xs = omega arith
  length-drop (suc n) [] = omega arith
  length-drop (suc n) (x ∷ xs) = omega (arith, length-drop n xs)

  pub length-replicate : (n : ℕ) (a : A) → length (replicate n a) ≡ n
  length-replicate zero a = refl
  length-replicate (suc n) a = ap suc (length-replicate n a)

  pub take_all : (n : ℕ) (xs : List A) → length xs ≤ n → take n xs ≡ xs
  take_all zero [] h = refl
  take_all zero (x ∷ xs) h = absurd (omega arith)
  take_all (suc n) [] h = refl
  take_all (suc n) (x ∷ xs) h = ap (◌∷◌ x) (take_all n xs (omega arith))

  pub take-append : (xs ys : List A) → take (length xs) (xs ++ ys) ≡ xs
  take-append [] ys = refl
  take-append (x ∷ xs) ys = ap (◌∷◌ x) (take-append xs ys)

  -- What was put into a padded block is what is read from its front.
  pub take-pad : (n : ℕ) (d : A) (xs : List A) → length xs ≤ n → take (length xs) (pad n d xs) ≡ xs
  take-pad n d [] h = refl
  take-pad zero d (x ∷ xs) h = absurd (omega arith)
  take-pad (suc n) d (x ∷ xs) h = ap (◌∷◌ x) (take-pad n d xs (omega arith))

  -- Bytes that were copied to the front are what is read there.
  pub take-blit :
      (cells bytes : List A)
      → length bytes ≤ length cells
      → take (length bytes) (blit cells 0 bytes) ≡ bytes
  unfolding blit
  take-blit cells [] h = refl
  take-blit [] (b ∷ bytes) h = absurd (omega arith)
  take-blit (x ∷ cells) (b ∷ bytes) h = ap (◌∷◌ b) (take-blit cells bytes (omega arith))

  pub drop-append : (xs ys : List A) → drop (length xs) (xs ++ ys) ≡ ys
  drop-append [] ys = refl
  drop-append (x ∷ xs) ys = drop-append xs ys

  pub get_or-default : (xs : List A) (i : ℕ) (d : A) → length xs ≤ i → get_or xs i d ≡ d
  get_or-default [] i d out = refl
  get_or-default (x ∷ xs) zero d out = absurd (omega arith)
  get_or-default (x ∷ xs) (suc i) d out = get_or-default xs i d (omega arith)

  pub get_or-pad : (n i : ℕ) (d : A) (xs : List A) → i < n → get_or (pad n d xs) i d ≡ get_or xs i d
  get_or-pad zero i d xs h = absurd (omega arith)
  get_or-pad (suc n) zero d [] h = refl
  get_or-pad (suc n) (suc i) d [] h = get_or-pad n i d [] (omega arith)
  get_or-pad (suc n) zero d (x ∷ xs) h = refl
  get_or-pad (suc n) (suc i) d (x ∷ xs) h = get_or-pad n i d xs (omega arith)

  -- What stands behind a header in a padded block is read from there.
  pub slice-pad :
      (n : ℕ) (d : A) (header xs : List A)
      → length header + length xs ≤ n
      → slice (pad n d (header ++ xs)) (length header) (length xs) ≡ xs
  slice-pad n d [] xs h = take-pad n d xs (omega arith)
  slice-pad zero d (y ∷ header) xs h = absurd (omega arith)
  slice-pad (suc n) d (y ∷ header) xs h = slice-pad n d header xs (omega arith)

  pub replicate-add : (m n : ℕ) (a : A) → replicate m a ++ replicate n a ≡ replicate (m + n) a
  replicate-add zero n a = ap (λ k. replicate k a) {x = n} {y = 0 + n} (omega arith)
  replicate-add (suc m) n a =
      ap (◌∷◌ a) (replicate-add m n a)
      ∙ ap (λ k. replicate k a) {x = suc (m + n)} {y = suc m + n} (omega arith)

module _ {ℓ κ} {A : Type ℓ} (P : A → Type κ) where
  pub All-take : (n : ℕ) (xs : List A) → All P xs → All P (take n xs)
  All-take zero xs all = tt
  All-take (suc n) [] all = tt
  All-take (suc n) (x ∷ xs) (p, all) = (p, All-take n xs all)

  pub All-drop : (n : ℕ) (xs : List A) → All P xs → All P (drop n xs)
  All-drop zero xs all = all
  All-drop (suc n) [] all = tt
  All-drop (suc n) (x ∷ xs) (p, all) = All-drop n xs all

  pub All-get_or : (xs : List A) (i : ℕ) (d : A) → All P xs → P d → P (get_or xs i d)
  All-get_or [] i d all p = p
  All-get_or (x ∷ xs) zero d (q, all) p = q
  All-get_or (x ∷ xs) (suc i) d (q, all) p = All-get_or xs i d all p

  pub All-append : (xs ys : List A) → All P xs → All P ys → All P (xs ++ ys)
  All-append [] ys all all' = all'
  All-append (x ∷ xs) ys (p, all) all' = (p, All-append xs ys all all')
