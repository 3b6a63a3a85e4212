-- ===== src/Flash/Memory.antt =====
-- src/bootloader/flash.c: what erasing, writing and reading do to the bytes of the device.
use uds.Base.{
  pad, ℕ, zero, suc, ◌+◌, ◌-◌, ◌%◌, ◌^◌, ◌≤◌, ◌<◌, ◌≡◌, ◌⊎◌, inl, inr, refl, Bool, false, List, [],
  ◌∷◌, ◌++◌, length, get_or, All, Option-cases, arith, ap, ap₂, ◌∙◌,
}
use uds.Flash.{Region, Flash, ok, find_region, patch, peek, flash_erase, flash_write, flash_read}
use uds.Flash.Ranges.{find_region-IsInside, find_region-All}

pub length-peek : (cells : ℕ → ℕ) (address n : ℕ) → length (peek cells address n) ≡ n
unfolding peek
length-peek cells address zero = refl
length-peek cells address (suc n) = ap suc (length-peek cells (address + 1) n)

pub peek-add :
    (cells : ℕ → ℕ) (address m n : ℕ)
    → peek cells address (m + n) ≡ peek cells address m ++ peek cells (address + m) n
unfolding peek
peek-add cells address zero n =
    ap₂ (peek cells) {x = address} {y = address + 0} (omega arith) (omega arith)
peek-add cells address (suc m) n =
    let e : suc m + n ≡ suc (m + n) = omega arith in
    rw e (
      ap (◌∷◌ (cells address)) (
        peek-add cells (address + 1) m n
        ∙ ap (λ a. peek cells (address + 1) m ++ peek cells a n) (omega arith)))

-- Two memories that agree on a range read alike there.
pub peek-agree :
    (cells other : ℕ → ℕ) (address n : ℕ)
    → ((a : ℕ) → address ≤ a → a < address + n → cells a ≡ other a)
    → peek cells address n ≡ peek other address n
unfolding peek
peek-agree cells other address zero h = refl
peek-agree cells other address (suc n) h =
    ap₂ ◌∷◌ (h address (omega arith) (omega arith))
      (peek-agree cells other (address + 1) n (λ a lo hi. h a (omega arith) (omega arith)))

-- What was copied in is what is read.
peek-get_or :
    (cells : ℕ → ℕ) (bytes : List ℕ) (address : ℕ)
    → ((i : ℕ) → i < length bytes → cells (address + i) ≡ get_or bytes i 0)
    → peek cells address (length bytes) ≡ bytes
unfolding peek
peek-get_or cells [] address h = refl
peek-get_or cells (b ∷ bytes) address h =
    ap₂ ◌∷◌ (ap cells {x = address} {y = address + 0} (omega arith) ∙ h 0 (omega arith)) (
      peek-get_or cells bytes (address + 1) (λ i lt.
        ap cells {x = address + 1 + i} {y = address + suc i} (omega arith)
        ∙ h (suc i) (omega arith)))

-- What is read is what the cells hold.
pub get_or-peek :
    (cells : ℕ → ℕ) (bytes : List ℕ) (address i d : ℕ)
    → peek cells address (length bytes) ≡ bytes
    → i < length bytes
    → cells (address + i) ≡ get_or bytes i d
unfolding peek
get_or-peek cells [] address i d same small = absurd (omega arith)
get_or-peek cells (b ∷ bytes) address zero d same small =
    let first : cells address ≡ b = cc in
    ap cells {x = address + 0} {y = address} (omega arith) ∙ first
get_or-peek cells (b ∷ bytes) address (suc i) d same small =
    let others : peek cells (address + 1) (length bytes) ≡ bytes = cc in
    ap cells {x = address + suc i} {y = address + 1 + i} (omega arith)
    ∙ get_or-peek cells bytes (address + 1) i d others (omega arith)

-- A read of bytes with a filler behind them.
pub peek-pad :
    (cells : ℕ → ℕ) (bytes : List ℕ) (address n d : ℕ)
    → ((i : ℕ) → i < n → cells (address + i) ≡ get_or bytes i d)
    → peek cells address n ≡ pad n d bytes
unfolding peek
peek-pad cells bytes address zero d h = refl
peek-pad cells [] address (suc n) d h =
    ap₂ ◌∷◌ (ap cells {x = address} {y = address + 0} (omega arith) ∙ h 0 (omega arith)) (
      peek-pad cells [] (address + 1) n d (λ i lt.
        ap cells {x = address + 1 + i} {y = address + suc i} (omega arith)
        ∙ h (suc i) (omega arith)))
peek-pad cells (b ∷ bytes) address (suc n) d h =
    ap₂ ◌∷◌ (ap cells {x = address} {y = address + 0} (omega arith) ∙ h 0 (omega arith)) (
      peek-pad cells bytes (address + 1) n d (λ i lt.
        ap cells {x = address + 1 + i} {y = address + suc i} (omega arith)
        ∙ h (suc i) (omega arith)))

pub peek-patch :
    (cells : ℕ → ℕ) (bytes : List ℕ) (address : ℕ)
    → peek (patch cells address bytes) address (length bytes) ≡ bytes
peek-patch cells bytes address =
    peek-get_or (patch cells address bytes) bytes address
      λ i lt. let e : address + i - address ≡ i = omega arith in rw e (ground arith)

-- An address outside every region that may be written.
abbrev pub IsReadOnly : List Region → ℕ → Type 0
IsReadOnly regions a =
    All (λ r. r.protected ≡ false → (a < r.base_address) ⊎ (r.base_address + r.size ≤ a)) regions

-- No erase and no write changes a byte of a protected region, or one outside all regions.
pub flash_erase-protects :
    (null : Bool) (flash : Flash) (address len a : ℕ)
    → IsReadOnly flash.regions a
    → (flash_erase null flash address len).1.cells a ≡ flash.cells a
unfolding flash_erase
flash_erase-protects null flash address len a ro =
    elim (Option-cases (find_region flash.regions address len)) [
      | inl missing ↦ ground (arith, missing)
      | inr (r, found) ↦ ground (
        arith,
        found,
        find_region-IsInside flash.regions address len r found,
        find_region-All
            (λ r. r.protected ≡ false → (a < r.base_address) ⊎ (r.base_address + r.size ≤ a))
            flash.regions address len r ro found,
      )
    ]

pub flash_write-protects :
    (null : Bool) (flash : Flash) (address : ℕ) (bytes : List ℕ) (a : ℕ)
    → length bytes < 2 ^ 32
    → IsReadOnly flash.regions a
    → (flash_write null flash address bytes).1.cells a ≡ flash.cells a
unfolding flash_write
flash_write-protects null flash address bytes a small ro =
    elim (Option-cases (find_region flash.regions address (length bytes % 2 ^ 32))) [
      | inl missing ↦ ground (arith, missing)
      | inr (r, found) ↦ ground (
        arith,
        found,
        find_region-IsInside flash.regions address (length bytes % 2 ^ 32) r found,
        find_region-All
            (λ r. r.protected ≡ false → (a < r.base_address) ⊎ (r.base_address + r.size ≤ a))
            flash.regions address (length bytes % 2 ^ 32) r ro found,
      )
    ]

-- A write of fewer than 2^32 bytes that succeeds is read back from where it was told to go.
pub flash_read-flash_write :
    (flash : Flash) (address : ℕ) (bytes : List ℕ)
    → length bytes < 2 ^ 32
    → (flash_write false flash address bytes).0 ≡ ok
    → flash_read false (flash_write false flash address bytes).1 address (length bytes)
      ≡ (ok, bytes)
unfolding flash_write flash_read
flash_read-flash_write flash address bytes small h =
    ground (arith, h, peek-patch flash.cells bytes address)
