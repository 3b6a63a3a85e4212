-- ===== src/Flash/Ranges.antt =====
-- Address ranges of src/bootloader/flash.c: what `find_region` finds.
use uds.Base.{
  ℕ, ◌+◌, ◌≤◌, ◌<◌, ◌≡◌, ◌≢◌, ◌↔◌, inl, inr, refl, true, false, none, some, List, [], ◌∷◌, All, Any,
  Bool-cases, arith, subst,
}
use uds.Flash.{Region, Flash, covers, find_region, address_valid, flash_max_size}

-- The range [address, address + len) starts in the region and ends there at the latest.
abbrev pub IsInside : Region → ℕ → ℕ → Type 0
IsInside r address len =
    (r.base_address ≤ address)
    × (address < r.base_address + r.size)
    × (address + len ≤ r.base_address + r.size)

-- The unsigned comparisons of the code say just that.
pub covers_iff :
    (r : Region) (address len : ℕ) → (covers r address len ≡ true) ↔ IsInside r address len
covers_iff r address len = (λ h. ground arith, λ h. ground (arith, h))

pub find_region-IsInside :
    (regions : List Region) (address len : ℕ) (r : Region)
    → find_region regions address len ≡ some r
    → IsInside r address len
unfolding find_region
find_region-IsInside [] address len r h = absurd (cc)
find_region-IsInside (x ∷ regions) address len r h =
    ground (arith, h, covers_iff x address len, find_region-IsInside regions address len r)

pub find_region-All {ℓ} :
    (P : Region → Type ℓ) (regions : List Region) (address len : ℕ) (r : Region)
    → All P regions
    → find_region regions address len ≡ some r
    → P r
unfolding find_region
find_region-All P [] address len r a h = absurd (cc)
find_region-All P (x ∷ regions) address len r a h = elim (Bool-cases (covers x address len)) [
  | inl t ↦ subst P (let same : x ≡ r = ground arith in same) a.0
  | inr t ↦ find_region-All P regions address len r a.1 (ground arith)
]

pub find_region-Any :
    (regions : List Region) (address len : ℕ)
    → (find_region regions address len ≢ none) ↔ Any (λ r. IsInside r address len) regions
unfolding find_region
find_region-Any [] address len = (λ h. absurd (h refl), λ i. absurd i)
find_region-Any (x ∷ regions) address len = elim (Bool-cases (covers x address len)) [
  | inl t ↦ (λ h. inl ((covers_iff x address len).0 t), λ i h. ground arith)
  | inr t ↦ (
    λ h. inr ((find_region-Any regions address len).0 (ground arith)),
    λ i. elim i [
      | inl here ↦ absurd (ground (arith, (covers_iff x address len).1 here))
      | inr there ↦ ground (arith, (find_region-Any regions address len).1 there)
    ],
  )
]

-- `uds_flash_address_valid` decides whether a range is not empty and lies inside one region.
pub address_valid_iff :
    (flash : Flash) (address len : ℕ)
    → (address_valid false flash address len ≡ true)
      ↔ ((0 < len) × Any (λ r. IsInside r address len) flash.regions)
unfolding address_valid
address_valid_iff flash address len = (
  λ h. (ground arith, (find_region-Any flash.regions address len).0 (ground arith)),
  λ (pos, some_region).
      ground (arith, pos, (find_region-Any flash.regions address len).1 some_region),
)

-- A region that the device holds in full.
abbrev pub InDevice : Region → Type 0
InDevice r = r.base_address + r.size ≤ flash_max_size
