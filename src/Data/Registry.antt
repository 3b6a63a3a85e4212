-- ===== src/Data/Registry.antt =====
-- The DID registry of src/core/data.c as a map: an update through the found entry, and what a lookup sees of it.
use mathlib.Core.Option
use mathlib.Core.Path.{subst}
use uds.Base.{
  ℕ, ◌≤◌, ◌≡◌, inl, inr, none, some, List, [], ◌∷◌, ◌==◌, if◌then◌else◌, arith, length, take, All,
  length-take, Bool-cases,
}
use uds.Data.{DidEntry, did_find, did_update}

-- The entry that is found has the identifier.
pub did_find-did_id :
    (reg : List DidEntry) (did : ℕ) (e : DidEntry) → did_find reg did ≡ some e → e.did_id ≡ did
unfolding did_find
did_find-did_id [] did e h = cc
did_find-did_id (x ∷ reg) did e h = ground (arith, did_find-did_id reg did e)

-- A lookup after an update that keeps the identifiers.
pub did_find-did_update :
    (reg : List DidEntry) (did k : ℕ) (f : DidEntry → DidEntry)
    → ((e : DidEntry) → (f e).did_id ≡ e.did_id)
    → did_find (did_update reg did f) k
      ≡ (if k == did then Option.map f (did_find reg k) else did_find reg k)
unfolding did_find did_update
did_find-did_update [] did k f h = ground arith
did_find-did_update (x ∷ reg) did k f h = ground (arith, h x, did_find-did_update reg did k f h)

-- Every entry has a buffer that holds its `data_len` bytes.
abbrev pub IsFull : DidEntry → Type 0
IsFull e = (d : List ℕ) × (e.buffer ≡ some d) × (e.data_len ≤ length d)

-- The value that an entry stands for.
abbrev pub value : DidEntry → List ℕ
value e = elim e.buffer [ none ↦ [] | some d ↦ take e.data_len d ]

pub length-value : (e : DidEntry) → IsFull e → length (value e) ≡ e.data_len
length-value e f = ground (arith, f, length-take e.data_len f.0)

pub did_find-All {ℓ} :
    (P : DidEntry → Type ℓ) (reg : List DidEntry) (did : ℕ) (e : DidEntry)
    → All P reg
    → did_find reg did ≡ some e
    → P e
unfolding did_find
did_find-All P [] did e a h = absurd (cc)
did_find-All P (x ∷ reg) did e a h = elim (Bool-cases (x.did_id == did)) [
  | inl t ↦ subst P (let same : x ≡ e = ground arith in same) a.0
  | inr t ↦ did_find-All P reg did e a.1 (ground arith)
]
