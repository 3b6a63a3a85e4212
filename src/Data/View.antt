-- ===== src/Data/View.antt =====
-- The services 0x22 and 0x2E of src/core/data.c see a registry only through its lookups: its order, and
-- entries behind another one of the same identifier, make no difference.
use uds.Base.{
  ℕ, ◌+◌, ◌≡◌, inl, inr, refl, Bool, false, some, List, [], ◌∷◌, ◌++◌, ◌==◌, Bool-cases,
  Option-cases, arith,
}
use uds.Core.{byte_at, low_byte}
use uds.Data.{DidEntry, did_find, read_records, record_bytes, read_did, write_did}
use uds.Data.Write.{write_did-effect}

abbrev pub SameLookups : List DidEntry → List DidEntry → Type 0
SameLookups r s = (k : ℕ) → did_find r k ≡ did_find s k

read_records-same :
    (r s : List DidEntry) (resp : List ℕ) (resp_size : ℕ) (dids : List ℕ) (pos : ℕ) (out : List ℕ)
    → SameLookups r s
    → read_records r resp resp_size dids pos out ≡ read_records s resp resp_size dids pos out
unfolding read_records
read_records-same r s resp resp_size [] pos out same = refl
read_records-same r s resp resp_size (did ∷ dids) pos out same =
    elim (Option-cases (did_find s did)) [
      | inl missing ↦ ground (arith, same did, missing)
      | inr (e, found) ↦ ground (
        arith,
        same did,
        found,
        read_records-same r s resp resp_size dids (pos + (2 + e.data_len))
            (out ++ (byte_at did 8 ∷ low_byte did ∷ record_bytes resp (pos + 2) e)) same,
      )
    ]

pub read_did-same :
    (null : Bool) (r s : List DidEntry) (dids resp : List ℕ) (resp_size : ℕ)
    → SameLookups r s
    → read_did null r dids resp resp_size ≡ read_did null s dids resp resp_size
unfolding read_did
read_did-same null r s dids resp resp_size same =
    ground (arith, read_records-same r s resp resp_size dids 1 (0x62 ∷ []) same)

write_did-reply :
    (null : Bool) (r s : List DidEntry) (did : ℕ) (bytes : List ℕ) (session_type : ℕ)
    (unlocked : Bool) (resp_size : ℕ)
    → SameLookups r s
    → (write_did null r did bytes session_type unlocked resp_size).0
      ≡ (write_did null s did bytes session_type unlocked resp_size).0
unfolding write_did
write_did-reply null r s did bytes session_type unlocked resp_size same = ground (arith, same did)

-- A write gives the same reply, and again registries with the same lookups.
pub write_did-same :
    (null : Bool) (r s : List DidEntry) (did : ℕ) (bytes : List ℕ) (session_type : ℕ)
    (unlocked : Bool) (resp_size : ℕ)
    → SameLookups r s
    → let (a, r') = write_did null r did bytes session_type unlocked resp_size in
      let (b, s') = write_did null s did bytes session_type unlocked resp_size in
      (a ≡ b) × SameLookups r' s'
write_did-same null r s did bytes session_type unlocked resp_size same =
    let reply = write_did-reply null r s did bytes session_type unlocked resp_size same in
    (
      reply,
      λ k. ground (
        arith,
        reply,
        same k,
        write_did-effect null r did bytes session_type unlocked resp_size k,
        write_did-effect null s did bytes session_type unlocked resp_size k,
      ),
    )

did_find-append :
    (reg : List DidEntry) (e : DidEntry) (k : ℕ)
    → e.did_id == k ≡ false
    → did_find (reg ++ (e ∷ [])) k ≡ did_find reg k
unfolding did_find
did_find-append [] e k other = ground (arith, other)
did_find-append (x ∷ reg) e k other = ground (arith, other, did_find-append reg e k other)

-- An entry behind another one of the same identifier is never found.
pub SameLookups-shadowed :
    (reg : List DidEntry) (e x : DidEntry)
    → did_find reg e.did_id ≡ some x
    → SameLookups reg (reg ++ (e ∷ []))
unfolding did_find
SameLookups-shadowed [] e x found k = absurd (cc)
SameLookups-shadowed (y ∷ reg) e x found k = elim (Bool-cases (y.did_id == e.did_id)) [
  | inl is ↦ elim (Bool-cases (y.did_id == k)) [
    | inl here ↦ rw here refl
    | inr there ↦ ground (arith, is, there, did_find-append reg e k)
  ]
  | inr other ↦ ground (arith, other, SameLookups-shadowed reg e x (ground (arith, found, other)) k)
]
