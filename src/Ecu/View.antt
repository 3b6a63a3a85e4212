-- ===== src/Ecu/View.antt =====
-- What a tester sees of the DID registry of src/ecusim/ecusim.c over any sequence of requests.
use uds.Base.{
  ℕ, ◌*◌, ◌^◌, ◌≡◌, inl, inr, refl, sym, ap, ◌∙◌, some, false, List, [], ◌∷◌, drop, Option-cases,
  arith, bit_or,
}
use uds.Session.{session_code}
use uds.Security.{is_unlocked}
use uds.Data.{DidEntry}
use uds.Data.View.{SameLookups, read_did-same, write_did-same}
use uds.Ecu.{
  Ecu, Request, Service, session_control, tester_presence, security_access, read_data, write_data,
  reset_ecu, communication_control, clear_dtcs, read_dtcs, download, upload, transfer,
  exit_transfer, service_of, handle, dispatch, req_byte, did_list,
}

-- The responses to a sequence of requests.
abbrev pub responses : List Request → Ecu → List (List ℕ)
responses [] ecu = []
responses (q ∷ queue) ecu = let (response, ecu') = dispatch ecu q in response ∷ responses queue ecu'

abbrev pub with_dids : Ecu → List DidEntry → Ecu
with_dids ecu dids = record ecu { dids = dids }

-- Two states that differ in registries with the same lookups.
abbrev Alike : Ecu → Ecu → Type 0
Alike a b = SameLookups a.dids b.dids × (b ≡ with_dids a b.dids)

handle-Alike :
    (s : Service) (ecu : Ecu) (dids : List DidEntry) (q : Request)
    → SameLookups ecu.dids dids
    → ((handle s ecu q).0 ≡ (handle s (with_dids ecu dids) q).0)
      × Alike (handle s ecu q).1 (handle s (with_dids ecu dids) q).1
unfolding handle
handle-Alike read_data ecu dids q same = ground (
  arith,
  same,
  read_did-same false ecu.dids dids (did_list (drop 1 q.bytes)) q.resp q.resp_size same,
)
handle-Alike write_data ecu dids q same = ground (
  arith,
  same,
  write_did-same false ecu.dids dids (bit_or (req_byte q 1 * 2 ^ 8) (req_byte q 2)) (drop 3 q.bytes)
      (session_code ecu.session.type) (is_unlocked (some ecu.security) 0x01) q.resp_size same,
)
handle-Alike session_control ecu dids q same = ground (arith, same)
handle-Alike tester_presence ecu dids q same = ground (arith, same)
handle-Alike security_access ecu dids q same = ground (arith, same)
handle-Alike reset_ecu ecu dids q same = ground (arith, same)
handle-Alike communication_control ecu dids q same = ground (arith, same)
handle-Alike clear_dtcs ecu dids q same = ground (arith, same)
handle-Alike read_dtcs ecu dids q same = ground (arith, same)
handle-Alike download ecu dids q same = ground (arith, same)
handle-Alike upload ecu dids q same = ground (arith, same)
handle-Alike transfer ecu dids q same = ground (arith, same)
handle-Alike exit_transfer ecu dids q same = ground (arith, same)

dispatch-Alike :
    (ecu : Ecu) (dids : List DidEntry) (q : Request)
    → SameLookups ecu.dids dids
    → ((dispatch ecu q).0 ≡ (dispatch (with_dids ecu dids) q).0)
      × Alike (dispatch ecu q).1 (dispatch (with_dids ecu dids) q).1
unfolding dispatch
dispatch-Alike ecu dids q same = elim (Option-cases (service_of (req_byte q 0))) [
  | inl missing ↦ ground (arith, missing, same)
  | inr (s, known) ↦ ground (arith, known, same, handle-Alike s ecu dids q same)
]

-- The responses to any sequence of requests depend on the registry of identifiers only through its lookups:
-- with another registry that has the same first entry for every identifier, in whatever order and whatever
-- stands behind it, they are the same.
pub responses-same :
    (queue : List Request) (ecu : Ecu) (dids : List DidEntry)
    → SameLookups ecu.dids dids
    → responses queue ecu ≡ responses queue (with_dids ecu dids)
responses-same [] ecu dids same = refl
responses-same (q ∷ queue) ecu dids same =
    let (reply, (same', alike)) = dispatch-Alike ecu dids q same in
    let other = (dispatch (with_dids ecu dids) q).1 in
    let rest : responses queue (dispatch ecu q).1 ≡ responses queue other =
      responses-same queue (dispatch ecu q).1 other.dids same' ∙ ap (responses queue) (sym alike) in
    ground (arith, reply, rest)
