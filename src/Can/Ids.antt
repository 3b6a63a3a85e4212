-- ===== src/Can/Ids.antt =====
-- The CAN identifiers of src/can/can_socket.c.
use uds.Base.Bits.{bit_and_2047}
use uds.Base.{
  ℕ, ◌+◌, ◌<◌, true, ◌⊎◌, inl, inr, sym, ap, ◌∙◌, bit_and, Any, ◌≤◌, ◌≡◌, ◌≢◌, ◌↔◌, arith,
}
use uds.Can.{CanFilter, ecu_filters, functional_id, is_ecu_id, req_id, resp_id, ecu_id_from_resp}

-- For an ECU number from 1 to 127, ecu_id_from_resp gives it exactly for the response identifier of
-- this ECU, which is not the request identifier of any.
pub ecu_id_from_resp-resp_id :
    (id n : ℕ)
    → 1 ≤ n
    → n ≤ 127
    → ((ecu_id_from_resp id ≡ n) ↔ (id ≡ resp_id n)) × ((m : ℕ) → resp_id n ≢ req_id m)
unfolding ecu_id_from_resp resp_id req_id
ecu_id_from_resp-resp_id id n lo hi = ((λ h. ground arith, λ h. ground arith), λ m h. ground arith)

-- What the system lets through a filter: the identifiers that agree with it on the bits of the mask.
abbrev pub Passes : ℕ → CanFilter → Type 0
Passes id f = bit_and id f.can_mask ≡ bit_and f.can_id f.can_mask

exact_id :
    (id wanted : ℕ)
    → id < 2048
    → wanted < 2048
    → bit_and id 0x7FF ≡ bit_and wanted 0x7FF
    → id ≡ wanted
exact_id id wanted small small' same =
    omega (arith, sym (bit_and_2047 id) ∙ same ∙ bit_and_2047 wanted)

-- For an ECU number from 1 to 127, an identifier of 11 bits passes one of the filters of
-- uds_can_ecu_filters exactly if it is the request identifier of this ECU, its response identifier, or the
-- functional identifier.
pub ecu_filters_lem :
    (id n : ℕ)
    → id < 2048
    → 1 ≤ n
    → n ≤ 127
    → Any (Passes id) (ecu_filters n) ↔ ((id ≡ req_id n) ⊎ (id ≡ resp_id n) ⊎ (id ≡ functional_id))
unfolding ecu_filters req_id resp_id
ecu_filters_lem id n small lo hi =
    let valid : is_ecu_id n ≡ true = ground arith in
    rw valid (
      λ h. elim h [
        | inl req ↦ inl (omega (arith, exact_id id (0x600 + n) small (omega arith) req))
        | inr (inl fun) ↦ inr (inr (exact_id id 0x7DF small (omega arith) fun))
        | inr (inr (inl resp)) ↦ inr (inl (exact_id id (0x680 + n) small (omega arith) resp))
        | inr (inr (inr none)) ↦ absurd none
      ],
      λ h. elim h [
        | inl req ↦ inl (ap (λ i. bit_and i 0x7FF) req)
        | inr (inl resp) ↦ inr (inr (inl (ap (λ i. bit_and i 0x7FF) resp)))
        | inr (inr fun) ↦ inr (inl (ap (λ i. bit_and i 0x7FF) fun))
      ],
    )
