-- ===== src/Data.antt =====
-- src/core/data.c: the DID registry with services 0x22 and 0x2E, and services 0x11 and 0x28.
-- `null` stands for the test whether one of the pointer arguments is NULL. A registry is the list
-- of its `count` entries; the entries own their buffers.
pub mod Registry
pub mod Read
pub mod Write
pub mod View
mod Tests
use uds.Base.{
  ℕ, ◌+◌, Bool, true, false, not, ◌&&◌, ◌||◌, Option, none, some, List, [], ◌∷◌, ◌++◌, length, take,
  blit, slice, ltb, ◌==◌, ◌!=◌, if◌then◌else◌,
}
use uds.Core.{
  Reply, positive, negative, err_param, err_buf, request_out_of_range, security_access_denied,
  incorrect_msg_len_or_format, sub_function_not_supported, byte_at, low_byte,
}

-- `UdsDidEntry`; the data pointer may be NULL.
pub record DidEntry : Type 0 where
  pub did_id : ℕ
  pub buffer : Option (List ℕ)
  pub data_len : ℕ
  pub writable : Bool
  pub min_session : ℕ
  pub min_write_session : ℕ
  pub requires_security : Bool

-- `uds_did_registry_init`: the registry has the first `count` entries.
unfoldable pub did_registry_init : Bool → List DidEntry → List DidEntry → ℕ → List DidEntry
did_registry_init null reg entries count = if null then reg else take count entries

-- `did_find` and `did_find_mut`: the first entry with the identifier.
unfoldable pub did_find : List DidEntry → ℕ → Option DidEntry
did_find [] did_id = none
did_find (e ∷ reg) did_id = if e.did_id == did_id then some e else did_find reg did_id

-- The registry after a write through the pointer that `did_find_mut` returns.
unfoldable pub did_update : List DidEntry → ℕ → (DidEntry → DidEntry) → List DidEntry
did_update [] did_id f = []
did_update (e ∷ reg) did_id f =
    if e.did_id == did_id then f e ∷ reg else e ∷ did_update reg did_id f

-- The `data_len` bytes that a record of the response holds: those of the entry, or, where the
-- entry has no buffer, what stands in the response buffer at `pos` already.
abbrev pub record_bytes : List ℕ → ℕ → DidEntry → List ℕ
record_bytes resp pos e = elim e.buffer [
  | none ↦ slice resp pos e.data_len
  | some d ↦ take e.data_len d
]

-- The loop of `uds_svc_read_did`: `out` is `resp[0 .. pos)`.
unfoldable pub read_records : List DidEntry → List ℕ → ℕ → List ℕ → ℕ → List ℕ → Reply
read_records reg resp resp_size [] pos out = positive out
read_records reg resp resp_size (did ∷ dids) pos out = elim (did_find reg did) [
  | none ↦ negative request_out_of_range
  | some e ↦
      if ltb resp_size (pos + (2 + e.data_len))
      then err_buf
      else read_records reg resp resp_size dids (pos + (2 + e.data_len))
          (out ++ (byte_at did 8 ∷ low_byte did ∷ record_bytes resp (pos + 2) e))
]

-- `uds_svc_read_did`; `resp` is what the buffer holds before the call.
unfoldable pub read_did : Bool → List DidEntry → List ℕ → List ℕ → ℕ → Reply
unfolding read_records
read_did null reg did_list resp resp_size =
    if null || length did_list == 0
    then err_param
    else if ltb resp_size 1
    then err_buf
    else read_records reg resp resp_size did_list 1 (0x62 ∷ [])

-- `memcpy(entry->data, data, data_len)` where the entry has a buffer.
abbrev pub store : List ℕ → DidEntry → DidEntry
store bytes e = record e { buffer = elim e.buffer [ none ↦ none | some d ↦ some (blit d 0 bytes) ] }

-- `uds_svc_write_did`; `bytes` is `data[0 .. data_len)`.
unfoldable pub write_did : Bool → List DidEntry → ℕ → List ℕ → ℕ → Bool → ℕ → Reply × List DidEntry
write_did null reg did_id bytes session_type security_unlocked resp_size =
    if null then (err_param, reg) else elim (did_find reg did_id) [
      | none ↦ (negative request_out_of_range, reg)
      | some e ↦
          if not e.writable
          then (negative request_out_of_range, reg)
          else if ltb session_type e.min_write_session
          then (negative request_out_of_range, reg)
          else if e.requires_security && not security_unlocked
          then (negative security_access_denied, reg)
          else if length bytes != e.data_len
          then (negative incorrect_msg_len_or_format, reg)
          else if ltb resp_size 3
          then (err_buf, reg)
          else (
            positive (0x6E ∷ byte_at did_id 8 ∷ low_byte did_id ∷ []),
            did_update reg did_id (store bytes),
          )
    ]

-- `uds_svc_ecu_reset`
unfoldable pub ecu_reset : Bool → ℕ → ℕ → Reply
ecu_reset null reset_type resp_size =
    if null
    then err_param
    else if ltb reset_type 0x01 || ltb 0x03 reset_type
    then negative sub_function_not_supported
    else if ltb resp_size 2
    then err_buf
    else positive (0x51 ∷ reset_type ∷ [])

-- `uds_svc_comm_control`
unfoldable pub comm_control : Bool → ℕ → ℕ → ℕ → Reply
comm_control null control_type comm_type resp_size =
    if null
    then err_param
    else if ltb 0x03 control_type
    then negative sub_function_not_supported
    else if comm_type == 0x00
    then negative request_out_of_range
    else if ltb resp_size 2
    then err_buf
    else positive (0x68 ∷ control_type ∷ [])
