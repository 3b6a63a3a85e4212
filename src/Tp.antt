-- ===== src/Tp.antt =====
-- src/tp/iso_tp.c: the frames of ISO-TP over CAN frames of 8 bytes. Tp/Send and Tp/Receive have the
-- transfers. `null` stands for the test whether one of the pointer arguments is NULL.
pub mod Link
pub mod Fd
pub mod Frame
pub mod Send
pub mod Receive
pub mod Segments
pub mod Due
pub mod Reassembly
pub mod Reception
pub mod Bounded
pub mod Limits
pub mod Arrivals
pub mod Gap
pub mod Lost
pub mod Delivery
pub mod Outcome
pub mod Loops
pub mod Grants
pub mod Runs
pub mod Ends
pub mod Plan
pub mod Progress
pub mod Conversation
mod Tests
use uds.Base.{
  ℕ, zero, suc, ◌+◌, ◌-◌, ◌*◌, ◌/◌, ◌%◌, ◌^◌, bit_and, bit_or, Bool, true, false, not, ◌&&◌, ◌||◌,
  Option, none, some, List, [], ◌∷◌, ◌++◌, length, get_or, take, drop, pad, slice, ltb, leb, ◌==◌,
  ◌!=◌, if◌then◌else◌,
}
use uds.Can.{CanFrame, Bus}

abbrev pub max_pdu_len : ℕ
max_pdu_len = 4095

abbrev pub sf_max_data : ℕ
sf_max_data = 7

abbrev pub ff_data_bytes : ℕ
ff_data_bytes = 6

abbrev pub cf_data_bytes : ℕ
cf_data_bytes = 7

abbrev pub max_wait_frames : ℕ
max_wait_frames = 10

-- `UdsTpFrameType`
pub data FrameType : Type 0 where
  frame_sf frame_ff frame_cf frame_fc frame_unknown : FrameType

-- `UdsTpFlowStatus`, by its numbers.
abbrev pub fc_cts : ℕ
fc_cts = 0

abbrev pub fc_wait : ℕ
fc_wait = 1

abbrev pub fc_overflow : ℕ
fc_overflow = 2

-- `UdsTpError` without `UDS_TP_OK`.
pub data TpError : Type 0 where
  err_param err_timeout err_overflow err_sequence err_frame_type err_buf_full : TpError
  err_send err_inprogress err_recv err_pdu_len err_wait_limit : TpError

-- What a function returns: `UDS_TP_OK` with what it writes through its pointers, or an error.
pub data TpResult {ℓ} (A : Type ℓ) : Type ℓ where
  tp_ok : A → TpResult A
  tp_err : TpError → TpResult A

-- `UdsTpConfig`
pub record TpConfig : Type 0 where
  pub timeout_ms : ℕ
  pub block_size : ℕ
  pub st_min : ℕ

-- The nanoseconds that `apply_stmin` sleeps; 0 where it returns at once.
unfoldable pub stmin_ns : ℕ → ℕ
stmin_ns stmin =
    if stmin == 0
    then 0
    else if leb stmin 0x7F
    then stmin * 1000000
    else if leb 0xF1 stmin && leb stmin 0xF9
    then (stmin - 0xF0) * 100000
    else 0

-- `apply_stmin`
abbrev pub apply_stmin : {F : Type 0} → ℕ → Bus F → Bus F
apply_stmin stmin bus = record bus {
  slept = bus.slept ++ (if stmin_ns stmin == 0 then [] else stmin_ns stmin ∷ []);
}

-- `frame->data[i]`
abbrev pub data_byte : CanFrame → ℕ → ℕ
data_byte frame i = get_or frame.bytes i 0

-- `uds_tp_frame_type`
unfoldable pub frame_type : CanFrame → FrameType
frame_type frame =
    if frame.can_dlc == 0
    then frame_unknown
    else let nibble : ℕ = bit_and (data_byte frame 0 / 2 ^ 4) 0x0F in
      if ltb 3 nibble
      then frame_unknown
      else if nibble == 0
      then frame_sf
      else if nibble == 1
      then frame_ff
      else if nibble == 2
      then frame_cf
      else frame_fc

abbrev frame_of : ℕ → ℕ → List ℕ → CanFrame
frame_of can_id can_dlc bytes = record { can_id = can_id; can_dlc = can_dlc; bytes = pad 8 0 bytes }

-- `uds_tp_encode_sf`; `bytes` is `data[0 .. len)`.
unfoldable pub encode_sf : Bool → ℕ → List ℕ → TpResult CanFrame
encode_sf null can_id bytes =
    if null || (length bytes == 0 || ltb sf_max_data (length bytes))
    then tp_err err_param
    else tp_ok (frame_of can_id (1 + length bytes) (length bytes ∷ bytes))

-- `uds_tp_encode_ff`; `data` points to the first bytes of the message.
unfoldable pub encode_ff : Bool → ℕ → List ℕ → ℕ → TpResult CanFrame
encode_ff null can_id bytes total_len =
    if null
    then tp_err err_param
    else if ltb total_len 8 || ltb max_pdu_len total_len
    then tp_err err_pdu_len
    else tp_ok (
        frame_of can_id 8 (
          bit_or 0x10 (bit_and (total_len / 2 ^ 8) 0x0F)
          ∷ bit_and total_len 0xFF
          ∷ take ff_data_bytes bytes))

-- `uds_tp_encode_cf`
unfoldable pub encode_cf : Bool → ℕ → List ℕ → ℕ → TpResult CanFrame
encode_cf null can_id bytes sn =
    if null || (length bytes == 0 || ltb cf_data_bytes (length bytes))
    then tp_err err_param
    else tp_ok (frame_of can_id 8 (bit_or 0x20 (bit_and sn 0x0F) ∷ bytes))

-- `uds_tp_encode_fc`
unfoldable pub encode_fc : Bool → ℕ → ℕ → ℕ → ℕ → TpResult CanFrame
encode_fc null can_id fs bs stmin =
    if null
    then tp_err err_param
    else if ltb fc_overflow fs
    then tp_err err_param
    else tp_ok (frame_of can_id 3 (bit_or 0x30 fs ∷ bs ∷ stmin ∷ []))

abbrev pub is_type : FrameType → FrameType → Bool
is_type frame_sf frame_sf = true
is_type frame_ff frame_ff = true
is_type frame_cf frame_cf = true
is_type frame_fc frame_fc = true
is_type t u = false

-- `uds_tp_decode_sf`: the bytes that it puts into the buffer.
unfoldable pub decode_sf : Bool → CanFrame → ℕ → TpResult (List ℕ)
decode_sf null frame buf_size =
    if null || buf_size == 0
    then tp_err err_param
    else if not (is_type (frame_type frame) frame_sf)
    then tp_err err_frame_type
    else let len : ℕ = bit_and (data_byte frame 0) 0x0F in
      if len == 0 || ltb sf_max_data len
      then tp_err err_param
      else if ltb frame.can_dlc (1 + len)
      then tp_err err_param
      else if ltb buf_size len
      then tp_err err_buf_full
      else tp_ok (slice frame.bytes 1 len)

-- `uds_tp_decode_ff`: the total length and the first bytes.
unfoldable pub decode_ff : Bool → CanFrame → ℕ → TpResult (ℕ × List ℕ)
decode_ff null frame buf_size =
    if null || ltb buf_size ff_data_bytes
    then tp_err err_param
    else if not (is_type (frame_type frame) frame_ff)
    then tp_err err_frame_type
    else if ltb frame.can_dlc 8
    then tp_err err_param
    else let len : ℕ = bit_or (bit_and (data_byte frame 0) 0x0F * 2 ^ 8) (data_byte frame 1) in
      if ltb len 8 || ltb max_pdu_len len
      then tp_err err_pdu_len
      else tp_ok (len, slice frame.bytes 2 ff_data_bytes)

-- `uds_tp_decode_cf`: the sequence number and `max_data` bytes.
unfoldable pub decode_cf : Bool → CanFrame → ℕ → ℕ → TpResult (ℕ × List ℕ)
decode_cf null frame buf_size max_data =
    if null || buf_size == 0
    then tp_err err_param
    else if max_data == 0 || ltb cf_data_bytes max_data
    then tp_err err_param
    else if not (is_type (frame_type frame) frame_cf)
    then tp_err err_frame_type
    else if ltb frame.can_dlc 2
    then tp_err err_param
    else if ltb buf_size max_data
    then tp_err err_buf_full
    else tp_ok (bit_and (data_byte frame 0) 0x0F, slice frame.bytes 1 max_data)

-- `uds_tp_decode_fc`: the flow status, the block size and STmin.
unfoldable pub decode_fc : Bool → CanFrame → TpResult (ℕ × ℕ × ℕ)
decode_fc null frame =
    if null
    then tp_err err_param
    else if not (is_type (frame_type frame) frame_fc)
    then tp_err err_frame_type
    else if ltb frame.can_dlc 3
    then tp_err err_param
    else let fs : ℕ = bit_and (data_byte frame 0) 0x0F in
      if ltb fc_overflow fs
      then tp_err err_param
      else tp_ok (fs, data_byte frame 1, data_byte frame 2)
