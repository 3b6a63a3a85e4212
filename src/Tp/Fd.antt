-- ===== src/Tp/Fd.antt =====
-- src/tp/iso_tp.c, the CAN FD part: the frames of ISO-TP over CAN FD frames of 64 bytes. `null` stands
-- for the test whether one of the pointer arguments is NULL.
pub mod Cells
pub mod First
pub mod Frame
pub mod Transfer
pub mod Delivery
pub mod Sending
pub mod Conversation
pub mod Lost
pub mod Decoded
pub mod Limits
use uds.Base.{
  ℕ, ◌+◌, ◌-◌, ◌*◌, ◌/◌, ◌^◌, bit_and, bit_or, Bool, true, false, not, ◌&&◌, ◌||◌, List, [], ◌∷◌,
  ◌++◌, length, get_or, take, pad, slice, ltb, leb, ◌==◌, if◌then◌else◌,
}
use uds.Can.{CanfdFrame, canfd_frame_size}
use uds.Tp.{
  FrameType, frame_sf, frame_ff, frame_cf, frame_fc, frame_unknown, is_type, TpResult, tp_ok,
  tp_err, err_param, err_frame_type, err_buf_full, err_pdu_len, sf_max_data, fc_overflow,
}
use uds.Tp.Link.{Link}

-- `UDS_TP_CANFD_SF_ESCAPE_MIN_DL`
abbrev pub sf_escape_min_dl : ℕ
sf_escape_min_dl = sf_max_data + 1

-- `UDS_TP_CANFD_SF_MAX_DATA`
abbrev pub sf_max_data_fd : ℕ
sf_max_data_fd = 62

-- `UDS_TP_CANFD_FF_DATA_BYTES`
abbrev pub ff_data_bytes_fd : ℕ
ff_data_bytes_fd = 62

-- `UDS_TP_CANFD_FF_EXT_DATA_BYTES`
abbrev pub ff_ext_data_bytes : ℕ
ff_ext_data_bytes = 58

-- `UDS_TP_CANFD_CF_DATA_BYTES`
abbrev pub cf_data_bytes_fd : ℕ
cf_data_bytes_fd = 63

-- `UDS_TP_CANFD_FF_EXT_THRESHOLD`
abbrev pub ff_ext_threshold : ℕ
ff_ext_threshold = 4095

-- `UDS_TP_CANFD_MAX_PDU_LEN`
abbrev pub max_pdu_len_fd : ℕ
max_pdu_len_fd = 0xFFFFFFFF

-- `frame->data[i]`
abbrev pub data_byte : CanfdFrame → ℕ → ℕ
data_byte frame i = get_or frame.bytes i 0

-- `uds_tp_frame_type_fd`
unfoldable pub frame_type_fd : CanfdFrame → FrameType
frame_type_fd frame =
    if frame.len == 0
    then frame_unknown
    else let nibble : ℕ = bit_and (data_byte frame 0 / 2 ^ 4) 0x0F in
      if ltb 3 nibble
      then frame_unknown
      else if nibble == 0
      then frame_sf
      else if nibble == 1
      then frame_ff
      else if nibble == 2
      then frame_cf
      else frame_fc

-- The data array: cleared, and then filled from the front.
unfoldable pub fd_data : List ℕ → List ℕ
fd_data bytes = pad 64 0 bytes

abbrev pub fd_frame_of : ℕ → ℕ → List ℕ → CanfdFrame
fd_frame_of can_id len bytes = record { can_id = can_id; len = len; bytes = fd_data bytes }

-- `uds_tp_encode_sf_fd`; `bytes` is `data[0 .. len)`.
unfoldable pub encode_sf_fd : Bool → ℕ → List ℕ → TpResult CanfdFrame
encode_sf_fd null can_id bytes =
    if null || (length bytes == 0 || ltb sf_max_data_fd (length bytes))
    then tp_err err_param
    else if leb (length bytes) sf_max_data
    then tp_ok (fd_frame_of can_id (1 + length bytes) (length bytes ∷ bytes))
    else tp_ok (fd_frame_of can_id (2 + length bytes) (0x00 ∷ length bytes ∷ bytes))

-- The bytes that go into a first frame with room for `room`.
abbrev pub embed_of : ℕ → ℕ → ℕ
embed_of total_len room = if ltb room total_len then room else total_len

-- `uds_tp_encode_ff_fd`; `data` points to the first bytes of the message.
unfoldable pub encode_ff_fd : Bool → ℕ → List ℕ → ℕ → TpResult CanfdFrame
encode_ff_fd null can_id bytes total_len =
    if null
    then tp_err err_param
    else if total_len == 0
    then tp_err err_pdu_len
    else if leb total_len ff_ext_threshold
    then (if leb total_len sf_max_data_fd
        then tp_err err_pdu_len
        else let embed = embed_of total_len ff_data_bytes_fd in
          tp_ok (
            fd_frame_of can_id (2 + embed) (
              bit_or 0x10 (bit_and (total_len / 2 ^ 8) 0x0F)
              ∷ bit_and total_len 0xFF
              ∷ take embed bytes)))
    else let embed = embed_of total_len ff_ext_data_bytes in
      tp_ok (
        fd_frame_of can_id (6 + embed) (
          0x10
          ∷ 0x00
          ∷ bit_and (total_len / 2 ^ 24) 0xFF
          ∷ bit_and (total_len / 2 ^ 16) 0xFF
          ∷ bit_and (total_len / 2 ^ 8) 0xFF
          ∷ bit_and total_len 0xFF
          ∷ take embed bytes))

-- `uds_tp_encode_cf_fd`
unfoldable pub encode_cf_fd : Bool → ℕ → List ℕ → ℕ → TpResult CanfdFrame
encode_cf_fd null can_id bytes sn =
    if null || (length bytes == 0 || ltb cf_data_bytes_fd (length bytes))
    then tp_err err_param
    else tp_ok (fd_frame_of can_id (1 + length bytes) (bit_or 0x20 (bit_and sn 0x0F) ∷ bytes))

-- `uds_tp_encode_fc_fd`
unfoldable pub encode_fc_fd : Bool → ℕ → ℕ → ℕ → ℕ → TpResult CanfdFrame
encode_fc_fd null can_id fs bs stmin =
    if null
    then tp_err err_param
    else if ltb fc_overflow fs
    then tp_err err_param
    else tp_ok (fd_frame_of can_id 3 (bit_or 0x30 fs ∷ bs ∷ stmin ∷ []))

-- The header of a single frame: the length and where the data start.
unfoldable pub sf_header : CanfdFrame → TpResult (ℕ × ℕ)
sf_header frame =
    if bit_and (data_byte frame 0) 0x0F == 0
    then (if ltb frame.len 2
        then tp_err err_param
        else let len : ℕ = data_byte frame 1 in
          if ltb len sf_escape_min_dl || ltb sf_max_data_fd len
          then tp_err err_param
          else tp_ok (len, 2))
    else let len : ℕ = bit_and (data_byte frame 0) 0x0F in
      if ltb sf_max_data len then tp_err err_param else tp_ok (len, 1)

-- `uds_tp_decode_sf_fd`: the bytes that it puts into the buffer.
unfoldable pub decode_sf_fd : Bool → CanfdFrame → ℕ → TpResult (List ℕ)
decode_sf_fd null frame buf_size =
    if null || buf_size == 0
    then tp_err err_param
    else if not (is_type (frame_type_fd frame) frame_sf)
    then tp_err err_frame_type
    else elim (sf_header frame) [
      | tp_err e ↦ tp_err e
      | tp_ok (len, data_offset) ↦
          if ltb frame.len (data_offset + len)
          then tp_err err_param
          else if ltb buf_size len
          then tp_err err_buf_full
          else tp_ok (slice frame.bytes data_offset len)
    ]

-- The bytes of a first frame behind its header, `room` at most.
abbrev pub embedded : CanfdFrame → ℕ → ℕ → ℕ
embedded frame data_offset room =
    let embed : ℕ = if ltb data_offset frame.len then frame.len - data_offset else 0 in
    if ltb room embed then room else embed

-- The header of a first frame: the total length, where the data start, and how many there are.
unfoldable pub ff_header : CanfdFrame → TpResult (ℕ × ℕ × ℕ)
ff_header frame =
    if data_byte frame 1 == 0x00 && (bit_and (data_byte frame 0) 0x0F == 0)
    then (if ltb frame.len 6
        then tp_err err_param
        else let len : ℕ =
            bit_or
              (bit_or (bit_or (data_byte frame 2 * 2 ^ 24) (data_byte frame 3 * 2 ^ 16))
                (data_byte frame 4 * 2 ^ 8))
              (data_byte frame 5) in
          if len == 0
          then tp_err err_pdu_len
          else tp_ok (len, 6, embedded frame 6 ff_ext_data_bytes))
    else let len : ℕ = bit_or (bit_and (data_byte frame 0) 0x0F * 2 ^ 8) (data_byte frame 1) in
      if leb len sf_max_data_fd || ltb ff_ext_threshold len
      then tp_err err_pdu_len
      else tp_ok (len, 2, embedded frame 2 ff_data_bytes_fd)

-- `uds_tp_decode_ff_fd`: the total length and the first bytes.
unfoldable pub decode_ff_fd : Bool → CanfdFrame → ℕ → TpResult (ℕ × List ℕ)
decode_ff_fd null frame buf_size =
    if null
    then tp_err err_param
    else if not (is_type (frame_type_fd frame) frame_ff)
    then tp_err err_frame_type
    else elim (ff_header frame) [
      | tp_err e ↦ tp_err e
      | tp_ok (len, data_offset, embed) ↦
          if ltb buf_size embed
          then tp_err err_buf_full
          else tp_ok (len, slice frame.bytes data_offset embed)
    ]

-- `uds_tp_decode_cf_fd`: the sequence number and `max_data` bytes.
unfoldable pub decode_cf_fd : Bool → CanfdFrame → ℕ → ℕ → TpResult (ℕ × List ℕ)
decode_cf_fd null frame buf_size max_data =
    if null || buf_size == 0
    then tp_err err_param
    else if max_data == 0 || ltb cf_data_bytes_fd max_data
    then tp_err err_param
    else if not (is_type (frame_type_fd frame) frame_cf)
    then tp_err err_frame_type
    else if ltb frame.len 2
    then tp_err err_param
    else if ltb buf_size max_data
    then tp_err err_buf_full
    else tp_ok (bit_and (data_byte frame 0) 0x0F, slice frame.bytes 1 max_data)

-- `uds_tp_decode_fc_fd`: the flow status, the block size and STmin.
unfoldable pub decode_fc_fd : Bool → CanfdFrame → TpResult (ℕ × ℕ × ℕ)
decode_fc_fd null frame =
    if null
    then tp_err err_param
    else if not (is_type (frame_type_fd frame) frame_fc)
    then tp_err err_frame_type
    else if ltb frame.len 3
    then tp_err err_param
    else let fs : ℕ = bit_and (data_byte frame 0) 0x0F in
      if ltb fc_overflow fs
      then tp_err err_param
      else tp_ok (fs, data_byte frame 1, data_byte frame 2)

-- The functions of uds_tp_send_fd and uds_tp_recv_fd.
abbrev pub fd : Link CanfdFrame
fd = record {
  size = canfd_frame_size;
  cf_bytes = cf_data_bytes_fd;
  type_of = frame_type_fd;
  enc_cf = encode_cf_fd false;
  enc_fc = encode_fc_fd false;
  dec_cf = decode_cf_fd false;
  dec_fc = decode_fc_fd false;
}
