-- ===== src/Texts.antt =====
-- The texts of the error codes: uds_core_strerror of src/core/session.c, uds_can_strerror of
-- src/can/can_socket.c and uds_tp_strerror of src/tp/iso_tp.c. `negsuc n` is the code -(n + 1).
use Prim.Native.String.{String}
use text.Mathlib.Text.{◌==◌ as str_eq}
use uds.Base.{◌≡◌, refl, false, ◌==◌, if◌then◌else◌}
use uds.Core.{Reply, positive, negative, err_buf}
use uds.Core
use uds.Can.{
  CanStatus, can_ok, can_err_param, can_err_socket, can_err_bind, can_err_ifindex, can_err_filter,
  can_err_send, can_err_recv, can_err_timeout, can_err_trunc,
}
use uds.Tp.{
  TpError, err_param, err_timeout, err_overflow, err_sequence, err_frame_type, err_buf_full,
  err_send, err_inprogress, err_recv, err_pdu_len, err_wait_limit,
}
use uds.Base.Int.{ℤ, pos, negsuc}

-- `uds_core_strerror`
unfoldable pub core_strerror : ℤ → String
core_strerror (pos n) = if n == 0 then "Success" else "Unknown error"
core_strerror (negsuc n) =
    if n == 0
    then "Invalid parameter"
    else if n == 1
    then "UDS negative response condition"
    else if n == 2
    then "Response buffer too small"
    else "Unknown error"

-- `uds_can_strerror`
unfoldable pub can_strerror : ℤ → String
can_strerror (pos n) = if n == 0 then "Success" else "Unknown error"
can_strerror (negsuc n) =
    if n == 0
    then "Invalid parameter"
    else if n == 1
    then "socket() failed"
    else if n == 2
    then "bind() failed"
    else if n == 3
    then "Interface not found"
    else if n == 4
    then "setsockopt(CAN_RAW_FILTER) failed"
    else if n == 5
    then "write() failed"
    else if n == 6
    then "read() failed"
    else if n == 7
    then "Receive timed out"
    else if n == 8
    then "Received frame was truncated"
    else "Unknown error"

-- `uds_tp_strerror`
unfoldable pub tp_strerror : ℤ → String
tp_strerror (pos n) = if n == 0 then "Success" else "Unknown error"
tp_strerror (negsuc n) =
    if n == 0
    then "Invalid parameter"
    else if n == 1
    then "Receive timed out"
    else if n == 2
    then "Overflow (FC overflow or buffer too small)"
    else if n == 3
    then "Consecutive frame sequence number error"
    else if n == 4
    then "Unexpected or invalid frame type"
    else if n == 5
    then "Caller buffer too small for PDU"
    else if n == 6
    then "CAN send failure"
    else if n == 7
    then "Transfer already in progress"
    else if n == 8
    then "CAN receive failure"
    else if n == 9
    then "PDU length out of range"
    else if n == 10
    then "Too many FC WAIT frames received"
    else "Unknown error"

-- The return code of a service.
abbrev pub reply_code : Reply → ℤ
reply_code (positive bytes) = pos 0
reply_code uds.Core.err_param = negsuc 0
reply_code (negative nrc) = negsuc 1
reply_code err_buf = negsuc 2

-- Every return code of a service has a text.
core_strerror-reply_code :
    (s : Reply) → str_eq (core_strerror (reply_code s)) "Unknown error" ≡ false
unfolding core_strerror
core_strerror-reply_code (positive bytes) = refl
core_strerror-reply_code uds.Core.err_param = refl
core_strerror-reply_code (negative nrc) = refl
core_strerror-reply_code err_buf = refl

-- The values of `UdsCanError`.
abbrev pub can_code : CanStatus → ℤ
can_code can_ok = pos 0
can_code can_err_param = negsuc 0
can_code can_err_socket = negsuc 1
can_code can_err_bind = negsuc 2
can_code can_err_ifindex = negsuc 3
can_code can_err_filter = negsuc 4
can_code can_err_send = negsuc 5
can_code can_err_recv = negsuc 6
can_code can_err_timeout = negsuc 7
can_code can_err_trunc = negsuc 8

-- Every status has a text.
can_strerror-can_code : (s : CanStatus) → str_eq (can_strerror (can_code s)) "Unknown error" ≡ false
unfolding can_strerror
can_strerror-can_code can_ok = refl
can_strerror-can_code can_err_param = refl
can_strerror-can_code can_err_socket = refl
can_strerror-can_code can_err_bind = refl
can_strerror-can_code can_err_ifindex = refl
can_strerror-can_code can_err_filter = refl
can_strerror-can_code can_err_send = refl
can_strerror-can_code can_err_recv = refl
can_strerror-can_code can_err_timeout = refl
can_strerror-can_code can_err_trunc = refl

-- The values of `UdsTpError` below 0.
abbrev pub tp_code : TpError → ℤ
tp_code err_param = negsuc 0
tp_code err_timeout = negsuc 1
tp_code err_overflow = negsuc 2
tp_code err_sequence = negsuc 3
tp_code err_frame_type = negsuc 4
tp_code err_buf_full = negsuc 5
tp_code err_send = negsuc 6
tp_code err_inprogress = negsuc 7
tp_code err_recv = negsuc 8
tp_code err_pdu_len = negsuc 9
tp_code err_wait_limit = negsuc 10

-- Every error of a transfer has a text.
tp_strerror-tp_code : (s : TpError) → str_eq (tp_strerror (tp_code s)) "Unknown error" ≡ false
unfolding tp_strerror
tp_strerror-tp_code err_param = refl
tp_strerror-tp_code err_timeout = refl
tp_strerror-tp_code err_overflow = refl
tp_strerror-tp_code err_sequence = refl
tp_strerror-tp_code err_frame_type = refl
tp_strerror-tp_code err_buf_full = refl
tp_strerror-tp_code err_send = refl
tp_strerror-tp_code err_inprogress = refl
tp_strerror-tp_code err_recv = refl
tp_strerror-tp_code err_pdu_len = refl
tp_strerror-tp_code err_wait_limit = refl
