-- ===== src/Tp/Fd/Transfer.antt =====
-- src/tp/iso_tp.c: uds_tp_send_fd and uds_tp_recv_fd. `sock` and the pointers are not NULL. Their loops are
-- those of Tp/Send and Tp/Receive, here with the functions on CAN FD frames.
use uds.Base.{ℕ, Bool, false, not, List, length, take, drop, ltb, leb, ◌==◌, if◌then◌else◌}
use uds.Can.{CanfdFrame, Bus}
use uds.Tp.{
  TpResult, tp_ok, tp_err, err_param, err_frame_type, err_buf_full, err_pdu_len, TpConfig, frame_sf,
  frame_ff, is_type,
}
use uds.Tp.Fd.{
  sf_max_data_fd, ff_data_bytes_fd, ff_ext_data_bytes, ff_ext_threshold, max_pdu_len_fd,
  frame_type_fd, encode_sf_fd, encode_ff_fd, decode_sf_fd, decode_ff_fd, fd,
}
use uds.Tp.Send.{recv_frame, send_frame, send_long}
use uds.Tp.Receive.{send_cts, recv_rest}

-- The bytes that went out in the first frame.
unfoldable pub ff_embed : ℕ → ℕ
ff_embed len =
    let room : ℕ = if leb len ff_ext_threshold then ff_data_bytes_fd else ff_ext_data_bytes in
    if ltb len room then len else room

-- `uds_tp_send_fd`
unfoldable pub tp_send_fd : Bus CanfdFrame → ℕ → List ℕ → TpConfig → TpResult Bool × Bus CanfdFrame
tp_send_fd bus tx_id message cfg =
    if length message == 0
    then (tp_err err_param, bus)
    else if cfg.timeout_ms == 0
    then (tp_err err_param, bus)
    else if leb (length message) sf_max_data_fd
    then send_frame fd (encode_sf_fd false tx_id message) bus
    else if ltb max_pdu_len_fd (length message)
    then (tp_err err_pdu_len, bus)
    else send_long fd (length message) tx_id (encode_ff_fd false tx_id message (length message))
        (drop (ff_embed (length message)) message) bus

-- A first frame was received: it is answered, and the rest follows. Of the buffer, the first
-- `total_len` bytes are the message.
unfoldable pub recv_long_fd :
    TpConfig → ℕ → ℕ → CanfdFrame → Bus CanfdFrame → TpResult (List ℕ) × Bus CanfdFrame
recv_long_fd cfg tx_id buf_size frame bus = elim (decode_ff_fd false frame buf_size) [
  | tp_err e ↦ (tp_err e, bus)
  | tp_ok (total_len, bytes) ↦
      if ltb buf_size total_len
      then (tp_err err_buf_full, bus)
      else let (c, bus') = send_cts fd cfg tx_id bus in
        elim c [
          | tp_err e ↦ (tp_err e, bus')
          | tp_ok _ ↦
              let (r, bus'') = recv_rest fd total_len cfg tx_id total_len buf_size bytes 1 0 bus' in
              elim r [
                | tp_err e ↦ (tp_err e, bus'')
                | tp_ok buf ↦ (tp_ok (take total_len buf), bus'')
              ]
        ]
]

-- `uds_tp_recv_fd`
unfoldable pub tp_recv_fd : Bus CanfdFrame → ℕ → ℕ → TpConfig → TpResult (List ℕ) × Bus CanfdFrame
tp_recv_fd bus tx_id buf_size cfg =
    if buf_size == 0
    then (tp_err err_param, bus)
    else if cfg.timeout_ms == 0
    then (tp_err err_param, bus)
    else let (r, bus') = recv_frame fd bus in
      elim r [
        | tp_err e ↦ (tp_err e, bus')
        | tp_ok frame ↦
            if is_type (frame_type_fd frame) frame_sf
            then (decode_sf_fd false frame buf_size, bus')
            else if not (is_type (frame_type_fd frame) frame_ff)
            then (tp_err err_frame_type, bus')
            else recv_long_fd cfg tx_id buf_size frame bus'
      ]
