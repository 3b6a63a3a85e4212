-- ===== src/Tp/Receive.antt =====
-- src/tp/iso_tp.c: uds_tp_recv. `sock` and the pointers are not NULL; of the buffer, the bytes that a
-- successful call gives. The fuel of the loop is the number of bytes that are missing.
use uds.Base.{
  ℕ, zero, suc, ◌+◌, ◌-◌, ◌%◌, ◌^◌, Bool, true, false, not, ◌&&◌, ◌||◌, List, ◌++◌, length, ltb,
  leb, ◌==◌, ◌!=◌, if◌then◌else◌,
}
use uds.Can.{CanFrame, Bus}
use uds.Tp.Link.{Link, classic}
use uds.Tp.{
  TpResult, tp_ok, tp_err, err_param, err_sequence, err_frame_type, err_buf_full, err_inprogress,
  TpConfig, frame_sf, frame_ff, frame_cf, is_type, frame_type, decode_sf, decode_ff, fc_cts,
}
use uds.Tp.Send.{recv_frame, send_frame, next_sn}

-- The block is over: another flow control frame is due.
abbrev pub block_over : TpConfig → ℕ → Bool
block_over cfg bs_count = ltb 0 cfg.block_size && leb cfg.block_size bs_count

-- `UdsTpRxChannel`
pub record RxChannel : Type 0 where
  pub buf : List ℕ
  pub buf_size : ℕ
  pub msg_len : ℕ
  pub received : ℕ
  pub next_sn : ℕ
  pub in_progress : Bool

-- `uds_tp_rx_init`: the channel that it fills.
unfoldable pub rx_init : Bool → List ℕ → ℕ → TpResult RxChannel
rx_init null buf buf_size =
    if null || buf_size == 0
    then tp_err err_param
    else tp_ok (record {
      buf = buf;
      buf_size = buf_size;
      msg_len = 0;
      received = 0;
      next_sn = 1;
      in_progress = false;
    })

module _ {F : Type 0} (l : Link F) where
  -- A flow control frame that lets the sender go on.
  abbrev pub send_cts : TpConfig → ℕ → Bus F → TpResult Bool × Bus F
  send_cts cfg tx_id bus = send_frame l (l.enc_fc tx_id fc_cts cfg.block_size cfg.st_min) bus

  -- The head of the loop: where the block is over, flow control is sent and the count starts again.
  unfoldable pub open_block : TpConfig → ℕ → ℕ → Bus F → TpResult Bool × Bus F × ℕ
  open_block cfg tx_id bs_count bus =
      if block_over cfg bs_count
      then (let (c, bus') = send_cts cfg tx_id bus in (c, bus', 0))
      else (tp_ok true, bus, bs_count)

  -- One consecutive frame: it is received, and its bytes are those that are still missing, 7 at most.
  unfoldable pub recv_cf : ℕ → ℕ → ℕ → ℕ → Bus F → TpResult (List ℕ) × Bus F
  recv_cf total_len buf_size received expected_sn bus =
      let (r, bus') = recv_frame l bus in
      elim r [
        | tp_err e ↦ (tp_err e, bus')
        | tp_ok frame ↦
            if not (is_type (l.type_of frame) frame_cf)
            then (tp_err err_frame_type, bus')
            else let remaining : ℕ = total_len - received in
              let chunk : ℕ = if ltb l.cf_bytes remaining then l.cf_bytes else remaining in
              elim (l.dec_cf frame (buf_size - received) chunk) [
                | tp_err e ↦ (tp_err e, bus')
                | tp_ok (sn, bytes) ↦
                    if sn != expected_sn then (tp_err err_sequence, bus') else (tp_ok bytes, bus')
              ]
      ]

  -- The loop; `buf` is what has been received. Without fuel it gives an error that the function itself
  -- never returns.
  unfoldable pub recv_rest :
      ℕ → TpConfig → ℕ → ℕ → ℕ → List ℕ → ℕ → ℕ → Bus F → TpResult (List ℕ) × Bus F
  recv_rest zero cfg tx_id total_len buf_size buf expected_sn bs_count bus =
      if ltb (length buf) total_len then (tp_err err_inprogress, bus) else (tp_ok buf, bus)
  recv_rest (suc fuel) cfg tx_id total_len buf_size buf expected_sn bs_count bus =
      elim (ltb (length buf) total_len) [
        | false ↦ (tp_ok buf, bus)
        | true ↦
            let (c, bus', count) = open_block cfg tx_id bs_count bus in
            elim c [
              | tp_err e ↦ (tp_err e, bus')
              | tp_ok _ ↦
                  let (r, bus'') = recv_cf total_len buf_size (length buf) expected_sn bus' in
                  elim r [
                    | tp_err e ↦ (tp_err e, bus'')
                    | tp_ok bytes ↦
                        recv_rest fuel cfg tx_id total_len buf_size (buf ++ bytes)
                          (next_sn expected_sn) ((count + 1) % 2 ^ 8) bus''
                  ]
            ]
      ]

-- A first frame was received: it is answered, and the rest follows.
unfoldable pub recv_long :
    TpConfig → ℕ → ℕ → CanFrame → Bus CanFrame → TpResult (List ℕ) × Bus CanFrame
recv_long cfg tx_id buf_size frame bus = elim (decode_ff false frame buf_size) [
  | tp_err e ↦ (tp_err e, bus)
  | tp_ok (total_len, bytes) ↦
      if ltb (buf_size % 2 ^ 32) total_len
      then (tp_err err_buf_full, bus)
      else let (c, bus') = send_cts classic cfg tx_id bus in
        elim c [
          | tp_err e ↦ (tp_err e, bus')
          | tp_ok _ ↦ recv_rest classic total_len cfg tx_id total_len buf_size bytes 1 0 bus'
        ]
]

-- `uds_tp_recv`
unfoldable pub tp_recv : Bus CanFrame → ℕ → ℕ → TpConfig → TpResult (List ℕ) × Bus CanFrame
tp_recv bus tx_id buf_size cfg =
    if buf_size == 0 || cfg.timeout_ms == 0
    then (tp_err err_param, bus)
    else let (r, bus') = recv_frame classic bus in
      elim r [
        | tp_err e ↦ (tp_err e, bus')
        | tp_ok frame ↦
            if is_type (frame_type frame) frame_sf
            then (decode_sf false frame buf_size, bus')
            else if not (is_type (frame_type frame) frame_ff)
            then (tp_err err_frame_type, bus')
            else recv_long cfg tx_id buf_size frame bus'
      ]
