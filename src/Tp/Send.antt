-- ===== src/Tp/Send.antt =====
-- src/tp/iso_tp.c: uds_tp_send. `sock` and the pointers are not NULL. A loop has a fuel: the bytes
-- that are left for the two loops over the message, the wait frames still allowed for the third.
use uds.Base.{
  ℕ, zero, suc, ◌+◌, ◌%◌, ◌^◌, bit_and, Bool, true, false, not, ◌&&◌, ◌||◌, none, some, List, [],
  ◌∷◌, length, take, drop, ltb, leb, ◌==◌, if◌then◌else◌,
}
use uds.Can.{CanFrame, Bus, can_ok, can_err_timeout, can_send, can_recv}
use uds.Tp.Link.{Link, classic}
use uds.Tp.{
  TpResult, tp_ok, tp_err, err_param, err_timeout, err_overflow, err_send, err_inprogress, err_recv,
  err_wait_limit, TpConfig, apply_stmin, encode_sf, encode_ff, max_pdu_len, sf_max_data,
  ff_data_bytes, max_wait_frames, fc_wait, fc_overflow,
}

abbrev pub next_sn : ℕ → ℕ
next_sn sn = bit_and (sn + 1) 0x0F

module _ {F : Type 0} (l : Link F) where
  -- `uds_can_recv` with the errors that the transfers return.
  unfoldable pub recv_frame : Bus F → TpResult F × Bus F
  recv_frame bus =
      let (status, frame, bus') = can_recv l.size bus in
      elim status [
        | can_err_timeout ↦ (tp_err err_timeout, bus')
        | can_ok ↦ elim frame [ none ↦ (tp_err err_recv, bus') | some f ↦ (tp_ok f, bus') ]
        | _ ↦ (tp_err err_recv, bus')
      ]

  -- `uds_can_send` of what an encoder gave.
  unfoldable pub send_frame : TpResult F → Bus F → TpResult Bool × Bus F
  send_frame (tp_err e) bus = (tp_err e, bus)
  send_frame (tp_ok frame) bus =
      let (status, bus') = can_send l.size bus frame in
      elim status [ can_ok ↦ (tp_ok true, bus') | _ ↦ (tp_err err_send, bus') ]

  -- A flow control frame is awaited: it is received and decoded, and an overflow ends the transfer.
  unfoldable pub recv_fc : Bus F → TpResult (ℕ × ℕ × ℕ) × Bus F
  recv_fc bus =
      let (r, bus') = recv_frame bus in
      elim r [
        | tp_err e ↦ (tp_err e, bus')
        | tp_ok frame ↦ elim (l.dec_fc frame) [
          | tp_err e ↦ (tp_err e, bus')
          | tp_ok (fs, bs, stmin) ↦
              if fs == fc_overflow
              then (tp_err err_overflow, bus')
              else (tp_ok (fs, bs, stmin), bus')
        ]
      ]

  -- The loop over the wait frames; `allowed` more are accepted.
  unfoldable pub wait_cts : ℕ → ℕ × ℕ × ℕ → Bus F → TpResult (ℕ × ℕ × ℕ) × Bus F
  wait_cts zero (fs, bs, stmin) bus =
      if fs == fc_wait then (tp_err err_wait_limit, bus) else (tp_ok (fs, bs, stmin), bus)
  wait_cts (suc allowed) (fs, bs, stmin) bus =
      if not (fs == fc_wait)
      then (tp_ok (fs, bs, stmin), bus)
      else let (r, bus') = recv_fc bus in
        elim r [ tp_err e ↦ (tp_err e, bus') | tp_ok fc ↦ wait_cts allowed fc bus' ]

  -- The flow control of the outer loop: one frame, and then the wait frames.
  unfoldable pub await_cts : Bus F → TpResult (ℕ × ℕ × ℕ) × Bus F
  await_cts bus =
      let (r, bus') = recv_fc bus in
      elim r [ tp_err e ↦ (tp_err e, bus') | tp_ok fc ↦ wait_cts max_wait_frames fc bus' ]

  -- The inner loop: consecutive frames until the message or the block ends. It gives the bytes that are
  -- left and the next sequence number.
  unfoldable pub send_block : ℕ → ℕ → List ℕ → ℕ → ℕ → ℕ → ℕ → Bus F → TpResult (List ℕ × ℕ) × Bus F
  send_block zero tx_id rest sn bs bs_sent stmin bus = (tp_ok (rest, sn), bus)
  send_block (suc fuel) tx_id [] sn bs bs_sent stmin bus = (tp_ok ([], sn), bus)
  send_block (suc fuel) tx_id (b ∷ more) sn bs bs_sent stmin bus =
      let chunk = take l.cf_bytes (b ∷ more) in
      let rest' = drop l.cf_bytes (b ∷ more) in
      let (r, bus') = send_frame (l.enc_cf tx_id chunk sn) (apply_stmin stmin bus) in
      let sent : ℕ = (bs_sent + 1) % 2 ^ 8 in
      let later = send_block fuel tx_id rest' (next_sn sn) bs sent stmin bus' in
      elim r [
        | tp_err e ↦ (tp_err e, bus')
        | tp_ok _ ↦ if ltb 0 bs && leb bs sent then (tp_ok (rest', next_sn sn), bus') else later
      ]

  -- The outer loop. Without fuel it gives an error that the function itself never returns.
  unfoldable pub send_rest : ℕ → ℕ → List ℕ → ℕ → Bus F → TpResult Bool × Bus F
  send_rest fuel tx_id [] sn bus = (tp_ok true, bus)
  send_rest zero tx_id (b ∷ more) sn bus = (tp_err err_inprogress, bus)
  send_rest (suc fuel) tx_id (b ∷ more) sn bus =
      let (r, bus') = await_cts bus in
      elim r [
        | tp_err e ↦ (tp_err e, bus')
        | tp_ok (fs, bs, stmin) ↦
            let (s, bus'') = send_block (length (b ∷ more)) tx_id (b ∷ more) sn bs 0 stmin bus' in
            elim s [
              | tp_err e ↦ (tp_err e, bus'')
              | tp_ok (rest, sn') ↦ send_rest fuel tx_id rest sn' bus''
            ]
      ]

  -- A message in several frames: the first frame, and the loop over the rest.
  unfoldable pub send_long : ℕ → ℕ → TpResult F → List ℕ → Bus F → TpResult Bool × Bus F
  send_long fuel tx_id first rest bus =
      let (r, bus') = send_frame first bus in
      elim r [ tp_err e ↦ (tp_err e, bus') | tp_ok _ ↦ send_rest fuel tx_id rest 1 bus' ]

-- `uds_tp_send`
unfoldable pub tp_send : Bus CanFrame → ℕ → List ℕ → TpConfig → TpResult Bool × Bus CanFrame
tp_send bus tx_id message cfg =
    if length message == 0 || ltb max_pdu_len (length message)
    then (tp_err err_param, bus)
    else if cfg.timeout_ms == 0
    then (tp_err err_param, bus)
    else if leb (length message) sf_max_data
    then send_frame classic (encode_sf false tx_id message) bus
    else send_long classic (length message) tx_id (encode_ff false tx_id message (length message))
        (drop ff_data_bytes message) bus
