-- ===== src/Tp/Plan.antt =====
-- uds_tp_send of src/tp/iso_tp.c on whatever socket: what it has sent when it returns.
use uds.Base.{
  ℕ, ◌≤◌, ◌<◌, ◌≡◌, ◌≢◌, inl, inr, refl, ◌∙◌, Bool, true, false, List, [], ◌∷◌, ◌++◌, length, drop,
  ltb, leb, ◌==◌, ◌||◌, arith, length-drop, append-nil, Bool-cases,
}
use uds.Can.{CanFrame, Bus}
use uds.Tp.{TpResult, tp_ok, tp_err, err_inprogress, TpConfig}
use uds.Tp.Frame.{classic-IsLink, sf_frame, ff_frame, encode_sf_lem, encode_ff_lem}
use uds.Tp.Segments.{cf_frames, segment}
use uds.Tp.Send.{tp_send}
use uds.Tp.Outcome.{SendDone, IsPrefix, send_frame-SendDone}
use uds.Tp.Loops.{send_long-SendDone}

pub segment-short :
    (tx_id : ℕ) (message : List ℕ)
    → leb (length message) 7 ≡ true
    → segment tx_id message ≡ sf_frame tx_id message ∷ []
unfolding segment
segment-short tx_id message short = rw (segment, short) refl

pub segment-long :
    (tx_id : ℕ) (message : List ℕ)
    → leb (length message) 7 ≡ false
    → segment tx_id message
      ≡ ff_frame tx_id message (length message)
        ∷ cf_frames classic-IsLink (length message) tx_id (drop 6 message) 1
unfolding segment
segment-long tx_id message long = rw (segment, long) refl

-- On whatever socket, with whatever flow control, uds_tp_send of a message of 1 to 4095 bytes with a
-- positive timeout has sent exactly the frames of the message where it returns success. Where it returns an
-- error, it has sent the first ones of them, in order and nothing else, and its loops have not run out of
-- fuel.
pub tp_send-SendDone :
    (bus : Bus CanFrame) (tx_id : ℕ) (message : List ℕ) (cfg : TpConfig)
    → 0 < length message
    → length message ≤ 4095
    → 0 < cfg.timeout_ms
    → let (r, bus') = tp_send bus tx_id message cfg in
      SendDone (bus.sent ++ segment tx_id message) r bus'
unfolding tp_send
tp_send-SendDone bus tx_id message cfg pos hi time =
    let used : (length message == 0 || ltb 4095 (length message)) ≡ false = ground arith in
    let timed : cfg.timeout_ms == 0 ≡ false = ground arith in
    elim (Bool-cases (leb (length message) 7)) [
      | inl short ↦
          rw
            (
              tp_send,
              used,
              timed,
              short,
              segment-short tx_id message short,
              encode_sf_lem tx_id message pos (ground (arith, short)),
            )
            (send_frame-SendDone classic-IsLink (sf_frame tx_id message) bus)
      | inr long ↦
          rw
            (
              tp_send,
              used,
              timed,
              long,
              segment-long tx_id message long,
              encode_ff_lem tx_id message (length message) (ground (arith, long)) hi,
            )
            (send_long-SendDone classic-IsLink (length message) tx_id
              (ff_frame tx_id message (length message)) (drop 6 message) bus
              (omega (arith, length-drop 6 message)))
    ]

-- What was sent, from what the transfer came to.
pub SendDone-IsPrefix :
    {F : Type 0} (plan : List F) (r : TpResult Bool) (bus' : Bus F)
    → SendDone plan r bus'
    → (r ≢ tp_err err_inprogress) × IsPrefix bus'.sent plan
SendDone-IsPrefix plan (tp_ok _) bus' d = (λ h. ground (arith, h), ([], append-nil _ ∙ d))
SendDone-IsPrefix plan (tp_err e) bus' (own, prefix) = (λ h. own (ground (arith, h)), prefix)

-- The same, whatever it returns.
pub tp_send-IsPrefix :
    (bus : Bus CanFrame) (tx_id : ℕ) (message : List ℕ) (cfg : TpConfig)
    → 0 < length message
    → length message ≤ 4095
    → 0 < cfg.timeout_ms
    → ((tp_send bus tx_id message cfg).0 ≢ tp_err err_inprogress)
      × IsPrefix (tp_send bus tx_id message cfg).1.sent (bus.sent ++ segment tx_id message)
tp_send-IsPrefix bus tx_id message cfg pos hi time =
    SendDone-IsPrefix (bus.sent ++ segment tx_id message) (tp_send bus tx_id message cfg).0
      (tp_send bus tx_id message cfg).1 (tp_send-SendDone bus tx_id message cfg pos hi time)

-- Where uds_tp_send of a message of 1 to 4095 bytes with a positive timeout returns success, exactly
-- the frames of the message were sent.
pub tp_send-segment :
    (bus : Bus CanFrame) (tx_id : ℕ) (message : List ℕ) (cfg : TpConfig)
    → 0 < length message
    → length message ≤ 4095
    → 0 < cfg.timeout_ms
    → (tp_send bus tx_id message cfg).0 ≡ tp_ok true
    → (tp_send bus tx_id message cfg).1.sent ≡ bus.sent ++ segment tx_id message
tp_send-segment bus tx_id message cfg pos hi time done =
    let d = tp_send-SendDone bus tx_id message cfg pos hi time in rw done at d
