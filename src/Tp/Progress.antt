-- ===== src/Tp/Progress.antt =====
-- uds_tp_send of src/tp/iso_tp.c on a socket that works, to its end.
use uds.Base.{
  inl, inr, ℕ, zero, suc, ◌+◌, ◌%◌, ◌^◌, ◌≤◌, ◌<◌, ◌≡◌, refl, true, false, List, [], ◌∷◌, ◌++◌,
  length, drop, replicate, ltb, leb, ◌==◌, ◌||◌, arith, length-drop, Bool-cases,
}
use uds.Can.{CanFrame, Bus, Arrival, reads}
use uds.Tp.{tp_ok, tp_err, err_wait_limit, TpConfig}
use uds.Tp.Frame.{sf_frame, ff_frame, fc_frame, encode_sf_lem, encode_ff_lem, classic-IsLink}
use uds.Tp.Segments.{segment, arriving, refills}
use uds.Tp.Send.{tp_send}
use uds.Tp.Due.{IsDue, send_frame-IsDue}
use uds.Tp.Grants.{grant}
use uds.Tp.Runs.{Done}
use uds.Tp.Ends.{send_long-Done, send_long-limit}
use uds.Tp.Plan.{tp_send-segment}

-- The flow control frames that are due for a message: wait frames, a frame that grants a block, and
-- one more for each further block.
abbrev pub schedule : ℕ → ℕ → ℕ → ℕ → List ℕ → List (Arrival CanFrame) → List (Arrival CanFrame)
schedule waits can_id bs stmin message later = grant classic-IsLink waits can_id bs stmin (
    arriving 16 (refills classic-IsLink (length message) can_id bs stmin (drop 6 message) 0)
    ++ later)

pub tp_send-blocks :
    (bus : Bus CanFrame) (tx_id can_id waits bs stmin : ℕ) (message : List ℕ) (cfg : TpConfig)
    (later : List (Arrival CanFrame))
    → 7 < length message
    → length message ≤ 4095
    → 0 < cfg.timeout_ms
    → waits ≤ 10
    → IsDue (schedule waits can_id bs stmin message later) bus
    → ((tp_send bus tx_id message cfg).0 ≡ tp_ok true)
      × ((tp_send bus tx_id message cfg).1.sent ≡ bus.sent ++ segment tx_id message)
      × IsDue later (tp_send bus tx_id message cfg).1
unfolding tp_send
tp_send-blocks bus tx_id can_id waits bs stmin message cfg later long hi time few d =
    let used : (length message == 0 || ltb 4095 (length message)) ≡ false = ground arith in
    let timed : cfg.timeout_ms == 0 ≡ false = ground arith in
    let several : leb (length message) 7 ≡ false = ground arith in
    let (done, end) : Done classic-IsLink later (tp_send bus tx_id message cfg) =
      rw (tp_send, used, timed, several, encode_ff_lem tx_id message (length message) long hi)
        (send_long-Done classic-IsLink (length message) tx_id can_id waits bs stmin
          (ff_frame tx_id message (length message)) (drop 6 message) bus later few
          (omega (arith, length-drop 6 message)) (omega (arith, length-drop 6 message)) d) in
    (done, tp_send-segment bus tx_id message cfg (omega arith) hi time done, end)

pub tp_send-short :
    (bus : Bus CanFrame) (tx_id : ℕ) (message : List ℕ) (cfg : TpConfig)
    (due : List (Arrival CanFrame))
    → 0 < length message
    → length message ≤ 7
    → 0 < cfg.timeout_ms
    → IsDue due bus
    → Done classic-IsLink due (tp_send bus tx_id message cfg)
unfolding tp_send
tp_send-short bus tx_id message cfg due pos few time d =
    let used : (length message == 0 || ltb 4095 (length message)) ≡ false = ground arith in
    let timed : cfg.timeout_ms == 0 ≡ false = ground arith in
    let one : leb (length message) 7 ≡ true = ground arith in
    rw (tp_send, used, timed, one, encode_sf_lem tx_id message pos few)
      (let (done, d', _) = send_frame-IsDue classic-IsLink (sf_frame tx_id message) bus due d in
        (done, d'))

-- Without a block size no further flow control is due.
refills_unlimited :
    (n can_id stmin : ℕ) (rest : List ℕ) (count : ℕ)
    → refills classic-IsLink n can_id 0 stmin rest count ≡ []
unfolding refills
refills_unlimited zero can_id stmin rest count = refl
refills_unlimited (suc n) can_id stmin [] count = refl
refills_unlimited (suc n) can_id stmin (b ∷ more) count =
    refills_unlimited n can_id stmin (drop 7 (b ∷ more)) ((count + 1) % 2 ^ 8)

-- A message of 1 to 4095 bytes is sent in full with a positive timeout on a socket that works, where a
-- flow control frame is due that lets the sender go on without a block size, whatever its STmin:
-- uds_tp_send returns success and the frames of the message were sent.
pub tp_send-completes :
    (bus : Bus CanFrame) (tx_id can_id stmin : ℕ) (message : List ℕ) (cfg : TpConfig)
    (later : List (Arrival CanFrame))
    → 0 < length message
    → length message ≤ 4095
    → 0 < cfg.timeout_ms
    → IsDue (reads 16 (fc_frame can_id 0 0 stmin) ∷ later) bus
    → ((tp_send bus tx_id message cfg).0 ≡ tp_ok true)
      × ((tp_send bus tx_id message cfg).1.sent ≡ bus.sent ++ segment tx_id message)
tp_send-completes bus tx_id can_id stmin message cfg later pos hi time d =
    elim (Bool-cases (leb (length message) 7)) [
      | inl short ↦
          let (done, _) =
            tp_send-short bus tx_id message cfg _ pos (ground (arith, short)) time d in
          (done, tp_send-segment bus tx_id message cfg pos hi time done)
      | inr long ↦
          let none_due = refills_unlimited (length message) can_id stmin (drop 6 message) 0 in
          let d' : IsDue (schedule 0 can_id 0 stmin message later) bus = rw none_due d in
          let (done, sent, _) =
            tp_send-blocks bus tx_id can_id 0 0 stmin message cfg later (ground (arith, long)) hi
              time (omega arith) d' in
          (done, sent)
    ]

-- A message of 8 to 4095 bytes is given up with UDS_TP_ERR_WAIT_LIMIT, with nothing but its first frame
-- sent, where eleven wait frames are due on a socket that works, and the timeout is positive.
pub tp_send-wait_limit :
    (bus : Bus CanFrame) (tx_id can_id bs stmin : ℕ) (message : List ℕ) (cfg : TpConfig)
    (later : List (Arrival CanFrame))
    → 7 < length message
    → length message ≤ 4095
    → 0 < cfg.timeout_ms
    → IsDue (replicate 11 (reads 16 (fc_frame can_id 1 bs stmin)) ++ later) bus
    → ((tp_send bus tx_id message cfg).0 ≡ tp_err err_wait_limit)
      × ((tp_send bus tx_id message cfg).1.sent
          ≡ bus.sent ++ (ff_frame tx_id message (length message) ∷ []))
unfolding tp_send
tp_send-wait_limit bus tx_id can_id bs stmin message cfg later long hi time d =
    let used : (length message == 0 || ltb 4095 (length message)) ≡ false = ground arith in
    let timed : cfg.timeout_ms == 0 ≡ false = ground arith in
    let several : leb (length message) 7 ≡ false = ground arith in
    rw (tp_send, used, timed, several, encode_ff_lem tx_id message (length message) long hi)
      (send_long-limit classic-IsLink (length message) tx_id can_id bs stmin
        (ff_frame tx_id message (length message)) (drop 6 message) bus later (omega arith)
        (omega (arith, length-drop 6 message)) d)
