-- ===== src/Tp/Lost.antt =====
-- uds_tp_recv of src/tp/iso_tp.c, where consecutive frames of a message are lost.
use mathlib.Core.Path.{subst}
use uds.Base.{
  ◌%◌, ◌^◌, ℕ, zero, suc, ◌+◌, ◌≤◌, ◌<◌, ◌≡◌, inl, inr, refl, ap, false, List, ◌∷◌, ◌++◌, length,
  take, drop, ltb, leb, ◌==◌, ◌||◌, arith, length-take, length-drop, Bool-cases,
}
use uds.Can.{CanFrame, Bus, Arrival, reads}
use uds.Tp.{tp_err, err_sequence, TpConfig}
use uds.Tp.Link.{classic}
use uds.Tp.Frame.{classic-IsLink, ff_frame, decode_ff_lem}
use uds.Tp.Segments.{cf_frames, segment, arriving}
use uds.Tp.Receive.{recv_long, tp_recv, send_cts}
use uds.Tp.Due.{IsDue, next_bus, recv_frame_lem}
use uds.Tp.Reassembly.{send_cts_lem}
use uds.Tp.Gap.{without, recv_rest-gap}
use uds.Tp.Plan.{segment-short, segment-long}

recv_long-gap :
    (cfg : TpConfig) (tx_id can_id buf_size kept lost : ℕ) (message : List ℕ) (bus : Bus CanFrame)
    (later : List (Arrival CanFrame))
    → let frames = cf_frames classic-IsLink (length message) can_id (drop 6 message) 1 in
      IsDue (arriving 16 (without kept lost frames) ++ later) bus
      → 0 < lost
      → lost < 16
      → kept + lost < length (cf_frames classic-IsLink (length message) can_id (drop 6 message) 1)
      → 8 ≤ length message
      → length message ≤ 4095
      → length message ≤ buf_size % 2 ^ 32
      → (recv_long cfg tx_id buf_size (ff_frame can_id message (length message)) bus).0
        ≡ tp_err err_sequence
unfolding recv_long
recv_long-gap cfg tx_id can_id buf_size kept lost message bus later d gap few some_left lo hi room =
    let frames = cf_frames classic-IsLink (length message) can_id (drop 6 message) 1 in
    let (_, dec) =
      decode_ff_lem can_id message (length message) buf_size lo hi (omega arith) (omega arith) in
    let (granted, d', _) =
      send_cts_lem classic-IsLink bus cfg tx_id (arriving 16 (without kept lost frames) ++ later)
        d in
    let fails =
      recv_rest-gap classic-IsLink kept lost (length message) cfg tx_id can_id (length message)
        buf_size (take 6 message) (drop 6 message) 1 0 (send_cts classic cfg tx_id bus).1 later d'
        gap few some_left (omega (arith, length-take 6 message, length-drop 6 message))
        (omega arith) (omega arith) in
    let small : ltb (buf_size % 2 ^ 32) (length message) ≡ false = ground arith in
    rw (recv_long, dec, small, granted) fails

-- Up to 15 consecutive frames of a message that are lost in a row are noticed, wherever the gap stands, as
-- long as a frame follows it: uds_tp_recv returns UDS_TP_ERR_SEQUENCE, on a socket that works, with a
-- positive timeout and a buffer whose size, cut to 32 bits as uds_tp_recv does, would hold the message of
-- at most 4095 bytes. The first frame arrives.
pub tp_recv-gap :
    (bus : Bus CanFrame) (tx_id can_id buf_size kept lost : ℕ) (cfg : TpConfig) (message : List ℕ)
    (later : List (Arrival CanFrame))
    → IsDue (arriving 16 (without kept lost (segment can_id message)) ++ later) bus
    → 0 < kept
    → 0 < lost
    → lost < 16
    → kept + lost < length (segment can_id message)
    → length message ≤ 4095
    → length message ≤ buf_size % 2 ^ 32
    → 0 < cfg.timeout_ms
    → (tp_recv bus tx_id buf_size cfg).0 ≡ tp_err err_sequence
unfolding tp_recv
tp_recv-gap bus tx_id can_id buf_size zero lost cfg message later d first gap few some_left hi room
      time =
    absurd (omega arith)
tp_recv-gap bus tx_id can_id buf_size (suc kept) lost cfg message later d first gap few some_left hi
      room time =
    elim (Bool-cases (leb (length message) 7)) [
      | inl short ↦ absurd (omega (arith, ap length (segment-short can_id message short)))
      | inr long ↦
          let is = segment-long can_id message long in
          let frames = cf_frames classic-IsLink (length message) can_id (drop 6 message) 1 in
          let due = arriving 16 (without kept lost frames) ++ later in
          let d' : IsDue (reads 16 (ff_frame can_id message (length message)) ∷ due) bus =
            subst (λ s. IsDue (arriving 16 (without (suc kept) lost s) ++ later) bus) is d in
          let lo : 8 ≤ length message = ground (arith, long) in
          let e =
            recv_frame_lem classic-IsLink bus (ff_frame can_id message (length message)) due d' in
          let (t, _) =
            decode_ff_lem can_id message (length message) buf_size lo hi (omega arith)
              (omega arith) in
          let used : buf_size == 0 || cfg.timeout_ms == 0 ≡ false = ground arith in
          rw (tp_recv, used, ap (λ p. p.0) e, ap (λ p. p.1) e, t)
            (recv_long-gap cfg tx_id can_id buf_size kept lost message (next_bus bus due) later
              (record { works = d'.works; writable = d'.writable; due = refl }) gap few
              (omega (arith, ap length is)) lo hi room)
    ]
