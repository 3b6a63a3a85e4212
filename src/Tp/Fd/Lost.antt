-- ===== src/Tp/Fd/Lost.antt =====
-- uds_tp_recv_fd of src/tp/iso_tp.c, where consecutive frames of a message are lost.
use mathlib.Core.Path.{subst}
use uds.Base.{
  ℕ, zero, suc, ◌+◌, ◌≤◌, ◌<◌, ◌≡◌, inl, inr, refl, ap, false, List, ◌∷◌, ◌++◌, length, take, drop,
  ltb, leb, ◌==◌, arith, length-take, length-drop, Bool-cases,
}
use uds.Can.{CanfdFrame, Bus, Arrival, reads}
use uds.Tp.{tp_err, err_sequence, TpConfig}
use uds.Tp.Due.{IsDue, next_bus, recv_frame_lem}
use uds.Tp.Segments.{cf_frames, arriving}
use uds.Tp.Receive.{send_cts}
use uds.Tp.Reassembly.{send_cts_lem}
use uds.Tp.Gap.{without, recv_rest-gap}
use uds.Tp.Fd.{fd}
use uds.Tp.Fd.Cells.{ff_frame_fd, embed_fd}
use uds.Tp.Fd.First.{decode_ff_fd_lem}
use uds.Tp.Fd.Frame.{fd-IsLink}
use uds.Tp.Fd.Transfer.{recv_long_fd, tp_recv_fd}
use uds.Tp.Fd.Delivery.{
  segment_fd, segment_fd-short, segment_fd-long, embed_bounds, roomy, used_room, leb→gt,
}

recv_long_fd-gap :
    (cfg : TpConfig) (tx_id can_id buf_size kept lost : ℕ) (message : List ℕ) (bus : Bus CanfdFrame)
    (later : List (Arrival CanfdFrame))
    → let n = length message in
      let frames = cf_frames fd-IsLink n can_id (drop (embed_fd n) message) 1 in
      IsDue (arriving 72 (without kept lost frames) ++ later) bus
      → 0 < lost
      → lost < 16
      → kept + lost
        < length (
            cf_frames fd-IsLink
              (length message)
              can_id
              (drop (embed_fd (length message)) message)
              1)
      → 62 < length message
      → length message ≤ buf_size
      → (recv_long_fd cfg tx_id buf_size (ff_frame_fd can_id message (length message)) bus).0
        ≡ tp_err err_sequence
unfolding recv_long_fd
recv_long_fd-gap cfg tx_id can_id buf_size kept lost message bus later d gap few some_left lo room =
    let n = length message in
    let rest = drop (embed_fd n) message in
    let frames = cf_frames fd-IsLink n can_id rest 1 in
    let (_, dec) = decode_ff_fd_lem can_id message buf_size lo room in
    let (_, small_embed) = embed_bounds n lo in
    let (granted, d', _) =
      send_cts_lem fd-IsLink bus cfg tx_id (arriving 72 (without kept lost frames) ++ later) d in
    let fails =
      recv_rest-gap fd-IsLink kept lost n cfg tx_id can_id n buf_size (take (embed_fd n) message)
        rest 1 0 (send_cts fd cfg tx_id bus).1 later d' gap few some_left
        (omega
          (arith, small_embed, length-take (embed_fd n) message, length-drop (embed_fd n) message))
        room (omega arith) in
    let small : ltb buf_size n ≡ false = roomy n buf_size room in
    rw (recv_long_fd, dec, small, granted, fails) refl

-- Over CAN FD too, up to 15 consecutive frames of a message that are lost in a row are noticed, wherever the
-- gap stands, as long as a frame follows it: uds_tp_recv_fd returns UDS_TP_ERR_SEQUENCE, on a socket that
-- works, with a positive timeout and a buffer that would hold the message. The first frame arrives.
pub tp_recv_fd-gap :
    (bus : Bus CanfdFrame) (tx_id can_id buf_size kept lost : ℕ) (cfg : TpConfig) (message : List ℕ)
    (later : List (Arrival CanfdFrame))
    → IsDue (arriving 72 (without kept lost (segment_fd can_id message)) ++ later) bus
    → 0 < kept
    → 0 < lost
    → lost < 16
    → kept + lost < length (segment_fd can_id message)
    → length message ≤ buf_size
    → 0 < cfg.timeout_ms
    → (tp_recv_fd bus tx_id buf_size cfg).0 ≡ tp_err err_sequence
unfolding tp_recv_fd
tp_recv_fd-gap bus tx_id can_id buf_size zero lost cfg message later d first gap few some_left room
      time =
    absurd (omega arith)
tp_recv_fd-gap bus tx_id can_id buf_size (suc kept) lost cfg message later d first gap few some_left
      room time =
    elim (Bool-cases (leb (length message) 62)) [
      | inl short ↦ absurd (omega (arith, ap length (segment_fd-short can_id message short)))
      | inr long ↦
          let n = length message in
          let is = segment_fd-long can_id message long in
          let frames = cf_frames fd-IsLink n can_id (drop (embed_fd n) message) 1 in
          let due = arriving 72 (without kept lost frames) ++ later in
          let d' : IsDue (reads 72 (ff_frame_fd can_id message n) ∷ due) bus =
            subst (λ s. IsDue (arriving 72 (without (suc kept) lost s) ++ later) bus) is d in
          let lo = leb→gt n 62 long in
          let e = recv_frame_lem fd-IsLink bus (ff_frame_fd can_id message n) due d' in
          let (t, _) = decode_ff_fd_lem can_id message buf_size lo room in
          let used : buf_size == 0 ≡ false = used_room n buf_size (omega arith) room in
          let timed : cfg.timeout_ms == 0 ≡ false =
            used_room cfg.timeout_ms cfg.timeout_ms time (omega arith) in
          rw (tp_recv_fd, used, timed, ap (λ p. p.0) e, ap (λ p. p.1) e, t)
            (recv_long_fd-gap cfg tx_id can_id buf_size kept lost message (next_bus bus due) later
              (record { works = d'.works; writable = d'.writable; due = refl }) gap few
              (omega (arith, ap length is)) lo room)
    ]
