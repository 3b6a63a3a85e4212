-- ===== src/Tp/Delivery.antt =====
-- uds_tp_recv of src/tp/iso_tp.c, given the frames of a message.
use uds.Base.{
  ◌%◌, ◌^◌, ℕ, ◌≤◌, ◌<◌, ◌≡◌, inl, inr, refl, sym, ap, ◌∙◌, Bool, true, false, List, [], ◌∷◌, ◌++◌,
  length, take, drop, ltb, leb, ◌==◌, ◌||◌, if◌then◌else◌, arith, length-take, length-drop,
  take-append-drop, append-nil, append_assoc, Bool-cases,
}
use uds.Can.{CanFrame, Bus, Arrival, reads}
use uds.Tp.{tp_ok, TpConfig}
use uds.Tp.Link.{classic}
use uds.Tp.Frame.{classic-IsLink, sf_frame, ff_frame, fc_frame, decode_sf_lem, decode_ff_lem}
use uds.Tp.Segments.{refills, cf_frames, segment, arriving}
use uds.Tp.Receive.{recv_long, tp_recv, send_cts}
use uds.Tp.Due.{IsDue, next_bus, recv_frame_lem}
use uds.Tp.Reassembly.{send_cts_lem, recv_rest_lem}

-- The flow control frames with which a receiver of a message in several frames answers.
abbrev pub grants : TpConfig → ℕ → List ℕ → List CanFrame
grants cfg tx_id message =
    fc_frame tx_id 0 cfg.block_size cfg.st_min
    ∷ refills classic-IsLink (length message) tx_id cfg.block_size cfg.st_min (drop 6 message) 0

recv_long_lem :
    (cfg : TpConfig) (tx_id can_id buf_size : ℕ) (message : List ℕ) (bus : Bus CanFrame)
    (later : List (Arrival CanFrame))
    → IsDue
        (arriving 16 (cf_frames classic-IsLink (length message) can_id (drop 6 message) 1) ++ later)
        bus
    → 8 ≤ length message
    → length message ≤ 4095
    → length message ≤ buf_size % 2 ^ 32
    → let (r, bus') = recv_long cfg tx_id buf_size (ff_frame can_id message (length message)) bus in
      (r ≡ tp_ok message) × IsDue later bus' × (bus'.sent ≡ bus.sent ++ grants cfg tx_id message)
unfolding recv_long
recv_long_lem cfg tx_id can_id buf_size message bus later d lo hi room =
    let (_, dec) =
      decode_ff_lem can_id message (length message) buf_size lo hi (omega arith) (omega arith) in
    let (granted, d', sent) =
      send_cts_lem classic-IsLink bus cfg tx_id
        (arriving 16 (cf_frames classic-IsLink (length message) can_id (drop 6 message) 1) ++ later)
        d in
    let (ok, end, answers) =
      recv_rest_lem classic-IsLink (length message) cfg tx_id can_id (length message) buf_size
        (take 6 message) (drop 6 message) 1 0 (send_cts classic cfg tx_id bus).1 later d'
        (omega (arith, length-drop 6 message))
        (omega (arith, length-take 6 message, length-drop 6 message)) (omega arith) (omega arith) in
    let small : ltb (buf_size % 2 ^ 32) (length message) ≡ false = ground arith in
    rw (recv_long, dec, small, granted)
      (
        ok ∙ ap tp_ok (take-append-drop 6 message),
        end,
        answers
            ∙ ap
                (λ s.
                  s
                  ++ refills classic-IsLink (length message) tx_id cfg.block_size cfg.st_min
                      (drop 6 message) 0)
                sent
            ∙ append_assoc bus.sent (fc_frame tx_id 0 cfg.block_size cfg.st_min ∷ []) _,
      )

-- All that a receiver of a message sends.
abbrev pub answers : TpConfig → ℕ → List ℕ → List CanFrame
answers cfg tx_id message = if leb (length message) 7 then [] else grants cfg tx_id message

pub tp_recv-frames :
    (bus : Bus CanFrame) (tx_id can_id buf_size : ℕ) (cfg : TpConfig) (message : List ℕ)
    (later : List (Arrival CanFrame))
    → IsDue (arriving 16 (segment can_id message) ++ later) bus
    → 0 < length message
    → length message ≤ 4095
    → length message ≤ buf_size % 2 ^ 32
    → 0 < cfg.timeout_ms
    → ((tp_recv bus tx_id buf_size cfg).0 ≡ tp_ok message)
      × IsDue later (tp_recv bus tx_id buf_size cfg).1
      × ((tp_recv bus tx_id buf_size cfg).1.sent ≡ bus.sent ++ answers cfg tx_id message)
unfolding tp_recv segment
tp_recv-frames bus tx_id can_id buf_size cfg message later d pos hi room time =
    let used : buf_size == 0 || cfg.timeout_ms == 0 ≡ false = ground arith in
    let reply : (b c : Bool)
        → b ≡ c
        → bus.sent ++ (if b then [] else grants cfg tx_id message)
          ≡ bus.sent ++ (if c then [] else grants cfg tx_id message) =
      λ b c. ap (λ b. bus.sent ++ (if b then [] else grants cfg tx_id message)) in
    elim (Bool-cases (leb (length message) 7)) [
      | inl short ↦
          let d' : IsDue (reads 16 (sf_frame can_id message) ∷ later) bus =
            rw (segment, short) at d in
          let e = recv_frame_lem classic-IsLink bus (sf_frame can_id message) later d' in
          let (t, dec) =
            decode_sf_lem can_id message buf_size pos (ground (arith, short)) (omega arith) in
          rw (tp_recv, used, ap (λ p. p.0) e, ap (λ p. p.1) e, t)
            (
              dec,
              record { works = d.works; writable = d.writable; due = refl },
              sym (append-nil bus.sent) ∙ reply true (leb (length message) 7) (sym short),
            )
      | inr long ↦
          let frames =
            arriving 16 (cf_frames classic-IsLink (length message) can_id (drop 6 message) 1)
            ++ later in
          let d' : IsDue (reads 16 (ff_frame can_id message (length message)) ∷ frames) bus =
            rw (segment, long) at d in
          let e =
            recv_frame_lem classic-IsLink bus (ff_frame can_id message (length message)) frames
              d' in
          let (t, _) =
            decode_ff_lem can_id message (length message) buf_size (ground (arith, long)) hi
              (ground (arith, long)) (ground (arith, long)) in
          let (ok, end, sent) =
            recv_long_lem cfg tx_id can_id buf_size message (next_bus bus frames) later
              (record { works = d.works; writable = d.writable; due = refl }) (ground (arith, long))
              hi room in
          rw (tp_recv, used, ap (λ p. p.0) e, ap (λ p. p.1) e, t)
            (ok, end, sent ∙ reply false (leb (length message) 7) (sym long))
    ]

-- The frames that a message of 1 to 4095 bytes is cut into, received one after the other on a socket
-- that works with a positive timeout, are put together to the message, for every block size and STmin
-- of the receiver and every identifier of the sender, in a buffer whose size, cut to 32 bits, holds it.
-- What arrives later is not touched.
pub tp_recv-segment :
    (bus : Bus CanFrame) (tx_id can_id buf_size : ℕ) (cfg : TpConfig) (message : List ℕ)
    (later : List (Arrival CanFrame))
    → IsDue (arriving 16 (segment can_id message) ++ later) bus
    → 0 < length message
    → length message ≤ 4095
    → length message ≤ buf_size % 2 ^ 32
    → 0 < cfg.timeout_ms
    → ((tp_recv bus tx_id buf_size cfg).0 ≡ tp_ok message)
      × IsDue later (tp_recv bus tx_id buf_size cfg).1
tp_recv-segment bus tx_id can_id buf_size cfg message later d pos hi room time =
    let (ok, end, _) =
      tp_recv-frames bus tx_id can_id buf_size cfg message later d pos hi room time in
    (ok, end)
