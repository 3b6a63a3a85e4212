-- ===== src/Tp/Fd/Delivery.antt =====
-- uds_tp_recv_fd of src/tp/iso_tp.c, given the frames of a message.
use uds.Base.{
  inl, inr, ℕ, ◌≤◌, ◌<◌, ◌≡◌, refl, sym, ap, ◌∙◌, Bool, true, false, List, [], ◌∷◌, ◌++◌, length,
  take, drop, ltb, leb, ◌==◌, if◌then◌else◌, arith, length-take, length-drop, append-nil,
  append_assoc, take-append-drop, take_all, Bool-cases, leb→le,
}
use uds.Can.{CanfdFrame, Bus, Arrival, reads}
use uds.Tp.{tp_ok, TpConfig}
use uds.Tp.Fd.{fd}
use uds.Tp.Fd.Cells.{sf_frame_fd, ff_frame_fd, fc_frame_fd, embed_fd}
use uds.Tp.Fd.First.{decode_ff_fd_lem}
use uds.Tp.Fd.Frame.{decode_sf_fd_lem, fd-IsLink}
use uds.Tp.Fd.Transfer.{recv_long_fd, tp_recv_fd}
use uds.Tp.Segments.{cf_frames, arriving, refills}
use uds.Tp.Receive.{send_cts}
use uds.Tp.Due.{IsDue, next_bus, recv_frame_lem}
use uds.Tp.Reassembly.{send_cts_lem, recv_rest_lem}

-- The frames of a message: a single frame, or a first frame and consecutive frames.
unfoldable pub segment_fd : ℕ → List ℕ → List CanfdFrame
segment_fd can_id message =
    if leb (length message) 62
    then sf_frame_fd can_id message ∷ []
    else ff_frame_fd can_id message (length message)
      ∷ cf_frames fd-IsLink (length message) can_id (drop (embed_fd (length message)) message) 1

-- The flow control frames with which a receiver of a message in several frames answers.
abbrev pub grants_fd : TpConfig → ℕ → List ℕ → List CanfdFrame
grants_fd cfg tx_id message =
    fc_frame_fd tx_id 0 cfg.block_size cfg.st_min
    ∷ refills fd-IsLink (length message) tx_id cfg.block_size cfg.st_min
        (drop (embed_fd (length message)) message) 0

-- All that a receiver of a message sends.
abbrev pub answers_fd : TpConfig → ℕ → List ℕ → List CanfdFrame
answers_fd cfg tx_id message = if leb (length message) 62 then [] else grants_fd cfg tx_id message

pub embed_bounds : (n : ℕ) → 62 < n → (0 < embed_fd n) × (embed_fd n ≤ 62)
embed_bounds n lo = ground arith

pub roomy : (n size : ℕ) → n ≤ size → ltb size n ≡ false
roomy n size room = ground arith

recv_long_fd_lem :
    (cfg : TpConfig) (tx_id can_id buf_size : ℕ) (message : List ℕ) (bus : Bus CanfdFrame)
    (later : List (Arrival CanfdFrame))
    → IsDue
        (arriving 72 (
            cf_frames fd-IsLink
              (length message)
              can_id
              (drop (embed_fd (length message)) message)
              1)
          ++ later)
        bus
    → 62 < length message
    → length message ≤ buf_size
    → let (r, bus') =
        recv_long_fd cfg tx_id buf_size (ff_frame_fd can_id message (length message)) bus in
      (r ≡ tp_ok message) × IsDue later bus' × (bus'.sent ≡ bus.sent ++ grants_fd cfg tx_id message)
unfolding recv_long_fd
recv_long_fd_lem cfg tx_id can_id buf_size message bus later d lo room =
    let n = length message in
    let small : ltb buf_size n ≡ false = roomy n buf_size room in
    let rest = drop (embed_fd n) message in
    let (_, dec) = decode_ff_fd_lem can_id message buf_size lo room in
    let (_, small_embed) = embed_bounds n lo in
    let (granted, d', sent) =
      send_cts_lem fd-IsLink bus cfg tx_id
        (arriving 72 (cf_frames fd-IsLink n can_id rest 1) ++ later) d in
    let (ok, end, replies) =
      recv_rest_lem fd-IsLink n cfg tx_id can_id n buf_size (take (embed_fd n) message) rest 1 0
        (send_cts fd cfg tx_id bus).1 later d' (omega (arith, length-drop (embed_fd n) message))
        (omega
          (arith, small_embed, length-take (embed_fd n) message, length-drop (embed_fd n) message))
        room (omega arith) in
    let whole : take n (take (embed_fd n) message ++ rest) ≡ message =
      ap (take n) (take-append-drop (embed_fd n) message) ∙ take_all n message (omega arith) in
    rw (recv_long_fd, dec, small, granted, ok)
      (
        ap tp_ok whole,
        end,
        replies
            ∙ ap (λ s. s ++ refills fd-IsLink n tx_id cfg.block_size cfg.st_min rest 0) sent
            ∙ append_assoc bus.sent (fc_frame_fd tx_id 0 cfg.block_size cfg.st_min ∷ []) _,
      )

pub used_room : (n size : ℕ) → 0 < n → n ≤ size → size == 0 ≡ false
used_room n size pos room = ground arith

pub leb→gt : (n bound : ℕ) → leb n bound ≡ false → bound < n
leb→gt n bound h = ground arith

pub segment_fd-short :
    (can_id : ℕ) (message : List ℕ)
    → leb (length message) 62 ≡ true
    → segment_fd can_id message ≡ sf_frame_fd can_id message ∷ []
unfolding segment_fd
segment_fd-short can_id message short = rw (segment_fd, short) refl

pub segment_fd-long :
    (can_id : ℕ) (message : List ℕ)
    → leb (length message) 62 ≡ false
    → segment_fd can_id message
      ≡ ff_frame_fd can_id message (length message)
        ∷ cf_frames fd-IsLink (length message) can_id (drop (embed_fd (length message)) message) 1
unfolding segment_fd
segment_fd-long can_id message long = rw (segment_fd, long) refl

answers_fd-at :
    (cfg : TpConfig) (tx_id : ℕ) (message : List ℕ) (sent : List CanfdFrame) (short : Bool)
    → leb (length message) 62 ≡ short
    → sent ++ (if short then [] else grants_fd cfg tx_id message)
      ≡ sent ++ answers_fd cfg tx_id message
answers_fd-at cfg tx_id message sent short e =
    ap (λ b. sent ++ (if b then [] else grants_fd cfg tx_id message)) (sym e)

-- The frames that a message is cut into over CAN FD, received one after the other on a socket that works,
-- are put together to the message, and all that the receiver sends are the flow control frames of its
-- blocks.
pub tp_recv_fd-frames :
    (bus : Bus CanfdFrame) (tx_id can_id buf_size : ℕ) (cfg : TpConfig) (message : List ℕ)
    (later : List (Arrival CanfdFrame))
    → IsDue (arriving 72 (segment_fd can_id message) ++ later) bus
    → 0 < length message
    → length message ≤ buf_size
    → 0 < cfg.timeout_ms
    → ((tp_recv_fd bus tx_id buf_size cfg).0 ≡ tp_ok message)
      × IsDue later (tp_recv_fd bus tx_id buf_size cfg).1
      × ((tp_recv_fd bus tx_id buf_size cfg).1.sent ≡ bus.sent ++ answers_fd cfg tx_id message)
unfolding tp_recv_fd
tp_recv_fd-frames bus tx_id can_id buf_size cfg message later d pos room time =
    let used : buf_size == 0 ≡ false = used_room (length message) buf_size pos room in
    let timed : cfg.timeout_ms == 0 ≡ false =
      used_room cfg.timeout_ms cfg.timeout_ms time (omega arith) in
    elim (Bool-cases (leb (length message) 62)) [
      | inl short ↦
          let d' : IsDue (reads 72 (sf_frame_fd can_id message) ∷ later) bus =
            rw (segment_fd-short can_id message short) at d in
          let e = recv_frame_lem fd-IsLink bus (sf_frame_fd can_id message) later d' in
          let (t, dec) =
            decode_sf_fd_lem can_id message buf_size pos (leb→le (length message) 62 short) room in
          rw (tp_recv_fd, used, timed, ap (λ p. p.0) e, ap (λ p. p.1) e, t)
            (
              dec,
              record { works = d.works; writable = d.writable; due = refl },
              sym (append-nil bus.sent) ∙ answers_fd-at cfg tx_id message bus.sent true short,
            )
      | inr long ↦
          let frames =
            arriving 72 (
              cf_frames fd-IsLink (length message) can_id (drop (embed_fd (length message)) message)
                1)
            ++ later in
          let d' : IsDue (reads 72 (ff_frame_fd can_id message (length message)) ∷ frames) bus =
            rw (segment_fd-long can_id message long) at d in
          let e =
            recv_frame_lem fd-IsLink bus (ff_frame_fd can_id message (length message)) frames d' in
          let lo = leb→gt (length message) 62 long in
          let (t, _) = decode_ff_fd_lem can_id message buf_size lo room in
          let (ok, end, sent) =
            recv_long_fd_lem cfg tx_id can_id buf_size message (next_bus bus frames) later
              (record { works = d.works; writable = d.writable; due = refl }) lo room in
          rw (tp_recv_fd, used, timed, ap (λ p. p.0) e, ap (λ p. p.1) e, t)
            (ok, end, sent ∙ answers_fd-at cfg tx_id message bus.sent false long)
    ]
