-- ===== src/Tp/Fd/Sending.antt =====
-- uds_tp_send_fd of src/tp/iso_tp.c: what it has sent when it returns, and how it ends on a socket that
-- works.
use uds.Base.{
  ℕ, ◌<◌, ◌≡◌, inl, inr, Bool, true, false, leb→le, List, ◌++◌, length, drop, ltb, leb, ◌==◌, arith,
  length-drop, Bool-cases,
}
use uds.Can.{CanfdFrame, Bus, Arrival}
use uds.Tp.{TpResult, tp_ok, tp_err, TpConfig}
use uds.Tp.Fd.{fd}
use uds.Tp.Fd.Cells.{sf_frame_fd, ff_frame_fd, embed_fd}
use uds.Tp.Fd.First.{encode_ff_fd_lem}
use uds.Tp.Fd.Frame.{fd-IsLink, encode_sf_fd_lem}
use uds.Tp.Fd.Transfer.{ff_embed, tp_send_fd}
use uds.Tp.Fd.Delivery.{segment_fd, segment_fd-short, segment_fd-long, leb→gt, embed_bounds}
use uds.Tp.Segments.{arriving, refills}
use uds.Tp.Send.{send_frame, send_long}
use uds.Tp.Due.{IsDue, send_frame-IsDue}
use uds.Tp.Outcome.{SendDone, send_frame-SendDone}
use uds.Tp.Loops.{send_long-SendDone}
use uds.Tp.Grants.{grant}
use uds.Tp.Runs.{Done}
use uds.Tp.Ends.{send_long-Done}

ff_embed_lem : (len : ℕ) → 62 < len → ff_embed len ≡ embed_fd len
unfolding ff_embed
ff_embed_lem len lo = ground arith

nonzero : (n : ℕ) → 0 < n → n == 0 ≡ false
nonzero n pos = ground arith

within : (n : ℕ) → n < 4294967296 → ltb 4294967295 n ≡ false
within n hi = ground arith

-- The path that a message takes.
tp_send_fd-short :
    (bus : Bus CanfdFrame) (tx_id : ℕ) (message : List ℕ) (cfg : TpConfig)
    → 0 < length message
    → 0 < cfg.timeout_ms
    → leb (length message) 62 ≡ true
    → tp_send_fd bus tx_id message cfg ≡ send_frame fd (tp_ok (sf_frame_fd tx_id message)) bus
unfolding tp_send_fd
tp_send_fd-short bus tx_id message cfg pos time short =
    let used : length message == 0 ≡ false = nonzero (length message) pos in
    let timed : cfg.timeout_ms == 0 ≡ false = nonzero cfg.timeout_ms time in
    rw (
      tp_send_fd,
      used,
      timed,
      short,
      encode_sf_fd_lem tx_id message pos (leb→le (length message) 62 short),
    )

tp_send_fd-long :
    (bus : Bus CanfdFrame) (tx_id : ℕ) (message : List ℕ) (cfg : TpConfig)
    → length message < 4294967296
    → 0 < cfg.timeout_ms
    → leb (length message) 62 ≡ false
    → tp_send_fd bus tx_id message cfg
      ≡ send_long fd
          (length message)
          tx_id
          (tp_ok (ff_frame_fd tx_id message (length message)))
          (drop (embed_fd (length message)) message)
          bus
unfolding tp_send_fd
tp_send_fd-long bus tx_id message cfg hi time long =
    let lo = leb→gt (length message) 62 long in
    let used : length message == 0 ≡ false = nonzero (length message) (omega arith) in
    let timed : cfg.timeout_ms == 0 ≡ false = nonzero cfg.timeout_ms time in
    let fits : ltb 4294967295 (length message) ≡ false = within (length message) hi in
    rw (
      tp_send_fd,
      used,
      timed,
      long,
      fits,
      encode_ff_fd_lem tx_id message (length message) lo hi,
      ff_embed_lem (length message) lo,
    )

-- On whatever socket, with whatever flow control, uds_tp_send_fd of a message of 1 to 2^32 - 1 bytes with a
-- positive timeout has sent exactly the frames of the message over CAN FD where it returns success. Where
-- it returns an error, it has sent the first ones of them, in order and nothing else, and its loops have
-- not run out of fuel.
pub tp_send_fd-SendDone :
    (bus : Bus CanfdFrame) (tx_id : ℕ) (message : List ℕ) (cfg : TpConfig)
    → 0 < length message
    → length message < 4294967296
    → 0 < cfg.timeout_ms
    → let (r, bus') = tp_send_fd bus tx_id message cfg in
      SendDone (bus.sent ++ segment_fd tx_id message) r bus'
tp_send_fd-SendDone bus tx_id message cfg pos hi time =
    elim (Bool-cases (leb (length message) 62)) [
      | inl short ↦
          rw
            (
              tp_send_fd-short bus tx_id message cfg pos time short,
              segment_fd-short tx_id message short,
            )
            (send_frame-SendDone fd-IsLink (sf_frame_fd tx_id message) bus)
      | inr long ↦
          rw
            (tp_send_fd-long bus tx_id message cfg hi time long, segment_fd-long tx_id message long)
            (send_long-SendDone fd-IsLink (length message) tx_id
              (ff_frame_fd tx_id message (length message))
              (drop (embed_fd (length message)) message) bus
              (omega (arith, length-drop (embed_fd (length message)) message)))
    ]

-- On a socket that works, with the flow control frames that are due for the blocks of the message.
pub tp_send_fd-Done :
    (bus : Bus CanfdFrame) (tx_id can_id bs stmin : ℕ) (message : List ℕ) (cfg : TpConfig)
    (later : List (Arrival CanfdFrame))
    → length message < 4294967296
    → 0 < cfg.timeout_ms
    → leb (length message) 62 ≡ false
    → IsDue
        (grant fd-IsLink 0 can_id bs stmin (
          arriving 72 (
            refills fd-IsLink
              (length message)
              can_id
              bs
              stmin
              (drop (embed_fd (length message)) message)
              0)
          ++ later))
        bus
    → Done fd-IsLink later (tp_send_fd bus tx_id message cfg)
tp_send_fd-Done bus tx_id can_id bs stmin message cfg later hi time long d =
    let lo = leb→gt (length message) 62 long in
    let (some, most) = embed_bounds (length message) lo in
    let left = length-drop (embed_fd (length message)) message in
    rw (tp_send_fd-long bus tx_id message cfg hi time long) (
      send_long-Done fd-IsLink (length message) tx_id can_id 0 bs stmin
        (ff_frame_fd tx_id message (length message)) (drop (embed_fd (length message)) message) bus
        later (omega arith) (omega (arith, left, some, most)) (omega (arith, left, some, most)) d)

pub tp_send_fd-single :
    (bus : Bus CanfdFrame) (tx_id : ℕ) (message : List ℕ) (cfg : TpConfig)
    (due : List (Arrival CanfdFrame))
    → 0 < length message
    → 0 < cfg.timeout_ms
    → leb (length message) 62 ≡ true
    → IsDue due bus
    → Done fd-IsLink due (tp_send_fd bus tx_id message cfg)
tp_send_fd-single bus tx_id message cfg due pos time short d =
    let (done, d', _) = send_frame-IsDue fd-IsLink (sf_frame_fd tx_id message) bus due d in
    rw (tp_send_fd-short bus tx_id message cfg pos time short) (done, d')

pub tp_send_fd-all :
    (plan : List CanfdFrame) (r : TpResult Bool) (bus' : Bus CanfdFrame)
    → SendDone plan r bus'
    → r ≡ tp_ok true
    → bus'.sent ≡ plan
tp_send_fd-all plan (tp_ok _) bus' d done = d
tp_send_fd-all plan (tp_err e) bus' d done = cc
