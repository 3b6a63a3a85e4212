-- ===== src/Tp/Limits.antt =====
-- uds_tp_recv of src/tp/iso_tp.c, whatever arrives: it ends, and a message fits.
use uds.Base.{
  ◌%◌, ◌^◌, inl, inr, ℕ, ◌+◌, ◌%◌, ◌≤◌, ◌<◌, ◌≡◌, ◌≢◌, refl, sym, ap, ◌∙◌, false, List, length,
  drop, slice, All, All-take, All-drop, ltb, ◌==◌, ◌||◌, arith, append-nil, length-take,
  length-drop, Bool-cases,
}
use mathlib.Core.Path.{subst}
use uds.Base.Bits.{IsByte, bit_and_15}
use uds.Can.{CanFrame, Bus}
use uds.Tp.{
  TpResult, tp_ok, tp_err, err_inprogress, TpConfig, is_type, frame_type, frame_sf, frame_ff,
  decode_sf, decode_ff, data_byte,
}
use uds.Tp.Link.{classic}
use uds.Tp.Frame.{classic-IsLink}
use uds.Tp.Send.{recv_frame}
use uds.Tp.Receive.{send_cts, recv_rest, recv_long, tp_recv}
use uds.Tp.Outcome.{TpResult-cases}
use uds.Tp.Reception.{IsWhole, Whole, Grants, recv_frame-Takes, send_cts-Grants}
use uds.Tp.Bounded.{Grants-trans, recv_rest-Received}

pub length-slice :
    (cells : List ℕ) (at n size : ℕ)
    → length cells ≡ size
    → at + n ≤ size
    → length (slice cells at n) ≡ n
length-slice cells at n size full fits =
    omega (arith, length-take n (drop at cells), length-drop at cells)

-- Bytes that fit a buffer, as many as a transfer has at most.
abbrev pub Bytes : ℕ → List ℕ → Type 0
Bytes buf_size m = (0 < length m) × (length m ≤ buf_size) × (length m ≤ 4095) × All IsByte m

pub All-slice : (cells : List ℕ) (at n : ℕ) → All IsByte cells → All IsByte (slice cells at n)
All-slice cells at n all = All-take IsByte n (drop at cells) (All-drop IsByte at cells all)

-- What a decoder returns fits the buffer, and its errors are its own.
decode_sf_limits :
    (frame : CanFrame) (buf_size : ℕ)
    → IsWhole classic-IsLink frame
    → (decode_sf false frame buf_size ≢ tp_err err_inprogress)
      × ((m : List ℕ) → decode_sf false frame buf_size ≡ tp_ok m → Bytes buf_size m)
unfolding decode_sf
decode_sf_limits frame buf_size (full, all) = (
  λ h. ground (arith, h),
  λ m h.
      let len : ℕ = data_byte frame 0 % 16 in
      let low = bit_and_15 (data_byte frame 0) in
      let bounds : (0 < len) × (len ≤ 7) × (len ≤ buf_size) = ground (arith, h, low) in
      let taken : m ≡ slice frame.bytes 1 len = ground (arith, h, low) in
      let size : length m ≡ len =
        ap length taken ∙ length-slice frame.bytes 1 len 8 full (omega (arith, bounds)) in
      (
        omega (arith, bounds, size),
        omega (arith, bounds, size),
        omega (arith, bounds, size),
        subst (All IsByte) (sym taken) (All-slice frame.bytes 1 len all),
      ),
)

decode_ff_limits :
    (frame : CanFrame) (buf_size : ℕ)
    → IsWhole classic-IsLink frame
    → (decode_ff false frame buf_size ≢ tp_err err_inprogress)
      × ((total : ℕ) (bytes : List ℕ)
          → decode_ff false frame buf_size ≡ tp_ok (total, bytes)
          → (8 ≤ total) × (total ≤ 4095) × (length bytes ≡ 6) × All IsByte bytes)
unfolding decode_ff
decode_ff_limits frame buf_size (full, all) = (
  λ h. ground (arith, h),
  λ total bytes h.
      let bounds : (8 ≤ total) × (total ≤ 4095) = ground (arith, h) in
      let taken : bytes ≡ slice frame.bytes 2 6 = ground (arith, h) in
      (
        bounds.0,
        bounds.1,
        ap length taken ∙ length-slice frame.bytes 2 6 8 full (omega arith),
        subst (All IsByte) (sym taken) (All-slice frame.bytes 2 6 all),
      ),
)

-- What a call comes to.
abbrev pub Fits : TpConfig → ℕ → ℕ → Bus CanFrame → TpResult (List ℕ) × Bus CanFrame → Type 0
Fits cfg tx_id buf_size bus p =
    (p.0 ≢ tp_err err_inprogress)
    × ((m : List ℕ) → p.0 ≡ tp_ok m → Bytes buf_size m)
    × Grants classic-IsLink cfg tx_id bus p.1
    × Whole classic-IsLink p.1.arrivals

recv_long-Fits :
    (cfg : TpConfig) (tx_id buf_size : ℕ) (frame : CanFrame) (bus : Bus CanFrame)
    → IsWhole classic-IsLink frame
    → Whole classic-IsLink bus.arrivals
    → Fits cfg tx_id buf_size bus (recv_long cfg tx_id buf_size frame bus)
unfolding recv_long
recv_long-Fits cfg tx_id buf_size frame bus is_whole whole =
    let (own, bounds) = decode_ff_limits frame buf_size is_whole in
    let nothing : Grants classic-IsLink cfg tx_id bus bus = (0, sym (append-nil bus.sent)) in
    elim (TpResult-cases (decode_ff false frame buf_size)) [
      | inr (e, failed) ↦
          rw (recv_long, failed)
            (λ h. ground (arith, h, failed, own), λ m h. ground (arith, h), nothing, whole)
      | inl ((total, bytes), read) ↦
          let (lo, hi, six, all) = bounds total bytes read in
          elim (Bool-cases (ltb (buf_size % 2 ^ 32) total)) [
            | inl over ↦
                rw (recv_long, read, over)
                  (λ h. ground (arith, h), λ m h. ground (arith, h), nothing, whole)
            | inr room ↦
                let (own', grants, kept) = send_cts-Grants classic-IsLink cfg tx_id bus in
                let bus' : Bus CanFrame = (send_cts classic cfg tx_id bus).1 in
                elim (TpResult-cases (send_cts classic cfg tx_id bus).0) [
                  | inr (e, failed) ↦
                      rw (recv_long, read, room, failed)
                        (
                          λ h. ground (arith, h, failed, own'),
                          λ m h. ground (arith, h),
                          grants,
                          subst (Whole classic-IsLink) (sym kept) whole,
                        )
                  | inl (_, granted) ↦
                      let out = recv_rest classic total cfg tx_id total buf_size bytes 1 0 bus' in
                      let (own'', len, grants', end) =
                        recv_rest-Received classic-IsLink total cfg tx_id total buf_size bytes 1 0
                          bus' (subst (Whole classic-IsLink) (sym kept) whole) all (omega arith) in
                      let small : total ≤ buf_size = ground (arith, room) in
                      rw (recv_long, read, room, granted)
                        (
                          own'',
                          λ m h.
                              let (low, high, are) = len m h in
                              (
                                omega (arith, low, lo),
                                omega (arith, high, lo, six, small),
                                omega (arith, high, hi, six, lo),
                                are,
                              ),
                          Grants-trans classic-IsLink cfg tx_id bus bus' out.1 grants grants',
                          end,
                        )
                ]
          ]
    ]

pub tp_recv-Fits :
    (bus : Bus CanFrame) (tx_id buf_size : ℕ) (cfg : TpConfig)
    → Whole classic-IsLink bus.arrivals
    → Fits cfg tx_id buf_size bus (tp_recv bus tx_id buf_size cfg)
unfolding tp_recv
tp_recv-Fits bus tx_id buf_size cfg whole =
    let nothing : Grants classic-IsLink cfg tx_id bus bus = (0, sym (append-nil bus.sent)) in
    elim (Bool-cases (buf_size == 0 || cfg.timeout_ms == 0)) [
      | inl unused ↦
          rw (tp_recv, unused) (λ h. ground (arith, h), λ m h. ground (arith, h), nothing, whole)
      | inr used ↦
          let (own, cells, whole', quiet) = recv_frame-Takes classic-IsLink bus whole in
          let bus' : Bus CanFrame = (recv_frame classic bus).1 in
          let still : Grants classic-IsLink cfg tx_id bus bus' =
            (0, quiet ∙ sym (append-nil bus.sent)) in
          elim (TpResult-cases (recv_frame classic bus).0) [
            | inr (e, failed) ↦
                rw (tp_recv, used, failed)
                  (λ h. ground (arith, h, failed, own), λ m h. ground (arith, h), still, whole')
            | inl (frame, got) ↦
                let full = cells frame got in
                let (own_sf, sf) = decode_sf_limits frame buf_size full in
                elim (Bool-cases (is_type (frame_type frame) frame_sf)) [
                  | inl single ↦ rw (tp_recv, used, got, single) (own_sf, sf, still, whole')
                  | inr longer ↦ elim (Bool-cases (is_type (frame_type frame) frame_ff)) [
                    | inr other ↦
                        rw (tp_recv, used, got, longer, other)
                          (λ h. ground (arith, h), λ m h. ground (arith, h), still, whole')
                    | inl first ↦
                        let (own', fits, grants, end) =
                          recv_long-Fits cfg tx_id buf_size frame bus' full whole' in
                        let out = recv_long cfg tx_id buf_size frame bus' in
                        rw (tp_recv, used, got, longer, first)
                          (
                            own',
                            fits,
                            Grants-trans classic-IsLink cfg tx_id bus bus' out.1 still grants,
                            end,
                          )
                  ]
                ]
          ]
    ]

-- What a call returns: a message that fits, or an error of its own.
abbrev pub Outcome : ℕ → TpResult (List ℕ) → Type 0
Outcome buf_size (tp_ok m) = Bytes buf_size m
Outcome buf_size (tp_err e) = e ≢ err_inprogress

outcome :
    (buf_size : ℕ) (r : TpResult (List ℕ))
    → r ≢ tp_err err_inprogress
    → ((m : List ℕ) → r ≡ tp_ok m → Bytes buf_size m)
    → Outcome buf_size r
outcome buf_size (tp_ok m) own fits = fits m refl
outcome buf_size (tp_err e) own fits = λ h. own (ap tp_err h)

-- Whatever arrives, in frames with their whole data arrays of bytes, and whatever the calls of write return:
-- uds_tp_recv returns without its loop running out of fuel, a message that it returns consists of
-- 1 to 4095 bytes and fits the buffer, and all that it sends are flow control frames that let the sender go on.
pub tp_recv-Outcome :
    (bus : Bus CanFrame) (tx_id buf_size : ℕ) (cfg : TpConfig)
    → Whole classic-IsLink bus.arrivals
    → Outcome buf_size (tp_recv bus tx_id buf_size cfg).0
      × Grants classic-IsLink cfg tx_id bus (tp_recv bus tx_id buf_size cfg).1
tp_recv-Outcome bus tx_id buf_size cfg whole =
    let (own, fits, grants, _) = tp_recv-Fits bus tx_id buf_size cfg whole in
    (outcome buf_size (tp_recv bus tx_id buf_size cfg).0 own fits, grants)
