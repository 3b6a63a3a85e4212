-- ===== src/Tp/Fd/Limits.antt =====
-- uds_tp_recv_fd of src/tp/iso_tp.c, whatever arrives: it ends, and a message fits.
use mathlib.Core.Path.{subst}
use uds.Base.{
  inl, inr, ℕ, ◌≤◌, ◌≡◌, ◌≢◌, refl, sym, ap, ◌∙◌, false, List, length, take, All-take, ltb, ◌==◌,
  arith, append-nil, length-take, Bool-cases,
}
use uds.Base.Bits.{IsByte}
use uds.Can.{CanfdFrame, Bus}
use uds.Tp.{TpResult, tp_ok, tp_err, err_inprogress, TpConfig, is_type, frame_sf, frame_ff}
use uds.Tp.Fd.{fd, frame_type_fd, decode_ff_fd}
use uds.Tp.Fd.Frame.{fd-IsLink}
use uds.Tp.Fd.Transfer.{recv_long_fd, tp_recv_fd}
use uds.Tp.Send.{recv_frame}
use uds.Tp.Receive.{send_cts, recv_rest}
use uds.Tp.Outcome.{TpResult-cases, ok_same}
use uds.Tp.Reception.{IsWhole, Whole, Grants, recv_frame-Takes, send_cts-Grants}
use uds.Tp.Bounded.{Grants-trans, recv_rest-Received}
use uds.Tp.Fd.Decoded.{BytesFd, decode_sf_fd_limits, decode_ff_fd_limits}

-- What a call comes to.
abbrev pub FitsFd : TpConfig → ℕ → ℕ → Bus CanfdFrame → TpResult (List ℕ) × Bus CanfdFrame → Type 0
FitsFd cfg tx_id buf_size bus p =
    (p.0 ≢ tp_err err_inprogress)
    × ((m : List ℕ) → p.0 ≡ tp_ok m → BytesFd buf_size m)
    × Grants fd-IsLink cfg tx_id bus p.1
    × Whole fd-IsLink p.1.arrivals

recv_long_fd-FitsFd :
    (cfg : TpConfig) (tx_id buf_size : ℕ) (frame : CanfdFrame) (bus : Bus CanfdFrame)
    → IsWhole fd-IsLink frame
    → Whole fd-IsLink bus.arrivals
    → FitsFd cfg tx_id buf_size bus (recv_long_fd cfg tx_id buf_size frame bus)
unfolding recv_long_fd
recv_long_fd-FitsFd cfg tx_id buf_size frame bus full whole =
    let (own, bounds) = decode_ff_fd_limits frame buf_size full.1 in
    let nothing : Grants fd-IsLink cfg tx_id bus bus = (0, sym (append-nil bus.sent)) in
    elim (TpResult-cases (decode_ff_fd false frame buf_size)) [
      | inr (e, failed) ↦
          rw (recv_long_fd, failed)
            (λ h. ground (arith, h, failed, own), λ m h. ground (arith, h), nothing, whole)
      | inl ((total, bytes), read) ↦
          let (pos, all) = bounds total bytes read in
          elim (Bool-cases (ltb buf_size total)) [
            | inl over ↦
                rw (recv_long_fd, read, over)
                  (λ h. ground (arith, h), λ m h. ground (arith, h), nothing, whole)
            | inr room ↦
                let (own', grants, kept) = send_cts-Grants fd-IsLink cfg tx_id bus in
                let bus' : Bus CanfdFrame = (send_cts fd cfg tx_id bus).1 in
                elim (TpResult-cases (send_cts fd cfg tx_id bus).0) [
                  | inr (e, failed) ↦
                      rw (recv_long_fd, read, room, failed)
                        (
                          λ h. ground (arith, h, failed, own'),
                          λ m h. ground (arith, h),
                          grants,
                          subst (Whole fd-IsLink) (sym kept) whole,
                        )
                  | inl (_, granted) ↦
                      let rest = recv_rest fd total cfg tx_id total buf_size bytes 1 0 bus' in
                      let (own'', len, grants', end) =
                        recv_rest-Received fd-IsLink total cfg tx_id total buf_size bytes 1 0 bus'
                          (subst (Whole fd-IsLink) (sym kept) whole) all (omega arith) in
                      let small : total ≤ buf_size = ground (arith, room) in
                      let sent = Grants-trans fd-IsLink cfg tx_id bus bus' rest.1 grants grants' in
                      elim (TpResult-cases rest.0) [
                        | inr (e, failed) ↦
                            rw (recv_long_fd, read, room, granted, failed)
                              (
                                λ h. ground (arith, h, failed, own''),
                                λ m h. ground (arith, h),
                                sent,
                                end,
                              )
                        | inl (buf, done) ↦
                            let cut : length (take total buf) ≡ total =
                              omega (arith, length-take total buf, (len buf done).0) in
                            rw (recv_long_fd, read, room, granted, done)
                              (
                                λ h. ground (arith, h),
                                λ m h. ok_same (BytesFd buf_size) h (
                                  omega (arith, cut, pos),
                                  omega (arith, cut, small),
                                  All-take IsByte total buf (len buf done).2,
                                ),
                                sent,
                                end,
                              )
                      ]
                ]
          ]
    ]

tp_recv_fd-FitsFd :
    (bus : Bus CanfdFrame) (tx_id buf_size : ℕ) (cfg : TpConfig)
    → Whole fd-IsLink bus.arrivals
    → FitsFd cfg tx_id buf_size bus (tp_recv_fd bus tx_id buf_size cfg)
unfolding tp_recv_fd
tp_recv_fd-FitsFd bus tx_id buf_size cfg whole =
    let nothing : Grants fd-IsLink cfg tx_id bus bus = (0, sym (append-nil bus.sent)) in
    elim (Bool-cases (buf_size == 0)) [
      | inl unused ↦
          rw (tp_recv_fd, unused) (λ h. ground (arith, h), λ m h. ground (arith, h), nothing, whole)
      | inr used ↦ elim (Bool-cases (cfg.timeout_ms == 0)) [
        | inl unused ↦
            rw (tp_recv_fd, used, unused)
              (λ h. ground (arith, h), λ m h. ground (arith, h), nothing, whole)
        | inr timed ↦
            let (own, cells, whole', quiet) = recv_frame-Takes fd-IsLink bus whole in
            let bus' : Bus CanfdFrame = (recv_frame fd bus).1 in
            let still : Grants fd-IsLink cfg tx_id bus bus' =
              (0, quiet ∙ sym (append-nil bus.sent)) in
            elim (TpResult-cases (recv_frame fd bus).0) [
              | inr (e, failed) ↦
                  rw (tp_recv_fd, used, timed, failed)
                    (λ h. ground (arith, h, failed, own), λ m h. ground (arith, h), still, whole')
              | inl (frame, got) ↦
                  let full = cells frame got in
                  let (own_sf, sf) = decode_sf_fd_limits frame buf_size full in
                  elim (Bool-cases (is_type (frame_type_fd frame) frame_sf)) [
                    | inl single ↦
                        rw (tp_recv_fd, used, timed, got, single) (own_sf, sf, still, whole')
                    | inr longer ↦ elim (Bool-cases (is_type (frame_type_fd frame) frame_ff)) [
                      | inr other ↦
                          rw (tp_recv_fd, used, timed, got, longer, other)
                            (λ h. ground (arith, h), λ m h. ground (arith, h), still, whole')
                      | inl first ↦
                          let (own', fits, grants, end) =
                            recv_long_fd-FitsFd cfg tx_id buf_size frame bus' full whole' in
                          let out = recv_long_fd cfg tx_id buf_size frame bus' in
                          rw (tp_recv_fd, used, timed, got, longer, first)
                            (
                              own',
                              fits,
                              Grants-trans fd-IsLink cfg tx_id bus bus' out.1 still grants,
                              end,
                            )
                    ]
                  ]
            ]
      ]
    ]

-- What a call returns: a message that fits, or an error of its own.
abbrev pub OutcomeFd : ℕ → TpResult (List ℕ) → Type 0
OutcomeFd buf_size (tp_ok m) = BytesFd buf_size m
OutcomeFd buf_size (tp_err e) = e ≢ err_inprogress

outcome :
    (buf_size : ℕ) (r : TpResult (List ℕ))
    → r ≢ tp_err err_inprogress
    → ((m : List ℕ) → r ≡ tp_ok m → BytesFd buf_size m)
    → OutcomeFd buf_size r
outcome buf_size (tp_ok m) own fits = fits m refl
outcome buf_size (tp_err e) own fits = λ h. own (ap tp_err h)

-- Whatever arrives, in frames with their whole data arrays of bytes, and whatever the calls of write return:
-- uds_tp_recv_fd returns without its loop running out of fuel, a message that it returns consists
-- of at least one byte and fits the buffer, and all that it sends are flow control frames that let the sender go on.
pub tp_recv_fd-Outcome :
    (bus : Bus CanfdFrame) (tx_id buf_size : ℕ) (cfg : TpConfig)
    → Whole fd-IsLink bus.arrivals
    → OutcomeFd buf_size (tp_recv_fd bus tx_id buf_size cfg).0
      × Grants fd-IsLink cfg tx_id bus (tp_recv_fd bus tx_id buf_size cfg).1
tp_recv_fd-Outcome bus tx_id buf_size cfg whole =
    let (own, fits, grants, _) = tp_recv_fd-FitsFd bus tx_id buf_size cfg whole in
    (outcome buf_size (tp_recv_fd bus tx_id buf_size cfg).0 own fits, grants)
