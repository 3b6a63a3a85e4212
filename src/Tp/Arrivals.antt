-- ===== src/Tp/Arrivals.antt =====
-- What is still to arrive when uds_tp_send of src/tp/iso_tp.c returns: it stays whole.
use mathlib.Core.Path.{subst}
use uds.Base.{
  ℕ, zero, suc, ◌+◌, ◌%◌, ◌^◌, ◌≡◌, inl, inr, refl, sym, false, List, [], ◌∷◌, ◌&&◌, ◌||◌, length,
  take, drop, ltb, leb, ◌==◌, arith, Bool-cases,
}
use uds.Can.{CanFrame, Bus, can_send}
use uds.Tp.{TpResult, tp_ok, tp_err, fc_overflow, TpConfig, apply_stmin, encode_sf, encode_ff}
use uds.Tp.Link.{Link, IsLink}
use uds.Tp.Frame.{classic-IsLink}
use uds.Tp.Send.{
  recv_frame, send_frame, recv_fc, wait_cts, await_cts, send_block, send_rest, send_long, next_sn,
  tp_send,
}
use uds.Tp.Outcome.{TpResult-cases}
use uds.Tp.Reception.{Whole, recv_frame-Takes}

module _ {F : Type 0} {l : Link F} (w : IsLink l) where
  arrivals-send_frame :
      (frame : TpResult F) (bus : Bus F) → (send_frame l frame bus).1.arrivals ≡ bus.arrivals
  unfolding send_frame can_send
  arrivals-send_frame (tp_err e) bus = refl
  arrivals-send_frame (tp_ok frame) bus = ground arith

  pub send_frame-Whole :
      (frame : TpResult F) (bus : Bus F)
      → Whole w bus.arrivals
      → Whole w (send_frame l frame bus).1.arrivals
  send_frame-Whole frame bus whole = subst (Whole w) (sym (arrivals-send_frame frame bus)) whole

  recv_fc-Whole : (bus : Bus F) → Whole w bus.arrivals → Whole w (recv_fc l bus).1.arrivals
  unfolding recv_fc
  recv_fc-Whole bus whole =
      let (_, _, whole', _) = recv_frame-Takes w bus whole in
      elim (TpResult-cases (recv_frame l bus).0) [
        | inr (e, failed) ↦ rw (recv_fc, failed) whole'
        | inl (frame, got) ↦ elim (TpResult-cases (l.dec_fc frame)) [
          | inr (e, failed) ↦ rw (recv_fc, got, failed) whole'
          | inl ((fs, bs, stmin), read) ↦ elim (Bool-cases (fs == fc_overflow)) [
            | inl over ↦ rw (recv_fc, got, read, over) whole'
            | inr fine ↦ rw (recv_fc, got, read, fine) whole'
          ]
        ]
      ]

  wait_cts-Whole :
      (allowed : ℕ) (fc : ℕ × ℕ × ℕ) (bus : Bus F)
      → Whole w bus.arrivals
      → Whole w (wait_cts l allowed fc bus).1.arrivals
  unfolding wait_cts
  wait_cts-Whole zero (fs, bs, stmin) bus whole = elim (Bool-cases (fs == 1)) [
    | inl waits ↦ rw (wait_cts, waits) whole
    | inr cts ↦ rw (wait_cts, cts) whole
  ]
  wait_cts-Whole (suc allowed) (fs, bs, stmin) bus whole =
      let whole' = recv_fc-Whole bus whole in
      elim (Bool-cases (fs == 1)) [
        | inr cts ↦ rw (wait_cts, cts) whole
        | inl waits ↦ elim (TpResult-cases (recv_fc l bus).0) [
          | inr (e, failed) ↦ rw (wait_cts, waits, failed) whole'
          | inl (fc, got) ↦
              rw (wait_cts, waits, got) (wait_cts-Whole allowed fc (recv_fc l bus).1 whole')
        ]
      ]

  await_cts-Whole : (bus : Bus F) → Whole w bus.arrivals → Whole w (await_cts l bus).1.arrivals
  unfolding await_cts
  await_cts-Whole bus whole =
      let whole' = recv_fc-Whole bus whole in
      elim (TpResult-cases (recv_fc l bus).0) [
        | inr (e, failed) ↦ rw (await_cts, failed) whole'
        | inl (fc, got) ↦ rw (await_cts, got) (wait_cts-Whole 10 fc (recv_fc l bus).1 whole')
      ]

  send_block-Whole :
      (n tx_id : ℕ) (rest : List ℕ) (sn bs count stmin : ℕ) (bus : Bus F)
      → Whole w bus.arrivals
      → Whole w (send_block l n tx_id rest sn bs count stmin bus).1.arrivals
  unfolding send_block
  send_block-Whole zero tx_id rest sn bs count stmin bus whole = whole
  send_block-Whole (suc n) tx_id [] sn bs count stmin bus whole = whole
  send_block-Whole (suc n) tx_id (b ∷ more) sn bs count stmin bus whole =
      let frame = l.enc_cf tx_id (take l.cf_bytes (b ∷ more)) sn in
      let out = send_frame l frame (apply_stmin stmin bus) in
      let whole' = send_frame-Whole frame (apply_stmin stmin bus) whole in
      elim (TpResult-cases out.0) [
        | inr (e, failed) ↦ rw (send_block, failed) whole'
        | inl (_, done) ↦ elim (Bool-cases (ltb 0 bs && leb bs ((count + 1) % 2 ^ 8))) [
          | inl over ↦ rw (send_block, done, over) whole'
          | inr running ↦
              rw (send_block, done, running)
                (send_block-Whole n tx_id (drop l.cf_bytes (b ∷ more)) (next_sn sn) bs
                  ((count + 1) % 2 ^ 8) stmin out.1 whole')
        ]
      ]

  send_rest-Whole :
      (n tx_id : ℕ) (rest : List ℕ) (sn : ℕ) (bus : Bus F)
      → Whole w bus.arrivals
      → Whole w (send_rest l n tx_id rest sn bus).1.arrivals
  unfolding send_rest
  send_rest-Whole zero tx_id [] sn bus whole = whole
  send_rest-Whole zero tx_id (b ∷ more) sn bus whole = whole
  send_rest-Whole (suc n) tx_id [] sn bus whole = whole
  send_rest-Whole (suc n) tx_id (b ∷ more) sn bus whole =
      let whole' = await_cts-Whole bus whole in
      let bus' : Bus F = (await_cts l bus).1 in
      elim (TpResult-cases (await_cts l bus).0) [
        | inr (e, failed) ↦ rw (send_rest, failed) whole'
        | inl ((fs, bs, stmin), got) ↦
            let out = send_block l (length (b ∷ more)) tx_id (b ∷ more) sn bs 0 stmin bus' in
            let whole'' =
              send_block-Whole (length (b ∷ more)) tx_id (b ∷ more) sn bs 0 stmin bus' whole' in
            elim (TpResult-cases out.0) [
              | inr (e, failed) ↦ rw (send_rest, got, failed) whole''
              | inl ((rest', sn'), went) ↦
                  rw (send_rest, got, went) (send_rest-Whole n tx_id rest' sn' out.1 whole'')
            ]
      ]

  pub send_long-Whole :
      (n tx_id : ℕ) (first : TpResult F) (rest : List ℕ) (bus : Bus F)
      → Whole w bus.arrivals
      → Whole w (send_long l n tx_id first rest bus).1.arrivals
  unfolding send_long
  send_long-Whole n tx_id first rest bus whole =
      let whole' = send_frame-Whole first bus whole in
      elim (TpResult-cases (send_frame l first bus).0) [
        | inr (e, failed) ↦ rw (send_long, failed) whole'
        | inl (_, done) ↦
            rw (send_long, done) (send_rest-Whole n tx_id rest 1 (send_frame l first bus).1 whole')
      ]

pub tp_send-Whole :
    (bus : Bus CanFrame) (tx_id : ℕ) (message : List ℕ) (cfg : TpConfig)
    → Whole classic-IsLink bus.arrivals
    → Whole classic-IsLink (tp_send bus tx_id message cfg).1.arrivals
unfolding tp_send
tp_send-Whole bus tx_id message cfg whole =
    elim (Bool-cases (length message == 0 || ltb 4095 (length message))) [
      | inl unused ↦ rw (tp_send, unused) whole
      | inr used ↦ elim (Bool-cases (cfg.timeout_ms == 0)) [
        | inl untimed ↦ rw (tp_send, used, untimed) whole
        | inr timed ↦ elim (Bool-cases (leb (length message) 7)) [
          | inl short ↦
              rw (tp_send, used, timed, short)
                (send_frame-Whole classic-IsLink (encode_sf false tx_id message) bus whole)
          | inr long ↦
              rw (tp_send, used, timed, long)
                (send_long-Whole classic-IsLink (length message) tx_id
                  (encode_ff false tx_id message (length message)) (drop 6 message) bus whole)
        ]
      ]
    ]
