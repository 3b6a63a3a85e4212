-- ===== src/Tp/Loops.antt =====
-- The loops of uds_tp_send and uds_tp_send_fd in src/tp/iso_tp.c on whatever socket: what they have sent
-- when they return.
use mathlib.Core.Path.{subst}
use uds.Base.{
  ℕ, zero, suc, ◌+◌, ◌-◌, ◌%◌, ◌^◌, ◌≤◌, ◌<◌, ◌≡◌, ◌≢◌, inl, inr, refl, sym, ap, ◌∙◌, List, [], ◌∷◌,
  ◌++◌, length, take, drop, ltb, leb, ◌&&◌, arith, length-take, length-drop, append-nil,
  append_assoc, Bool-cases,
}
use uds.Can.{Bus}
use uds.Tp.{TpResult, tp_ok, tp_err, err_inprogress, apply_stmin}
use uds.Tp.Link.{Link, IsLink}
use uds.Tp.Segments.{cf_frames, cf_frames-step, cf_frames-fuel}
use uds.Tp.Send.{send_frame, await_cts, send_block, send_rest, send_long}
use uds.Tp.Due.{next_sn_lem}
use uds.Tp.Outcome.{
  SendDone, IsPrefix, TpResult-cases, await_cts-IsQuiet, send_frame-cases, send_cf-cases,
}

module _ {F : Type 0} {l : Link F} (w : IsLink l) where
  -- After a block: nothing but the plan was sent, and where it went well, the rest of the plan is the
  -- consecutive frames of the bytes that are left, fewer than before.
  abbrev BlockDone : ℕ → List F → ℕ → TpResult (List ℕ × ℕ) → Bus F → Type 0
  BlockDone tx_id plan bound (tp_err e) bus' = (e ≢ err_inprogress) × IsPrefix bus'.sent plan
  BlockDone tx_id plan bound (tp_ok (rest, sn)) bus' =
      (bus'.sent ++ cf_frames w (length rest) tx_id rest sn ≡ plan)
      × (length rest ≤ bound)
      × (sn < 16)

  BlockDone-weaken :
      (tx_id : ℕ) (plan : List F) (m n : ℕ) (r : TpResult (List ℕ × ℕ)) (bus' : Bus F)
      → m ≤ n
      → BlockDone tx_id plan m r bus'
      → BlockDone tx_id plan n r bus'
  BlockDone-weaken tx_id plan m n (tp_err e) bus' le d = d
  BlockDone-weaken tx_id plan m n (tp_ok (rest, sn)) bus' le d = (d.0, omega (arith, d.1), d.2)

  send_block-BlockDone :
      (n tx_id : ℕ) (rest : List ℕ) (sn bs bs_sent stmin : ℕ) (bus : Bus F)
      → length rest ≤ n
      → sn < 16
      → let (r, bus') = send_block l n tx_id rest sn bs bs_sent stmin bus in
        BlockDone tx_id
          (bus.sent ++ cf_frames w (length rest) tx_id rest sn)
          (length rest - 1)
          r
          bus'
  unfolding send_block
  send_block-BlockDone zero tx_id [] sn bs bs_sent stmin bus enough small =
      (refl, omega arith, small)
  send_block-BlockDone zero tx_id (b ∷ more) sn bs bs_sent stmin bus enough small =
      absurd (omega arith)
  send_block-BlockDone (suc n) tx_id [] sn bs bs_sent stmin bus enough small =
      (refl, omega arith, small)
  send_block-BlockDone (suc n) tx_id (b ∷ more) sn bs bs_sent stmin bus enough small =
      let rest : List ℕ = b ∷ more in
      let sn' = next_sn_lem sn in
      let bus' : Bus F =
        (send_frame l (l.enc_cf tx_id (take l.cf_bytes rest) sn) (apply_stmin stmin bus)).1 in
      elim (send_cf-cases w tx_id (take l.cf_bytes rest) sn (apply_stmin stmin bus)
        (omega (arith, length-take l.cf_bytes rest)) (omega (arith, length-take l.cf_bytes rest))
        small) [
          | inr (failed, same) ↦
              rw (send_block, failed)
                (
                  λ h. ground (arith, h),
                  (
                    cf_frames w (length rest) tx_id rest sn,
                    ap (λ s. s ++ cf_frames w (length rest) tx_id rest sn) same,
                  ),
                )
          | inl (done, sent) ↦
              let plan =
                ap
                  (λ s.
                    s
                    ++ cf_frames w (length (drop l.cf_bytes rest)) tx_id (drop l.cf_bytes rest)
                        ((sn + 1) % 16))
                  sent
                ∙ cf_frames-step w tx_id b more sn bus.sent in
              elim (Bool-cases (ltb 0 bs && leb bs ((bs_sent + 1) % 2 ^ 8))) [
                | inl over ↦
                    rw (send_block, done, over, sn')
                      (plan, omega (arith, length-drop l.cf_bytes rest), omega arith)
                | inr running ↦
                    let later =
                      send_block-BlockDone n tx_id (drop l.cf_bytes rest) ((sn + 1) % 16) bs
                        ((bs_sent + 1) % 2 ^ 8) stmin bus'
                        (omega (arith, length-drop l.cf_bytes rest)) (omega arith) in
                    let out =
                      send_block l n tx_id (drop l.cf_bytes rest) ((sn + 1) % 16) bs
                        ((bs_sent + 1) % 2 ^ 8) stmin bus' in
                    let on =
                      BlockDone-weaken tx_id _ (length (drop l.cf_bytes rest) - 1) (length rest - 1)
                        out.0 out.1 (omega (arith, length-drop l.cf_bytes rest)) later in
                    rw (send_block, done, running, sn')
                      (subst (λ p. BlockDone tx_id p (length rest - 1) out.0 out.1) plan on)
              ]
        ]

  pub send_rest-SendDone :
      (n tx_id : ℕ) (rest : List ℕ) (sn : ℕ) (bus : Bus F)
      → length rest ≤ n
      → sn < 16
      → let (r, bus') = send_rest l n tx_id rest sn bus in
        SendDone (bus.sent ++ cf_frames w (length rest) tx_id rest sn) r bus'
  unfolding send_rest cf_frames
  send_rest-SendDone zero tx_id [] sn bus enough small = sym (append-nil bus.sent)
  send_rest-SendDone (suc n) tx_id [] sn bus enough small = sym (append-nil bus.sent)
  send_rest-SendDone zero tx_id (b ∷ more) sn bus enough small = absurd (omega arith)
  send_rest-SendDone (suc n) tx_id (b ∷ more) sn bus enough small =
      let rest : List ℕ = b ∷ more in
      let (own, quiet) = await_cts-IsQuiet w bus in
      let bus' : Bus F = (await_cts l bus).1 in
      elim (TpResult-cases (await_cts l bus).0) [
        | inr (e, failed) ↦
            rw (send_rest, failed)
              (
                λ h. own (failed ∙ ap tp_err h),
                (
                  cf_frames w (length rest) tx_id rest sn,
                  ap (λ s. s ++ cf_frames w (length rest) tx_id rest sn) quiet,
                ),
              )
        | inl ((fs, bs, stmin), got) ↦
            let out = send_block l (length rest) tx_id rest sn bs 0 stmin bus' in
            let block =
              subst
                (λ s.
                  BlockDone tx_id (s ++ cf_frames w (length rest) tx_id rest sn) (length rest - 1)
                    out.0 out.1)
                quiet
                (send_block-BlockDone (length rest) tx_id rest sn bs 0 stmin bus' (omega arith)
                  small) in
            elim (TpResult-cases out.0) [
              | inr (e, failed) ↦ rw (send_rest, got, failed) (rw failed at block)
              | inl ((rest', sn'), went) ↦
                  let (plan, fewer, small') = rw went at block in
                  let later =
                    send_rest-SendDone n tx_id rest' sn' out.1 (omega (arith, fewer)) small' in
                  rw (send_rest, got, went)
                    (subst
                      (λ p.
                        SendDone p (send_rest l n tx_id rest' sn' out.1).0
                          (send_rest l n tx_id rest' sn' out.1).1)
                      plan later)
            ]
      ]

  -- The first frame and the rest.
  pub send_long-SendDone :
      (n tx_id : ℕ) (first : F) (rest : List ℕ) (bus : Bus F)
      → length rest ≤ n
      → let (r, bus') = send_long l n tx_id (tp_ok first) rest bus in
        SendDone (bus.sent ++ (first ∷ cf_frames w n tx_id rest 1)) r bus'
  unfolding send_long
  send_long-SendDone n tx_id first rest bus enough =
      let frames = cf_frames w (length rest) tx_id rest 1 in
      let same : bus.sent ++ (first ∷ frames) ≡ bus.sent ++ (first ∷ cf_frames w n tx_id rest 1) =
        ap (λ f. bus.sent ++ (first ∷ f))
          (cf_frames-fuel w (length rest) n tx_id rest 1 (omega arith) enough) in
      elim (send_frame-cases w first bus) [
        | inl (done, sent) ↦
            let bus' : Bus F = (send_frame l (tp_ok first) bus).1 in
            let out = send_rest l n tx_id rest 1 bus' in
            let plan =
              ap (λ s. s ++ frames) sent ∙ append_assoc bus.sent (first ∷ []) frames ∙ same in
            rw (send_long, done)
              (subst (λ p. SendDone p out.0 out.1) plan
                (send_rest-SendDone n tx_id rest 1 bus' enough (omega arith)))
        | inr (failed, kept) ↦
            let plan = first ∷ cf_frames w n tx_id rest 1 in
            rw (send_long, failed) (λ h. ground (arith, h), (plan, ap (λ s. s ++ plan) kept))
      ]
