-- ===== src/Tp/Outcome.antt =====
-- What the steps of uds_tp_send in src/tp/iso_tp.c come to: a frame is sent or it is not, flow control is
-- received or an error is returned.
use uds.Base.{
  ℕ, zero, suc, ◌≤◌, ◌<◌, ◌≡◌, ◌≢◌, ◌⊎◌, inl, inr, refl, subst, ap, Bool, true, List, [], ◌∷◌, ◌++◌,
  length, arith,
}
use uds.Can.{Bus, can_recv, can_send}
use uds.Tp.{TpResult, tp_ok, tp_err, TpError, err_inprogress, err_send}
use uds.Tp.Link.{Link, IsLink}
use uds.Tp.Send.{recv_frame, send_frame, recv_fc, wait_cts, await_cts}

-- The frames are the first ones of the plan.
abbrev pub IsPrefix : {F : Type 0} → List F → List F → Type 0
IsPrefix frames plan = (later : List _) × (frames ++ later ≡ plan)

pub TpResult-cases {ℓ} :
    {A : Type ℓ} (r : TpResult A) → ((a : A) × (r ≡ tp_ok a)) ⊎ ((e : TpError) × (r ≡ tp_err e))
TpResult-cases (tp_ok a) = inl (a, refl)
TpResult-cases (tp_err e) = inr (e, refl)

-- What a result has in common with one that it is equal to.
pub ok_same {ℓ} : {A : Type ℓ} {a b : A} (P : A → Type 0) → tp_ok a ≡ tp_ok b → P a → P b
ok_same {a = a} {b = b} P h p = let same : a ≡ b = ground (arith, h) in subst P same p

-- A function that only receives: nothing is sent, and its error is one of its own.
abbrev pub IsQuiet {ℓ} : {F : Type 0} {A : Type ℓ} → Bus F → TpResult A → Bus F → Type ℓ
IsQuiet bus r bus' = (r ≢ tp_err err_inprogress) × (bus'.sent ≡ bus.sent)

-- After the outer loop.
abbrev pub SendDone : {F : Type 0} → List F → TpResult Bool → Bus F → Type 0
SendDone plan (tp_err e) bus' = (e ≢ err_inprogress) × IsPrefix bus'.sent plan
SendDone plan (tp_ok _) bus' = bus'.sent ≡ plan

module _ {F : Type 0} {l : Link F} (w : IsLink l) where
  pub recv_fc-IsQuiet : (bus : Bus F) → IsQuiet bus (recv_fc l bus).0 (recv_fc l bus).1
  unfolding recv_fc recv_frame can_recv
  recv_fc-IsQuiet bus = elim (TpResult-cases (recv_frame l bus).0) [
    | inl (frame, got) ↦ ground (arith, got, w.dec_fc_own frame)
    | inr (e, failed) ↦ ground (arith, failed)
  ]

  pub wait_cts-IsQuiet :
      (allowed : ℕ) (fc : ℕ × ℕ × ℕ) (bus : Bus F)
      → IsQuiet bus (wait_cts l allowed fc bus).0 (wait_cts l allowed fc bus).1
  unfolding wait_cts
  wait_cts-IsQuiet zero fc bus = ground arith
  wait_cts-IsQuiet (suc allowed) fc bus = elim (TpResult-cases (recv_fc l bus).0) [
    | inl (fc', got) ↦
        ground (arith, got, recv_fc-IsQuiet bus, wait_cts-IsQuiet allowed fc' (recv_fc l bus).1)
    | inr (e, failed) ↦ ground (arith, failed, recv_fc-IsQuiet bus)
  ]

  pub await_cts-IsQuiet : (bus : Bus F) → IsQuiet bus (await_cts l bus).0 (await_cts l bus).1
  unfolding await_cts
  await_cts-IsQuiet bus = elim (TpResult-cases (recv_fc l bus).0) [
    | inl (fc', got) ↦
        ground (arith, got, recv_fc-IsQuiet bus, wait_cts-IsQuiet 10 fc' (recv_fc l bus).1)
    | inr (e, failed) ↦ ground (arith, failed, recv_fc-IsQuiet bus)
  ]

  -- A frame is sent, or it is not and the error is one of the function's own.
  pub send_frame-cases :
      (frame : F) (bus : Bus F)
      → let (r, bus') = send_frame l (tp_ok frame) bus in
        ((r ≡ tp_ok true) × (bus'.sent ≡ bus.sent ++ (frame ∷ [])))
        ⊎ ((r ≡ tp_err err_send) × (bus'.sent ≡ bus.sent))
  unfolding send_frame can_send
  send_frame-cases frame bus = ground arith

  pub send_cf-cases :
      (tx_id : ℕ) (chunk : List ℕ) (sn : ℕ) (bus : Bus F)
      → 0 < length chunk
      → length chunk ≤ l.cf_bytes
      → sn < 16
      → let (r, bus') = send_frame l (l.enc_cf tx_id chunk sn) bus in
        ((r ≡ tp_ok true) × (bus'.sent ≡ bus.sent ++ (w.cf tx_id chunk sn ∷ [])))
        ⊎ ((r ≡ tp_err err_send) × (bus'.sent ≡ bus.sent))
  send_cf-cases tx_id chunk sn bus pos fits small =
      rw (w.enc_cf_lem tx_id chunk sn pos fits small) (send_frame-cases (w.cf tx_id chunk sn) bus)

  -- A message in one frame.
  pub send_frame-SendDone :
      (frame : F) (bus : Bus F)
      → let (r, bus') = send_frame l (tp_ok frame) bus in SendDone (bus.sent ++ (frame ∷ [])) r bus'
  send_frame-SendDone frame bus = elim (send_frame-cases frame bus) [
    | inl (done, sent) ↦ rw done sent
    | inr (failed, kept) ↦
        rw failed (λ h. ground (arith, h), (frame ∷ [], ap (λ s. s ++ (frame ∷ [])) kept))
  ]
