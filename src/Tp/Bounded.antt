-- ===== src/Tp/Bounded.antt =====
-- uds_tp_recv and uds_tp_recv_fd of src/tp/iso_tp.c, whatever arrives: they end, a message that they return
-- fits the buffer, and they send nothing but flow control.
use mathlib.Core.Path.{subst}
use uds.Base.{
  inl, inr, ℕ, zero, suc, ◌+◌, ◌-◌, ◌%◌, ◌^◌, ◌≤◌, ◌<◌, ◌≡◌, ◌≢◌, sym, ap, ◌∙◌, true, false, List,
  ◌++◌, length, All, All-append, replicate, ltb, if◌then◌else◌, arith, append-nil, append_assoc,
  length-append, replicate-add, Bool-cases,
}
use uds.Can.{Bus}
use uds.Tp.{TpResult, tp_ok, tp_err, err_inprogress, TpConfig}
use uds.Tp.Link.{Link, IsLink}
use uds.Tp.Send.{next_sn}
use uds.Tp.Receive.{open_block, recv_cf, recv_rest}
use uds.Tp.Outcome.{TpResult-cases, ok_same}
use uds.Base.Bits.{IsByte}
use uds.Tp.Reception.{Whole, Grants, recv_cf-Takes, open_block-Grants}

-- A chunk is not empty and does not go beyond the message.
chunk_lem :
    (total received chunk most : ℕ)
    → 0 < most
    → ltb received total ≡ true
    → chunk ≡ (if ltb most (total - received) then most else (total - received))
    → (0 < chunk) × (received + chunk ≤ total)
chunk_lem total received chunk most pos missing is_chunk = ground arith

module _ {F : Type 0} {l : Link F} (w : IsLink l) where
  pub Grants-trans :
      (cfg : TpConfig) (tx_id : ℕ) (a b c : Bus F)
      → Grants w cfg tx_id a b
      → Grants w cfg tx_id b c
      → Grants w cfg tx_id a c
  Grants-trans cfg tx_id a b c (m, e) (n, f) =
      let fc = w.fc tx_id 0 cfg.block_size cfg.st_min in
      (
        m + n,
        f
            ∙ ap (λ s. s ++ replicate n fc) e
            ∙ append_assoc a.sent (replicate m fc) (replicate n fc)
            ∙ ap (◌++◌ a.sent) (replicate-add m n fc),
      )

  -- A message has the bytes that were announced, and at most `more` beyond them.
  abbrev Announced : ℕ → ℕ → List ℕ → Type 0
  Announced total_len more m = (total_len ≤ length m) × (length m ≤ total_len + more) × All IsByte m

  -- What a reception comes to: it ends, a message has the bytes that were announced, and nothing but
  -- grants was sent. `more` is how many bytes there were beyond those announced.
  abbrev pub Received : TpConfig → ℕ → ℕ → ℕ → Bus F → TpResult (List ℕ) × Bus F → Type 0
  Received cfg tx_id total_len more bus p =
      (p.0 ≢ tp_err err_inprogress)
      × ((m : List ℕ) → p.0 ≡ tp_ok m → Announced total_len more m)
      × Grants w cfg tx_id bus p.1
      × Whole w p.1.arrivals

  pub recv_rest-Received :
      (n : ℕ) (cfg : TpConfig) (tx_id total_len buf_size : ℕ) (buf : List ℕ) (sn count : ℕ)
      (bus : Bus F)
      → Whole w bus.arrivals
      → All IsByte buf
      → total_len - length buf ≤ n
      → Received cfg tx_id total_len
          (length buf - total_len)
          bus
          (recv_rest l n cfg tx_id total_len buf_size buf sn count bus)
  unfolding recv_rest
  recv_rest-Received zero cfg tx_id total_len buf_size buf sn count bus whole all enough =
      let full : ltb (length buf) total_len ≡ false = ground arith in
      rw (recv_rest, full)
        (
          λ h. ground (arith, h),
          λ m h.
              ok_same (Announced total_len (length buf - total_len)) h
                (omega arith, omega arith, all),
          (0, sym (append-nil bus.sent)),
          whole,
        )
  recv_rest-Received (suc n) cfg tx_id total_len buf_size buf sn count bus whole all enough =
      elim (Bool-cases (ltb (length buf) total_len)) [
        | inr full ↦
            rw (recv_rest, full)
              (
                λ h. ground (arith, h),
                λ m h.
                    ok_same (Announced total_len (length buf - total_len)) h
                      (ground (arith, full), omega arith, all),
                (0, sym (append-nil bus.sent)),
                whole,
              )
        | inl missing ↦
            let (own, grants, kept) = open_block-Grants w cfg tx_id count bus in
            let bus' : Bus F = (open_block l cfg tx_id count bus).1 in
            let count' : ℕ = (open_block l cfg tx_id count bus).2 in
            elim (TpResult-cases (open_block l cfg tx_id count bus).0) [
              | inr (e, failed) ↦
                  rw (recv_rest, missing, failed)
                    (
                      λ h. ground (arith, h, failed, own),
                      λ m h. ground (arith, h),
                      grants,
                      subst (Whole w) (sym kept) whole,
                    )
              | inl (_, opened) ↦
                  let whole' : Whole w bus'.arrivals = subst (Whole w) (sym kept) whole in
                  let (own', chunk, whole'', quiet) =
                    recv_cf-Takes w total_len buf_size (length buf) sn bus' whole' in
                  let got = recv_cf l total_len buf_size (length buf) sn bus' in
                  elim (TpResult-cases got.0) [
                    | inr (e, failed) ↦
                        rw (recv_rest, missing, opened, failed)
                          (
                            λ h. ground (arith, h, failed, own'),
                            λ m h. ground (arith, h),
                            (grants.0, quiet ∙ grants.1),
                            whole'',
                          )
                    | inl (bytes, read) ↦
                        let buf' = buf ++ bytes in
                        let longer =
                          chunk_lem total_len (length buf) (length bytes) l.cf_bytes w.cf_bytes_pos
                            missing (chunk bytes read).0 in
                        let sum = length-append buf bytes in
                        let count'' : ℕ = (count' + 1) % 2 ^ 8 in
                        let (own'', len', grants', end) =
                          recv_rest-Received n cfg tx_id total_len buf_size buf' (next_sn sn)
                            count'' got.1 whole''
                            (All-append IsByte buf bytes all (chunk bytes read).1)
                            (omega (arith, longer, sum)) in
                        let out =
                          recv_rest l n cfg tx_id total_len buf_size buf' (next_sn sn) count''
                            got.1 in
                        let still : Grants w cfg tx_id bus' got.1 =
                          (0, quiet ∙ sym (append-nil bus'.sent)) in
                        rw (recv_rest, missing, opened, read)
                          (
                            own'',
                            λ m h.
                                let (low, high, are) = len' m h in
                                (omega arith, omega (arith, longer, sum), are),
                            Grants-trans cfg tx_id bus bus' out.1 grants
                                (Grants-trans cfg tx_id bus' got.1 out.1 still grants'),
                            end,
                          )
                  ]
            ]
      ]
