-- ===== src/Tp/Reception.antt =====
-- The loops of uds_tp_recv and uds_tp_recv_fd in src/tp/iso_tp.c, whatever arrives.
use mathlib.Core.Path.{subst}
use uds.Base.{
  inl, inr, ℕ, ◌-◌, ◌≡◌, ◌≢◌, refl, sym, ◌∙◌, Bool, true, false, Option, List, [], ◌!=◌, ◌∷◌, ◌++◌,
  length, replicate, All, ltb, if◌then◌else◌, arith, append-nil, Bool-cases,
}
use uds.Can.{Bus, Arrival, reads, select_fails, no_frame, read_fails, can_recv, can_send}
use uds.Tp.{TpResult, tp_ok, tp_err, err_inprogress, TpConfig, is_type, frame_cf}
use uds.Tp.Link.{Link, IsLink}
use uds.Tp.Send.{recv_frame, send_frame}
use uds.Tp.Receive.{send_cts, block_over, open_block, recv_cf}
use uds.Tp.Outcome.{TpResult-cases, ok_same, send_frame-cases}
use uds.Base.Bits.{IsByte}

module _ {F : Type 0} {l : Link F} (w : IsLink l) where
  -- A frame has its whole data array, as it has in memory, and this consists of bytes.
  abbrev pub IsWhole : F → Type 0
  IsWhole frame = (length (w.cells frame) ≡ w.n_cells) × All IsByte (w.cells frame)

  -- Every frame that arrives is whole.
  abbrev pub Whole : List (Arrival F) → Type 0
  Whole [] = Unit {0}
  Whole (select_fails ∷ later) = Whole later
  Whole (no_frame ∷ later) = Whole later
  Whole (read_fails ∷ later) = Whole later
  Whole (reads n frame ∷ later) = IsWhole frame × Whole later

  -- Nothing was sent, what arrives later is whole, and an error is one of the function's own.
  abbrev pub Takes : {A : Type 0} → (A → Type 0) → Bus F → TpResult A × Bus F → Type 0
  Takes P bus p =
      (p.0 ≢ tp_err err_inprogress)
      × ((a : _) → p.0 ≡ tp_ok a → P a)
      × Whole p.1.arrivals
      × (p.1.sent ≡ bus.sent)

  recv_frame-at :
      (is_open : Bool) (arrivals : List (Arrival F)) (writes : List (Option ℕ)) (sent : List F)
      (slept : List ℕ)
      → Whole arrivals
      → let bus : Bus F = record {
        is_open = is_open;
        arrivals = arrivals;
        writes = writes;
        sent = sent;
        slept = slept;
      } in
        Takes IsWhole bus (recv_frame l bus)
  unfolding recv_frame can_recv
  recv_frame-at false arrivals writes sent slept whole =
      (λ h. ground (arith, h), λ a h. ground (arith, h), whole, refl)
  recv_frame-at true [] writes sent slept whole =
      (λ h. ground (arith, h), λ a h. ground (arith, h), whole, refl)
  recv_frame-at true (select_fails ∷ later) writes sent slept whole =
      (λ h. ground (arith, h), λ a h. ground (arith, h), whole, refl)
  recv_frame-at true (no_frame ∷ later) writes sent slept whole =
      (λ h. ground (arith, h), λ a h. ground (arith, h), whole, refl)
  recv_frame-at true (read_fails ∷ later) writes sent slept whole =
      (λ h. ground (arith, h), λ a h. ground (arith, h), whole, refl)
  recv_frame-at true (reads n frame ∷ later) writes sent slept whole =
      let bus : Bus F = record {
        is_open = true;
        arrivals = reads n frame ∷ later;
        writes = writes;
        sent = sent;
        slept = slept;
      } in
      let rest : (recv_frame l bus).1.arrivals ≡ later = ground arith in
      (
        λ h. ground (arith, h),
        λ a h. let same : frame ≡ a = ground (arith, h) in subst IsWhole same whole.0,
        subst Whole (sym rest) whole.1,
        ground arith,
      )

  pub recv_frame-Takes : (bus : Bus F) → Whole bus.arrivals → Takes IsWhole bus (recv_frame l bus)
  recv_frame-Takes bus whole =
      recv_frame-at bus.is_open bus.arrivals bus.writes bus.sent bus.slept whole

  -- A consecutive frame gives as many bytes as were asked for.
  pub recv_cf-Takes :
      (total_len buf_size received sn : ℕ) (bus : Bus F)
      → Whole bus.arrivals
      → let left = total_len - received in
        Takes
          (λ bytes.
            (length bytes ≡ (if ltb l.cf_bytes left then l.cf_bytes else left)) × All IsByte bytes)
          bus
          (recv_cf l total_len buf_size received sn bus)
  unfolding recv_cf
  recv_cf-Takes total_len buf_size received sn bus whole =
      let left = total_len - received in
      let chunk : ℕ = if ltb l.cf_bytes left then l.cf_bytes else left in
      let (own, cells, whole', quiet) = recv_frame-Takes bus whole in
      elim (TpResult-cases (recv_frame l bus).0) [
        | inr (e, failed) ↦
            rw (recv_cf, failed)
              (λ h. ground (arith, h, failed, own), λ a h. ground (arith, h), whole', quiet)
        | inl (frame, got) ↦
            let dec = l.dec_cf frame (buf_size - received) chunk in
            elim (Bool-cases (is_type (l.type_of frame) frame_cf)) [
              | inr other ↦
                  rw (recv_cf, got, other)
                    (λ h. ground (arith, h), λ a h. ground (arith, h), whole', quiet)
              | inl is_cf ↦ elim (TpResult-cases dec) [
                | inr (e, failed) ↦
                    rw (recv_cf, got, is_cf, failed)
                      (
                        λ h.
                            ground
                              (arith, h, failed, w.dec_cf_own frame (buf_size - received) chunk),
                        λ a h. ground (arith, h),
                        whole',
                        quiet,
                      )
                | inl ((sn', bytes), read) ↦
                    let (full, all) = cells frame got in
                    let len =
                      w.dec_cf_length frame (buf_size - received) chunk sn' bytes full read in
                    let are = w.dec_cf_bytes frame (buf_size - received) chunk sn' bytes all read in
                    let Chunk : List ℕ → Type 0 = λ m. (length m ≡ chunk) × All IsByte m in
                    elim (Bool-cases (sn' != sn)) [
                      | inl wrong ↦
                          rw (recv_cf, got, is_cf, read, wrong)
                            (λ h. ground (arith, h), λ a h. ground (arith, h), whole', quiet)
                      | inr right ↦
                          rw (recv_cf, got, is_cf, read, right)
                            (
                              λ h. ground (arith, h),
                              λ a h. ok_same Chunk h (len, are),
                              whole',
                              quiet,
                            )
                    ]
              ]
            ]
      ]

  send_frame-arrivals :
      (frame : F) (bus : Bus F) → (send_frame l (tp_ok frame) bus).1.arrivals ≡ bus.arrivals
  unfolding send_frame can_send
  send_frame-arrivals frame bus = ground arith

  -- Flow control frames that grant a block, and nothing else, were sent.
  abbrev pub Grants : TpConfig → ℕ → Bus F → Bus F → Type 0
  Grants cfg tx_id bus bus' =
      (k : ℕ) × (bus'.sent ≡ bus.sent ++ replicate k (w.fc tx_id 0 cfg.block_size cfg.st_min))

  pub send_cts-Grants :
      (cfg : TpConfig) (tx_id : ℕ) (bus : Bus F)
      → ((send_cts l cfg tx_id bus).0 ≢ tp_err err_inprogress)
        × Grants cfg tx_id bus (send_cts l cfg tx_id bus).1
        × ((send_cts l cfg tx_id bus).1.arrivals ≡ bus.arrivals)
  send_cts-Grants cfg tx_id bus =
      let fc = w.fc tx_id 0 cfg.block_size cfg.st_min in
      rw ((w.fc_lem tx_id 0 cfg.block_size cfg.st_min (omega arith)).0)
        (elim (send_frame-cases w fc bus) [
          | inl (done, sent) ↦ (λ h. ground (arith, h, done), (1, sent), send_frame-arrivals fc bus)
          | inr (failed, kept) ↦ (
            λ h. ground (arith, h, failed),
            (0, kept ∙ sym (append-nil bus.sent)),
            send_frame-arrivals fc bus,
          )
        ])

  pub open_block-Grants :
      (cfg : TpConfig) (tx_id bs_count : ℕ) (bus : Bus F)
      → let (c, bus', _) = open_block l cfg tx_id bs_count bus in
        (c ≢ tp_err err_inprogress) × Grants cfg tx_id bus bus' × (bus'.arrivals ≡ bus.arrivals)
  unfolding open_block
  open_block-Grants cfg tx_id bs_count bus = elim (Bool-cases (block_over cfg bs_count)) [
    | inl over ↦ rw (open_block, over) (send_cts-Grants cfg tx_id bus)
    | inr running ↦
        rw (open_block, running) (λ h. ground (arith, h), (0, sym (append-nil bus.sent)), refl)
  ]
