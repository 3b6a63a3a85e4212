-- ===== src/Tp/Reassembly.antt =====
-- The loops of uds_tp_recv and uds_tp_recv_fd in src/tp/iso_tp.c, given the frames of a message.
use uds.Base.{
  ℕ, zero, suc, ◌+◌, ◌-◌, ◌%◌, ◌^◌, ◌≤◌, ◌<◌, ◌≡◌, inl, inr, refl, sym, ap, ◌∙◌, true, false, List,
  [], ◌∷◌, ◌++◌, length, take, drop, ltb, if◌then◌else◌, arith, length-take, length-drop,
  take-append-drop, append-nil, append_assoc, length-append, Bool-cases,
}
use uds.Can.{Bus, Arrival, reads}
use uds.Tp.{tp_ok, TpConfig}
use uds.Tp.Link.{Link, IsLink}
use uds.Tp.Segments.{refills, cf_frames, arriving}
use uds.Tp.Receive.{open_block, recv_cf, recv_rest, send_cts, block_over}
use uds.Tp.Due.{IsDue, next_bus, next_sn_lem, recv_frame_lem, send_frame-IsDue}

module _ {F : Type 0} {l : Link F} (w : IsLink l) where
  pub send_cts_lem :
      (bus : Bus F) (cfg : TpConfig) (tx_id : ℕ) (arrivals : List (Arrival F))
      → IsDue arrivals bus
      → ((send_cts l cfg tx_id bus).0 ≡ tp_ok true)
        × IsDue arrivals (send_cts l cfg tx_id bus).1
        × ((send_cts l cfg tx_id bus).1.sent
            ≡ bus.sent ++ (w.fc tx_id 0 cfg.block_size cfg.st_min ∷ []))
  send_cts_lem bus cfg tx_id arrivals d =
      rw ((w.fc_lem tx_id 0 cfg.block_size cfg.st_min (omega arith)).0)
        (send_frame-IsDue w (w.fc tx_id 0 cfg.block_size cfg.st_min) bus arrivals d)

  -- The flow control frame that the head of the loop sends is the first of the refills.
  pub open_block_lem :
      (n : ℕ) (bus : Bus F) (cfg : TpConfig) (tx_id bs_count b : ℕ) (more : List ℕ)
      (arrivals : List (Arrival F))
      → IsDue arrivals bus
      → let (c, bus', count) = open_block l cfg tx_id bs_count bus in
        (c ≡ tp_ok true)
        × IsDue arrivals bus'
        × (bus'.sent
              ++ refills w n tx_id cfg.block_size cfg.st_min
                  (drop l.cf_bytes (b ∷ more))
                  ((count + 1) % 2 ^ 8)
            ≡ bus.sent ++ refills w (suc n) tx_id cfg.block_size cfg.st_min (b ∷ more) bs_count)
  unfolding open_block refills
  open_block_lem n bus cfg tx_id bs_count b more arrivals d =
      let left = drop l.cf_bytes (b ∷ more) in
      elim (Bool-cases (block_over cfg bs_count)) [
        | inl over ↦
            let (granted, d', sent) = send_cts_lem bus cfg tx_id arrivals d in
            let fc = w.fc tx_id 0 cfg.block_size cfg.st_min in
            let later = refills w n tx_id cfg.block_size cfg.st_min left 1 in
            rw (open_block, over)
              (granted, d', ap (λ s. s ++ later) sent ∙ append_assoc bus.sent (fc ∷ []) later)
        | inr running ↦ rw (open_block, running) (refl, d, refl)
      ]

  recv_cf_lem :
      (total_len buf_size received sn can_id : ℕ) (rest : List ℕ) (bus : Bus F)
      (later : List (Arrival F))
      → IsDue (reads l.size (w.cf can_id (take l.cf_bytes rest) sn) ∷ later) bus
      → 0 < length rest
      → total_len ≡ received + length rest
      → total_len ≤ buf_size
      → sn < 16
      → recv_cf l total_len buf_size received sn bus
        ≡ (tp_ok (take l.cf_bytes rest), next_bus bus later)
  unfolding recv_cf
  recv_cf_lem total_len buf_size received sn can_id rest bus later d pos total fits small =
      let e = recv_frame_lem w bus (w.cf can_id (take l.cf_bytes rest) sn) later d in
      let len = length-take l.cf_bytes rest in
      let (t, dec) =
        w.dec_cf_lem can_id (take l.cf_bytes rest) sn (buf_size - received) (ground (arith, len))
          (ground (arith, len)) small (ground (arith, len)) in
      let chunk : (if ltb l.cf_bytes (total_len - received)
            then l.cf_bytes
            else (total_len - received))
          ≡ length (take l.cf_bytes rest) =
        ground (arith, len) in
      ground (arith, e, t, chunk, dec)

  -- One turn of the loop, which takes a frame that is in order.
  pub recv_rest-step :
      (n : ℕ) (cfg : TpConfig) (tx_id can_id total_len buf_size : ℕ) (buf : List ℕ) (b : ℕ)
      (more : List ℕ) (sn bs_count : ℕ) (bus : Bus F) (later : List (Arrival F))
      → IsDue (reads l.size (w.cf can_id (take l.cf_bytes (b ∷ more)) sn) ∷ later) bus
      → total_len ≡ length buf + length (b ∷ more)
      → total_len ≤ buf_size
      → sn < 16
      → (bus' : Bus F) × (count : ℕ) × IsDue later bus'
        × (bus'.sent
              ++ refills w n tx_id cfg.block_size cfg.st_min (drop l.cf_bytes (b ∷ more)) count
            ≡ bus.sent ++ refills w (suc n) tx_id cfg.block_size cfg.st_min (b ∷ more) bs_count)
        × (recv_rest l (suc n) cfg tx_id total_len buf_size buf sn bs_count bus
            ≡ recv_rest l n cfg tx_id total_len buf_size
                (buf ++ take l.cf_bytes (b ∷ more))
                ((sn + 1) % 16)
                count
                bus')
  unfolding recv_rest
  recv_rest-step n cfg tx_id can_id total_len buf_size buf b more sn bs_count bus later d total fits
        small =
      let more_due : ltb (length buf) total_len ≡ true = ground arith in
      let rest : List ℕ = b ∷ more in
      let (granted, d', opens) =
        open_block_lem n bus cfg tx_id bs_count b more
          (reads l.size (w.cf can_id (take l.cf_bytes rest) sn) ∷ later) d in
      let (_, bus', count) = open_block l cfg tx_id bs_count bus in
      let e =
        recv_cf_lem total_len buf_size (length buf) sn can_id rest bus' later d' (omega arith) total
          fits small in
      (
        next_bus bus' later,
        (count + 1) % 2 ^ 8,
        record { works = d'.works; writable = d'.writable; due = refl },
        opens,
        rw (recv_rest, more_due, granted, ap (λ p. p.0) e, ap (λ p. p.1) e, next_sn_lem sn) refl,
      )

  -- The bytes of a frame move from what is missing to what is there.
  pub length-moved :
      (buf rest : List ℕ)
      → length (buf ++ take l.cf_bytes rest) + length (drop l.cf_bytes rest)
        ≡ length buf + length rest
  length-moved buf rest = omega (
    arith,
    length-append buf (take l.cf_bytes rest),
    length-take l.cf_bytes rest,
    length-drop l.cf_bytes rest,
  )

  pub recv_rest_lem :
      (n : ℕ) (cfg : TpConfig) (tx_id can_id total_len buf_size : ℕ) (buf rest : List ℕ)
      (sn bs_count : ℕ) (bus : Bus F) (later : List (Arrival F))
      → IsDue (arriving l.size (cf_frames w n can_id rest sn) ++ later) bus
      → length rest ≤ n
      → total_len ≡ length buf + length rest
      → total_len ≤ buf_size
      → sn < 16
      → let (r, bus') = recv_rest l n cfg tx_id total_len buf_size buf sn bs_count bus in
        (r ≡ tp_ok (buf ++ rest))
        × IsDue later bus'
        × (bus'.sent ≡ bus.sent ++ refills w n tx_id cfg.block_size cfg.st_min rest bs_count)
  unfolding recv_rest cf_frames refills
  recv_rest_lem zero cfg tx_id can_id total_len buf_size buf (b ∷ more) sn bs_count bus later d
        enough total fits small =
      absurd (omega arith)
  recv_rest_lem zero cfg tx_id can_id total_len buf_size buf [] sn bs_count bus later d enough total
        fits small =
      let over : ltb (length buf) total_len ≡ false = ground arith in
      rw (recv_rest, over) (ap tp_ok (sym (append-nil buf)), d, sym (append-nil bus.sent))
  recv_rest_lem (suc n) cfg tx_id can_id total_len buf_size buf [] sn bs_count bus later d enough
        total fits small =
      let over : ltb (length buf) total_len ≡ false = ground arith in
      rw (recv_rest, over) (ap tp_ok (sym (append-nil buf)), d, sym (append-nil bus.sent))
  recv_rest_lem (suc n) cfg tx_id can_id total_len buf_size buf (b ∷ more) sn bs_count bus later d
        enough total fits small =
      let rest : List ℕ = b ∷ more in
      let left = drop l.cf_bytes rest in
      let pos = w.cf_bytes_pos in
      let frames = arriving l.size (cf_frames w n can_id left ((sn + 1) % 16)) ++ later in
      let (bus', count, d', opens, step) =
        recv_rest-step n cfg tx_id can_id total_len buf_size buf b more sn bs_count bus frames d
          total fits small in
      let (ok, end, answers) =
        recv_rest_lem n cfg tx_id can_id total_len buf_size (buf ++ take l.cf_bytes rest) left
          ((sn + 1) % 16) count bus' later d' (omega (arith, length-drop l.cf_bytes rest))
          (total ∙ sym (length-moved buf rest)) fits (omega arith) in
      rw step (
        ok
            ∙ ap tp_ok (
                append_assoc buf (take l.cf_bytes rest) left
                ∙ ap (◌++◌ buf) (take-append-drop l.cf_bytes rest)),
        end,
        answers ∙ opens,
      )
