-- ===== src/Tp/Grants.antt =====
-- The loops of uds_tp_send and uds_tp_send_fd in src/tp/iso_tp.c on a socket that works, with a receiver
-- that grants blocks: a flow control frame for each block, some wait frames perhaps before the first.
use uds.Base.{ℕ, zero, suc, ◌≤◌, ◌<◌, ◌≡◌, refl, true, List, ◌∷◌, ◌++◌, length, replicate, arith}
use uds.Can.{Bus, Arrival, reads}
use uds.Tp.{tp_ok, tp_err, err_wait_limit}
use uds.Tp.Link.{Link, IsLink}
use uds.Tp.Send.{send_frame, recv_fc, wait_cts, await_cts}
use uds.Tp.Due.{IsDue, send_frame-IsDue, recv_frame_lem, next_bus}

module _ {F : Type 0} {l : Link F} (w : IsLink l) where
  pub send_cf-IsDue :
      (tx_id : ℕ) (chunk : List ℕ) (sn : ℕ) (bus : Bus F) (arrivals : List (Arrival F))
      → 0 < length chunk
      → length chunk ≤ l.cf_bytes
      → sn < 16
      → IsDue arrivals bus
      → ((send_frame l (l.enc_cf tx_id chunk sn) bus).0 ≡ tp_ok true)
        × IsDue arrivals (send_frame l (l.enc_cf tx_id chunk sn) bus).1
  send_cf-IsDue tx_id chunk sn bus arrivals pos fits small d =
      rw (w.enc_cf_lem tx_id chunk sn pos fits small)
        (let (done, d', _) = send_frame-IsDue w (w.cf tx_id chunk sn) bus arrivals d in (done, d'))

  recv_fc_lem :
      (can_id fs bs stmin : ℕ) (bus : Bus F) (later : List (Arrival F))
      → fs ≤ 1
      → IsDue (reads l.size (w.fc can_id fs bs stmin) ∷ later) bus
      → recv_fc l bus ≡ (tp_ok (fs, bs, stmin), next_bus bus later)
  unfolding recv_fc
  recv_fc_lem can_id fs bs stmin bus later small d = ground (
    arith,
    recv_frame_lem w bus (w.fc can_id fs bs stmin) later d,
    (w.fc_lem can_id fs bs stmin (omega arith)).1,
  )

  -- What is due when `waits` wait frames stand before a frame that grants a block.
  abbrev pub grant : ℕ → ℕ → ℕ → ℕ → List (Arrival F) → List (Arrival F)
  grant waits can_id bs stmin later =
      replicate waits (reads l.size (w.fc can_id 1 bs stmin))
      ++ (reads l.size (w.fc can_id 0 bs stmin) ∷ later)

  wait_cts-done :
      (allowed bs stmin : ℕ) (bus : Bus F)
      → wait_cts l allowed (0, bs, stmin) bus ≡ (tp_ok (0, bs, stmin), bus)
  unfolding wait_cts
  wait_cts-done zero bs stmin bus = refl
  wait_cts-done (suc allowed) bs stmin bus = refl

  wait_cts-IsDue :
      (allowed waits can_id bs stmin : ℕ) (bus : Bus F) (later : List (Arrival F))
      → waits < allowed
      → IsDue (grant waits can_id bs stmin later) bus
      → wait_cts l allowed (1, bs, stmin) bus ≡ (tp_ok (0, bs, stmin), next_bus bus later)
  unfolding wait_cts
  wait_cts-IsDue zero waits can_id bs stmin bus later few d = absurd (omega arith)
  wait_cts-IsDue (suc allowed) zero can_id bs stmin bus later few d =
      let got = recv_fc_lem can_id 0 bs stmin bus later (omega arith) d in
      ground (arith, got, wait_cts-done allowed bs stmin (next_bus bus later))
  wait_cts-IsDue (suc allowed) (suc waits) can_id bs stmin bus later few d =
      let next = grant waits can_id bs stmin later in
      let got = recv_fc_lem can_id 1 bs stmin bus next (omega arith) d in
      let on =
        wait_cts-IsDue allowed waits can_id bs stmin (next_bus bus next) later (omega arith)
          (record { works = d.works; writable = d.writable; due = refl }) in
      ground (arith, got, on)

  pub await_cts-IsDue :
      (waits can_id bs stmin : ℕ) (bus : Bus F) (later : List (Arrival F))
      → waits ≤ 10
      → IsDue (grant waits can_id bs stmin later) bus
      → await_cts l bus ≡ (tp_ok (0, bs, stmin), next_bus bus later)
  unfolding await_cts
  await_cts-IsDue zero can_id bs stmin bus later few d =
      let got = recv_fc_lem can_id 0 bs stmin bus later (omega arith) d in
      ground (arith, got, wait_cts-done 10 bs stmin (next_bus bus later))
  await_cts-IsDue (suc waits) can_id bs stmin bus later few d =
      let next = grant waits can_id bs stmin later in
      let got = recv_fc_lem can_id 1 bs stmin bus next (omega arith) d in
      let on =
        wait_cts-IsDue 10 waits can_id bs stmin (next_bus bus next) later (omega arith)
          (record { works = d.works; writable = d.writable; due = refl }) in
      ground (arith, got, on)

  -- One wait frame more than is allowed.
  wait_cts-limit :
      (allowed can_id bs stmin : ℕ) (bus : Bus F) (later : List (Arrival F))
      → IsDue (replicate allowed (reads l.size (w.fc can_id 1 bs stmin)) ++ later) bus
      → (wait_cts l allowed (1, bs, stmin) bus).0 ≡ tp_err err_wait_limit
  unfolding wait_cts
  wait_cts-limit zero can_id bs stmin bus later d = refl
  wait_cts-limit (suc allowed) can_id bs stmin bus later d =
      let next = replicate allowed (reads l.size (w.fc can_id 1 bs stmin)) ++ later in
      let got = recv_fc_lem can_id 1 bs stmin bus next (omega arith) d in
      let on =
        wait_cts-limit allowed can_id bs stmin (next_bus bus next) later
          (record { works = d.works; writable = d.writable; due = refl }) in
      ground (arith, got, on)

  pub await_cts-limit :
      (can_id bs stmin : ℕ) (bus : Bus F) (later : List (Arrival F))
      → IsDue (replicate 11 (reads l.size (w.fc can_id 1 bs stmin)) ++ later) bus
      → (await_cts l bus).0 ≡ tp_err err_wait_limit
  unfolding await_cts
  await_cts-limit can_id bs stmin bus later d =
      let next = replicate 10 (reads l.size (w.fc can_id 1 bs stmin)) ++ later in
      let got = recv_fc_lem can_id 1 bs stmin bus next (omega arith) d in
      let on =
        wait_cts-limit 10 can_id bs stmin (next_bus bus next) later
          (record { works = d.works; writable = d.writable; due = refl }) in
      ground (arith, got, on)
