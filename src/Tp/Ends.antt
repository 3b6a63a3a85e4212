-- ===== src/Tp/Ends.antt =====
-- uds_tp_send and uds_tp_send_fd in src/tp/iso_tp.c from the first frame on, on a socket that works: to the end
-- of the message, or to the limit of the wait frames.
use mathlib.Core.Path.{subst}
use uds.Base.{
  ℕ, zero, suc, ◌≤◌, ◌<◌, ◌≡◌, refl, sym, ◌∙◌, false, List, [], ◌∷◌, ◌++◌, length, replicate, arith,
}
use uds.Can.{Bus, Arrival, reads}
use uds.Tp.{tp_ok, tp_err, err_wait_limit}
use uds.Tp.Link.{Link, IsLink}
use uds.Tp.Segments.{arriving, is_over, refills}
use uds.Tp.Send.{send_frame, send_rest, send_long}
use uds.Tp.Outcome.{await_cts-IsQuiet}
use uds.Tp.Due.{IsDue, send_frame-IsDue, next_bus}
use uds.Tp.Grants.{grant, await_cts-limit}
use uds.Tp.Runs.{Done, go_on-Done, send_rest-go_on}

module _ {F : Type 0} {l : Link F} (w : IsLink l) where
  fresh : (bs : ℕ) → is_over bs 0 ≡ false
  fresh bs = ground arith

  -- The outer loop to its end: some wait frames, the first flow control frame, and the refills.
  pub send_rest-Done :
      (m n tx_id can_id waits bs stmin b : ℕ) (more : List ℕ) (sn : ℕ) (bus : Bus F)
      (later : List (Arrival F))
      → waits ≤ 10
      → sn < 16
      → length (b ∷ more) ≤ n
      → length (b ∷ more) < m
      → IsDue
          (grant w waits can_id bs stmin
            (arriving l.size (refills w n can_id bs stmin (b ∷ more) 0) ++ later))
          bus
      → Done w later (send_rest l m tx_id (b ∷ more) sn bus)
  send_rest-Done zero n tx_id can_id waits bs stmin b more sn bus later few small en em d =
      absurd (omega arith)
  send_rest-Done (suc m) n tx_id can_id waits bs stmin b more sn bus later few small en em d =
      let due = arriving l.size (refills w n can_id bs stmin (b ∷ more) 0) ++ later in
      let on =
        go_on-Done w n (length (b ∷ more)) m tx_id can_id bs stmin (b ∷ more) sn 0
          (next_bus bus due) later en (omega arith) (omega arith) small
          (record { works = d.works; writable = d.writable; due = refl }) in
      subst (Done w later)
        (sym (send_rest-go_on w m tx_id can_id waits bs stmin b more sn bus due few d))
        (rw (fresh bs) at on)

  -- The first frame and the rest, to the end.
  pub send_long-Done :
      (n tx_id can_id waits bs stmin : ℕ) (first : F) (rest : List ℕ) (bus : Bus F)
      (later : List (Arrival F))
      → waits ≤ 10
      → 0 < length rest
      → length rest < n
      → IsDue
          (grant w waits can_id bs stmin
            (arriving l.size (refills w n can_id bs stmin rest 0) ++ later))
          bus
      → Done w later (send_long l n tx_id (tp_ok first) rest bus)
  unfolding send_long
  send_long-Done n tx_id can_id waits bs stmin first [] bus later few pos en d =
      absurd (omega arith)
  send_long-Done n tx_id can_id waits bs stmin first (b ∷ more) bus later few pos en d =
      let (done, d', _) =
        send_frame-IsDue w first bus
          (grant w waits can_id bs stmin
            (arriving l.size (refills w n can_id bs stmin (b ∷ more) 0) ++ later))
          d in
      rw (send_long, done)
        (send_rest-Done n n tx_id can_id waits bs stmin b more 1 (send_frame l (tp_ok first) bus).1
          later few (omega arith) (omega arith) en d')

  -- Eleven wait frames.
  pub send_long-limit :
      (n tx_id can_id bs stmin : ℕ) (first : F) (rest : List ℕ) (bus : Bus F)
      (later : List (Arrival F))
      → 0 < n
      → 0 < length rest
      → IsDue (replicate 11 (reads l.size (w.fc can_id 1 bs stmin)) ++ later) bus
      → ((send_long l n tx_id (tp_ok first) rest bus).0 ≡ tp_err err_wait_limit)
        × ((send_long l n tx_id (tp_ok first) rest bus).1.sent ≡ bus.sent ++ (first ∷ []))
  unfolding send_long send_rest
  send_long-limit zero tx_id can_id bs stmin first rest bus later fuel pos d = absurd (omega arith)
  send_long-limit (suc n) tx_id can_id bs stmin first [] bus later fuel pos d = absurd (omega arith)
  send_long-limit (suc n) tx_id can_id bs stmin first (b ∷ more) bus later fuel pos d =
      let (done, d', sent) =
        send_frame-IsDue w first bus (replicate 11 (reads l.size (w.fc can_id 1 bs stmin)) ++ later)
          d in
      let bus' : Bus F = (send_frame l (tp_ok first) bus).1 in
      let limit = await_cts-limit w can_id bs stmin bus' later d' in
      let (_, quiet) = await_cts-IsQuiet w bus' in
      rw (send_long, done, send_rest, limit) (refl, quiet ∙ sent)
