-- ===== src/Tp/Due.antt =====
-- What arrives on a socket that works, for the transfers of src/tp/iso_tp.c.
use uds.Base.{ℕ, ◌+◌, ◌%◌, ◌≡◌, true, List, [], ◌∷◌, ◌++◌, arith}
use uds.Base.Bits.{bit_and_15}
use uds.Can.{Bus, Arrival, reads, can_recv, can_send}
use uds.Tp.{tp_ok}
use uds.Tp.Link.{Link, IsLink}
use uds.Tp.Send.{recv_frame, send_frame, next_sn}

-- A socket that is open, whose writes succeed, on which the given waits are due.
pub record IsDue {F : Type 0} (arrivals : List (Arrival F)) (bus : Bus F) : Type 0 where
  pub works : bus.is_open ≡ true
  pub writable : bus.writes ≡ []
  pub due : bus.arrivals ≡ arrivals

abbrev pub next_bus : {F : Type 0} → Bus F → List (Arrival F) → Bus F
next_bus bus later = record bus { arrivals = later }

pub next_sn_lem : (sn : ℕ) → next_sn sn ≡ (sn + 1) % 16
next_sn_lem sn = bit_and_15 (sn + 1)

module _ {F : Type 0} {l : Link F} (w : IsLink l) where
  pub recv_frame_lem :
      (bus : Bus F) (frame : F) (later : List (Arrival F))
      → IsDue (reads l.size frame ∷ later) bus
      → recv_frame l bus ≡ (tp_ok frame, next_bus bus later)
  unfolding recv_frame can_recv
  recv_frame_lem bus frame later d = let a = d.works in let b = d.due in ground (arith, a, b)

  pub send_frame-IsDue :
      (frame : F) (bus : Bus F) (arrivals : List (Arrival F))
      → IsDue arrivals bus
      → ((send_frame l (tp_ok frame) bus).0 ≡ tp_ok true)
        × IsDue arrivals (send_frame l (tp_ok frame) bus).1
        × ((send_frame l (tp_ok frame) bus).1.sent ≡ bus.sent ++ (frame ∷ []))
  unfolding send_frame can_send
  send_frame-IsDue frame bus arrivals d =
      let a = d.works in
      let b = d.writable in
      let c = d.due in
      (
        ground (arith, a, b),
        record {
          works = ground (arith, a, b);
          writable = ground (arith, a, b);
          due = ground (arith, a, b, c);
        },
        ground (arith, a, b),
      )
