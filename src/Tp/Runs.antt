-- ===== src/Tp/Runs.antt =====
-- The loops of uds_tp_send and uds_tp_send_fd in src/tp/iso_tp.c to their end, on a socket that works,
-- where the flow control frames are due that the blocks ask for.
use mathlib.Core.Path.{subst}
use uds.Base.{
  inl, inr, ℕ, zero, suc, ◌+◌, ◌%◌, ◌^◌, ◌≤◌, ◌<◌, ◌≡◌, refl, sym, ap, ◌∙◌, Bool, true, false, List,
  [], ◌∷◌, ◌++◌, length, take, drop, if◌then◌else◌, arith, length-take, length-drop, Bool-cases,
}
use uds.Can.{Bus, Arrival}
use uds.Tp.{TpResult, tp_ok, tp_err, apply_stmin}
use uds.Tp.Link.{Link, IsLink}
use uds.Tp.Segments.{arriving, is_over, refills}
use uds.Tp.Send.{send_frame, send_block, send_rest, next_sn}
use uds.Tp.Due.{IsDue, next_bus, next_sn_lem}
use uds.Tp.Grants.{grant, send_cf-IsDue, await_cts-IsDue}

module _ {F : Type 0} {l : Link F} (w : IsLink l) where
  -- What the outer loop makes of a block, and a block with it.
  unfoldable pub after_block : ℕ → ℕ → TpResult (List ℕ × ℕ) × Bus F → TpResult Bool × Bus F
  after_block m tx_id p = elim p.0 [
    | tp_err e ↦ (tp_err e, p.1)
    | tp_ok (rest, sn) ↦ send_rest l m tx_id rest sn p.1
  ]

  abbrev pub go_on : ℕ → ℕ → ℕ → List ℕ → ℕ → ℕ → ℕ → ℕ → Bus F → TpResult Bool × Bus F
  go_on k m tx_id rest sn bs count stmin bus =
      after_block m tx_id (send_block l k tx_id rest sn bs count stmin bus)

  -- Success, and what is due later is still due.
  abbrev pub Done : List (Arrival F) → TpResult Bool × Bus F → Type 0
  Done later p = (p.0 ≡ tp_ok true) × IsDue later p.1

  -- A flow control frame starts the next block.
  pub send_rest-go_on :
      (m tx_id can_id waits bs stmin b : ℕ) (more : List ℕ) (sn : ℕ) (bus : Bus F)
      (later : List (Arrival F))
      → waits ≤ 10
      → IsDue (grant w waits can_id bs stmin later) bus
      → send_rest l (suc m) tx_id (b ∷ more) sn bus
        ≡ go_on (length (b ∷ more)) m tx_id (b ∷ more) sn bs 0 stmin (next_bus bus later)
  unfolding send_rest after_block
  send_rest-go_on m tx_id can_id waits bs stmin b more sn bus later few d =
      let after : TpResult (ℕ × ℕ × ℕ) × Bus F → TpResult Bool × Bus F = λ p. elim p.0 [
        | tp_err e ↦ (tp_err e, p.1)
        | tp_ok (fs, bs, stmin) ↦ go_on (length (b ∷ more)) m tx_id (b ∷ more) sn bs 0 stmin p.1
      ] in
      ap after (await_cts-IsDue w waits can_id bs stmin bus later few d)

  -- One frame of a block.
  go_on-step :
      (k m tx_id bs stmin b : ℕ) (more : List ℕ) (sn count : ℕ) (bus : Bus F)
      (arrivals : List (Arrival F))
      → sn < 16
      → IsDue arrivals bus
      → (bus' : Bus F) × IsDue arrivals bus'
        × (go_on (suc k) m tx_id (b ∷ more) sn bs count stmin bus ≡ (
            if is_over bs ((count + 1) % 2 ^ 8)
            then send_rest l m tx_id (drop l.cf_bytes (b ∷ more)) ((sn + 1) % 16) bus'
            else go_on k m tx_id
                (drop l.cf_bytes (b ∷ more))
                ((sn + 1) % 16)
                bs
                ((count + 1) % 2 ^ 8)
                stmin
                bus'))
  unfolding send_block after_block
  go_on-step k m tx_id bs stmin b more sn count bus arrivals small d =
      let rest : List ℕ = b ∷ more in
      let (done, d') =
        send_cf-IsDue w tx_id (take l.cf_bytes rest) sn (apply_stmin stmin bus) arrivals
          (omega (arith, length-take l.cf_bytes rest, w.cf_bytes_pos))
          (omega (arith, length-take l.cf_bytes rest)) small
          (record { works = d.works; writable = d.writable; due = d.due }) in
      let bus' : Bus F =
        (send_frame l (l.enc_cf tx_id (take l.cf_bytes rest) sn) (apply_stmin stmin bus)).1 in
      let count' : ℕ = (count + 1) % 2 ^ 8 in
      let out : TpResult Bool → TpResult (List ℕ × ℕ) × Bus F = λ r. elim r [
        | tp_err e ↦ (tp_err e, bus')
        | tp_ok _ ↦
            if is_over bs count'
            then (tp_ok (drop l.cf_bytes rest, next_sn sn), bus')
            else send_block l k tx_id (drop l.cf_bytes rest) (next_sn sn) bs count' stmin bus'
      ] in
      let first = ap (λ r. after_block m tx_id (out r)) done in
      (
        bus',
        d',
        elim (Bool-cases (is_over bs count')) [
          | inl over ↦ first ∙ rw (over, next_sn_lem sn)
          | inr running ↦ first ∙ rw (running, next_sn_lem sn)
        ],
      )

  Done-if :
      (test : Bool) {p q : TpResult Bool × Bus F} {later : List (Arrival F)}
      → Done later p
      → Done later q
      → Done later (if test then p else q)
  Done-if true first second = first
  Done-if false first second = second

  -- The last frame is out.
  send_rest-nil :
      (m tx_id sn : ℕ) (bus : Bus F) (later : List (Arrival F))
      → IsDue later bus
      → Done later (send_rest l m tx_id [] sn bus)
  unfolding send_rest
  send_rest-nil zero tx_id sn bus later d = (refl, d)
  send_rest-nil (suc m) tx_id sn bus later d = (refl, d)

  go_on-nil :
      (k m tx_id sn bs count stmin : ℕ) (bus : Bus F) (later : List (Arrival F))
      → IsDue later bus
      → Done later (go_on k m tx_id [] sn bs count stmin bus)
  unfolding send_block after_block
  go_on-nil zero m tx_id sn bs count stmin bus later d = send_rest-nil m tx_id sn bus later d
  go_on-nil (suc k) m tx_id sn bs count stmin bus later d = send_rest-nil m tx_id sn bus later d

  -- The transfer goes on to its end: at a flow control frame where the block is over, within a block
  -- where it is not.
  pub go_on-Done :
      (n k m tx_id can_id bs stmin : ℕ) (rest : List ℕ) (sn count : ℕ) (bus : Bus F)
      (later : List (Arrival F))
      → length rest ≤ n
      → length rest ≤ k
      → length rest ≤ m
      → sn < 16
      → IsDue (arriving l.size (refills w n can_id bs stmin rest count) ++ later) bus
      → Done later (
          if is_over bs count
          then send_rest l m tx_id rest sn bus
          else go_on k m tx_id rest sn bs count stmin bus)
  unfolding refills
  go_on-Done zero k m tx_id can_id bs stmin (b ∷ more) sn count bus later en ek em small d =
      absurd (omega arith)
  go_on-Done zero k m tx_id can_id bs stmin [] sn count bus later en ek em small d =
      Done-if (is_over bs count) (send_rest-nil m tx_id sn bus later d)
        (go_on-nil k m tx_id sn bs count stmin bus later d)
  go_on-Done (suc n) k m tx_id can_id bs stmin [] sn count bus later en ek em small d =
      Done-if (is_over bs count) (send_rest-nil m tx_id sn bus later d)
        (go_on-nil k m tx_id sn bs count stmin bus later d)
  go_on-Done (suc n) zero m tx_id can_id bs stmin (b ∷ more) sn count bus later en ek em small d =
      absurd (omega arith)
  go_on-Done (suc n) (suc k) zero tx_id can_id bs stmin (b ∷ more) sn count bus later en ek em small
        d =
      absurd (omega arith)
  go_on-Done (suc n) (suc k) (suc m) tx_id can_id bs stmin (b ∷ more) sn count bus later en ek em
        small d =
      let left = drop l.cf_bytes (b ∷ more) in
      let shorter : length left ≤ length more = omega (arith, length-drop l.cf_bytes (b ∷ more)) in
      let frame : (k m count : ℕ) (bus : Bus F)
          → length more ≤ k
          → length more ≤ m
          → IsDue
              (arriving l.size (refills w n can_id bs stmin left ((count + 1) % 2 ^ 8)) ++ later)
              bus
          → Done later (go_on (suc k) m tx_id (b ∷ more) sn bs count stmin bus) =
        λ k m count bus ek em d.
          let (bus', d', step) =
            go_on-step k m tx_id bs stmin b more sn count bus
              (arriving l.size (refills w n can_id bs stmin left ((count + 1) % 2 ^ 8)) ++ later)
              small d in
          subst (Done later) (sym step) (
            go_on-Done n k m tx_id can_id bs stmin left ((sn + 1) % 16) ((count + 1) % 2 ^ 8) bus'
              later (omega arith) (omega arith) (omega arith) (omega arith) d') in
      elim (Bool-cases (is_over bs count)) [
        | inl over ↦
            let due = arriving l.size (refills w n can_id bs stmin left 1) ++ later in
            let d' : IsDue (grant w 0 can_id bs stmin due) bus = rw (refills, over) at d in
            rw over (
              subst (Done later)
                (sym (send_rest-go_on m tx_id can_id 0 bs stmin b more sn bus due (omega arith) d'))
                (frame (length more) m 0 (next_bus bus due) (omega arith) (omega arith)
                  (record { works = d.works; writable = d.writable; due = refl })))
        | inr running ↦
            rw running
              (frame k (suc m) count bus (omega arith) (omega arith) (rw (refills, running) at d))
      ]
