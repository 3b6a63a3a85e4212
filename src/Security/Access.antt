-- ===== src/Security/Access.antt =====
-- uds_core_sec_send_key of src/core/security.c: the keys that it accepts.
use uds.Base.{
  refl, ap, ◌∙◌, ℕ, ◌+◌, ◌%◌, ◌≤◌, ◌<◌, ◌≡◌, ◌≢◌, ◌↔◌, ◌⊎◌, inl, inr, true, false, List, [], ◌∷◌,
  length, arith,
}
use uds.Base.Bits.{bit_and_1}
use uds.Core.{positive, positive-cases, Timespec}
use uds.Security.{
  request_seed, Security, send_key, compute_key, lockout_secs, seed_timeout_secs, seed_len,
  check_locked, verify_key,
}
use uds.Security.Keys.{mismatch-zero_iff, length-compute_key}

-- A lockout that began less than 300 seconds ago.
pub record IsLockedOut (s : Security) (now : Timespec) : Type 0 where
  pub locked : s.locked ≡ true
  pub recent : now.tv_sec < s.locked_ts.tv_sec + lockout_secs

-- What a request must meet for its key to be accepted.
pub record Accepts (s : Security) (sub_fn : ℕ) (key : List ℕ) (resp_size : ℕ) (now : Timespec)
    : Type 0 where
  pub even : sub_fn % 2 ≡ 0
  pub room : 2 ≤ resp_size
  pub free : ¬ IsLockedOut s now
  pub asked : s.seed_valid ≡ true
  pub level : s.pending_level + 1 ≡ sub_fn
  pub fresh : now.tv_sec < s.seed_ts.tv_sec + seed_timeout_secs
  pub answer : key ≡ compute_key s.seed

pub send_key-Accepts_iff :
    (s : Security) (sub_fn : ℕ) (key : List ℕ) (resp_size : ℕ) (now : Timespec)
    → sub_fn < 256
    → length s.seed ≡ seed_len
    → ((r : List ℕ) × ((send_key false s sub_fn key resp_size now).0 ≡ positive r))
      ↔ Accepts s sub_fn key resp_size now
unfolding send_key check_locked verify_key
send_key-Accepts_iff s sub_fn key resp_size now hi e = (
  λ h. ground (
    arith,
    h,
    bit_and_1 sub_fn,
    mismatch-zero_iff key (compute_key s.seed),
    length-compute_key s.seed,
  ),
  λ a. (
    0x67 ∷ sub_fn ∷ [],
    ground (
      arith,
      a,
      bit_and_1 sub_fn,
      mismatch-zero_iff key (compute_key s.seed),
      length-compute_key s.seed,
    ),
  ),
)

send_key-granted :
    (s : Security) (sub_fn : ℕ) (key : List ℕ) (resp_size : ℕ) (now : Timespec) (r : List ℕ)
    → sub_fn < 256
    → (send_key false s sub_fn key resp_size now).0 ≡ positive r
    → (send_key false s sub_fn key resp_size now).1.unlocked_level ≡ s.pending_level
unfolding send_key check_locked verify_key
send_key-granted s sub_fn key resp_size now r hi h = ground arith

send_key-refused :
    (s : Security) (sub_fn : ℕ) (key : List ℕ) (resp_size : ℕ) (now : Timespec)
    → (send_key false s sub_fn key resp_size now).0 ≢ positive (0x67 ∷ sub_fn ∷ [])
    → (send_key false s sub_fn key resp_size now).1.unlocked_level ≡ s.unlocked_level
unfolding send_key check_locked verify_key
send_key-refused s sub_fn key resp_size now h = ground arith

-- A key that meets the conditions of acceptance unlocks the level of the seed, and any other leaves the
-- unlocked level as it was. The sub-function is a byte and the seed has four bytes.
pub send_key-unlocks :
    (s : Security) (sub_fn : ℕ) (key : List ℕ) (resp_size : ℕ) (now : Timespec)
    → sub_fn < 256
    → length s.seed ≡ seed_len
    → let s' = (send_key false s sub_fn key resp_size now).1 in
      (Accepts s sub_fn key resp_size now × (s'.unlocked_level ≡ s.pending_level))
      ⊎ (¬ Accepts s sub_fn key resp_size now × (s'.unlocked_level ≡ s.unlocked_level))
send_key-unlocks s sub_fn key resp_size now hi e =
    elim (positive-cases (send_key false s sub_fn key resp_size now).0) [
      | inl (r, h) ↦ inl (granted.0 (r, h), send_key-granted s sub_fn key resp_size now r hi h)
      | inr h ↦ inr (
        λ a. let (r, p) = granted.1 a in h r p,
        send_key-refused s sub_fn key resp_size now (h _),
      )
    ]
  where
    granted :
        ((r : List ℕ) × ((send_key false s sub_fn key resp_size now).0 ≡ positive r))
        ↔ Accepts s sub_fn key resp_size now
    granted = send_key-Accepts_iff s sub_fn key resp_size now hi e

-- What a fresh seed leaves.
request_seed-fresh :
    (s : Security) (sub_fn resp_size : ℕ) (now : Timespec) (rand : ℕ → ℕ)
    → sub_fn % 2 ≡ 1
    → ¬ IsLockedOut s now
    → s.unlocked_level ≢ sub_fn
    → 6 ≤ resp_size
    → let s' = (request_seed false s sub_fn resp_size now rand).1 in
      (s'.seed_valid ≡ true)
      × (s'.pending_level ≡ sub_fn)
      × (s'.seed_ts ≡ now)
      × (s'.locked ≡ false)
      × (length s'.seed ≡ seed_len)
unfolding request_seed
request_seed-fresh s sub_fn resp_size now rand odd free closed room =
    ground (arith, bit_and_1 sub_fn)

-- A seed that is asked for outside a lockout, for an odd level below 255 that is not unlocked, and with
-- room for the response, can be answered: the key computed from it, sent less than 10 seconds later
-- with the next sub-function and room for the response, unlocks the level.
pub send_key-request_seed :
    (s : Security) (sub_fn resp_size size : ℕ) (now later : Timespec) (rand : ℕ → ℕ)
    → sub_fn % 2 ≡ 1
    → sub_fn < 255
    → ¬ IsLockedOut s now
    → s.unlocked_level ≢ sub_fn
    → 6 ≤ resp_size
    → 2 ≤ size
    → later.tv_sec < now.tv_sec + 10
    → let s' = (request_seed false s sub_fn resp_size now rand).1 in
      (send_key false s' (sub_fn + 1) (compute_key s'.seed) size later).1.unlocked_level ≡ sub_fn
send_key-request_seed s sub_fn resp_size size now later rand odd small free closed room room' soon =
    let s' : Security = (request_seed false s sub_fn resp_size now rand).1 in
    let (valid, level, ts, unlocked, size4) =
      request_seed-fresh s sub_fn resp_size now rand odd free closed room in
    let accepts : Accepts s' (sub_fn + 1) (compute_key s'.seed) size later = record {
      even = omega arith;
      room = room';
      free = λ l. ground (arith, unlocked, l.locked);
      asked = valid;
      level = omega (arith, level);
      fresh = omega (arith, ap (λ t. t.tv_sec) ts);
      answer = refl;
    } in
    elim (send_key-unlocks s' (sub_fn + 1) (compute_key s'.seed) size later (omega arith) size4) [
      | inl (_, opened) ↦ opened ∙ level
      | inr (refused, _) ↦ absurd (refused accepts)
    ]
