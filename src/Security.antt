-- ===== src/Security.antt =====
-- src/core/security.c: service 0x27, seed and key with a lockout.
-- The clock is an argument, and so is `rand`: `rand i` is what the i-th call of `rand()` returns
-- while the request is served. `null` stands for the test whether a pointer argument is NULL.
pub mod Keys
pub mod Access
pub mod Lockout
pub mod Invariant
mod Tests
use uds.Base.{
  ℕ, ◌+◌, ◌-◌, ◌%◌, ◌^◌, bit_and, bit_or, bit_xor, Bool, true, false, not, ◌&&◌, ◌||◌, Option, none,
  some, List, [], ◌∷◌, length, get_or, leb, ltb, ◌==◌, ◌!=◌, if◌then◌else◌,
}
use uds.Base.Int.{sub_ℕ, le_ℤ}
use uds.Core.{
  Reply, positive, negative, err_param, err_buf, sub_function_not_supported,
  exceeded_number_of_attempts, request_sequence_error, incorrect_msg_len_or_format, invalid_key,
  Timespec,
}

abbrev pub seed_len : ℕ
seed_len = 4

abbrev pub max_attempts : ℕ
max_attempts = 3

abbrev pub lockout_secs : ℕ
lockout_secs = 300

abbrev pub seed_timeout_secs : ℕ
seed_timeout_secs = 10

-- `UdsCoreSecurity`
pub record Security : Type 0 where
  pub seed : List ℕ
  pub seed_valid : Bool
  pub pending_level : ℕ
  pub seed_ts : Timespec
  pub fail_count : ℕ
  pub locked : Bool
  pub locked_ts : Timespec
  pub unlocked_level : ℕ

abbrev zero_time : Timespec
zero_time = record { tv_sec = 0; tv_nsec = 0 }

-- `uds_core_security_init`
unfoldable pub security_init : Security
security_init = record {
  seed = 0 ∷ 0 ∷ 0 ∷ 0 ∷ [];
  seed_valid = false;
  pending_level = 0;
  seed_ts = zero_time;
  fail_count = 0;
  locked = false;
  locked_ts = zero_time;
  unlocked_level = 0;
}

-- `check_locked`: the answer, and the state with a lockout that is over cleared.
unfoldable pub check_locked : Security → Timespec → Bool × Security
check_locked s now =
    if not s.locked
    then (false, s)
    else if le_ℤ lockout_secs (sub_ℕ now.tv_sec s.locked_ts.tv_sec)
    then (false, record s { locked = false; fail_count = 0 })
    else (true, s)

-- `seed_expired`
unfoldable pub seed_expired : Security → Timespec → Bool
seed_expired s now =
    if not s.seed_valid then true else le_ℤ seed_timeout_secs (sub_ℕ now.tv_sec s.seed_ts.tv_sec)

abbrev pub key_mask : List ℕ
key_mask = 0xAB ∷ 0xCD ∷ 0x12 ∷ 0x34 ∷ []

-- The loop of `uds_core_sec_compute_key` from index `i` on.
unfoldable pub compute_key_from : ℕ → List ℕ → List ℕ
compute_key_from i [] = []
compute_key_from i (s ∷ seed) =
    bit_xor s (get_or key_mask (i % seed_len) 0) ∷ compute_key_from (i + 1) seed

-- `uds_core_sec_compute_key`
unfoldable pub compute_key : List ℕ → List ℕ
unfolding compute_key_from
compute_key seed = compute_key_from 0 seed

-- `uds_core_sec_request_seed`
unfoldable pub request_seed : Bool → Security → ℕ → ℕ → Timespec → (ℕ → ℕ) → Reply × Security
unfolding check_locked
request_seed null s sub_fn resp_size now rand =
    if null
    then (err_param, s)
    else if sub_fn == 0 || bit_and sub_fn 0x01 == 0
    then (negative sub_function_not_supported, s)
    else if ltb resp_size (2 + seed_len)
    then (err_buf, s)
    else let (locked, s') = check_locked s now in
      if locked
      then (negative exceeded_number_of_attempts, s')
      else if s'.unlocked_level == sub_fn
      then (positive (0x67 ∷ sub_fn ∷ 0 ∷ 0 ∷ 0 ∷ 0 ∷ []), s')
      else let fresh = rand 0 % 2 ^ 8 ∷ rand 1 % 2 ^ 8 ∷ rand 2 % 2 ^ 8 ∷ rand 3 % 2 ^ 8 ∷ [] in
        (
          positive (0x67 ∷ sub_fn ∷ fresh),
          record s' { seed = fresh; seed_valid = true; pending_level = sub_fn; seed_ts = now },
        )

-- The comparison loop of `uds_core_sec_send_key`: every byte is looked at.
unfoldable pub mismatch : ℕ → List ℕ → List ℕ → ℕ
mismatch acc [] expected = acc
mismatch acc (k ∷ key) [] = acc
mismatch acc (k ∷ key) (e ∷ expected) = mismatch (bit_or acc (bit_xor k e)) key expected

-- The branch of `uds_core_sec_send_key` for a wrong key.
unfoldable pub reject_key : Security → Timespec → Reply × Security
reject_key s now =
    let failed = (s.fail_count + 1) % 2 ^ 8 in
    if leb max_attempts failed
    then (
      negative exceeded_number_of_attempts,
      record s { fail_count = failed; seed_valid = false; locked = true; locked_ts = now },
    )
    else (negative invalid_key, record s { fail_count = failed; seed_valid = false })

-- `uds_core_sec_send_key` from the test of the pending level on; `level` is its
-- `expected_seed_level`.
unfoldable pub verify_key : Security → ℕ → List ℕ → Timespec → Reply × Security
unfolding seed_expired reject_key compute_key
verify_key s sub_fn key now =
    let level : ℕ = (sub_fn + 2 ^ 8 - 1) % 2 ^ 8 in
    if not s.seed_valid || s.pending_level != level
    then (negative request_sequence_error, s)
    else if seed_expired s now
    then (negative request_sequence_error, record s { seed_valid = false })
    else if length key != seed_len
    then (negative incorrect_msg_len_or_format, s)
    else if mismatch 0 key (compute_key s.seed) != 0
    then reject_key s now
    else (
      positive (0x67 ∷ sub_fn ∷ []),
      record s { seed_valid = false; fail_count = 0; unlocked_level = level },
    )

-- `uds_core_sec_send_key`; `key` is `key[0 .. key_len)`.
unfoldable pub send_key : Bool → Security → ℕ → List ℕ → ℕ → Timespec → Reply × Security
send_key null s sub_fn key resp_size now =
    if null || length key == 0
    then (err_param, s)
    else if sub_fn == 0 || bit_and sub_fn 0x01 != 0
    then (negative sub_function_not_supported, s)
    else if ltb resp_size 2
    then (err_buf, s)
    else let (locked, s') = check_locked s now in
      if locked then (negative exceeded_number_of_attempts, s') else verify_key s' sub_fn key now

-- `uds_core_sec_reset`: `none` is a NULL state.
unfoldable pub sec_reset : Option Security → Option Security
sec_reset none = none
sec_reset (some s) = some security_init

-- `uds_core_sec_is_unlocked`; `none` is a NULL pointer.
unfoldable pub is_unlocked : Option Security → ℕ → Bool
is_unlocked none level = false
is_unlocked (some s) level = s.unlocked_level == level && level != 0
