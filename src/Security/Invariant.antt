-- ===== src/Security/Invariant.antt =====
-- The well-formed security states of src/core/security.c under service 0x27.
use uds.Base.{ℕ, ◌%◌, ◌≤◌, ◌<◌, ◌≡◌, ◌≢◌, ◌⊎◌, Bool, true, false, List, length, arith}
use uds.Base.Bits.{bit_and_1}
use uds.Core.{Timespec}
use uds.Security.{
  Security, security_init, request_seed, send_key, seed_len, max_attempts, check_locked, verify_key,
  reject_key,
}

-- An odd byte, or 0 for none.
abbrev pub IsLevel : ℕ → Type 0
IsLevel l = (l < 256) × ((l ≡ 0) ⊎ (l % 2 ≡ 1))

-- Three failures are counted exactly while the lockout flag is set.
pub record IsValid (s : Security) : Type 0 where
  pub seed_size : length s.seed ≡ seed_len
  pub pending : IsLevel s.pending_level
  pub unlocked : IsLevel s.unlocked_level
  pub counted : s.fail_count ≤ max_attempts
  pub lock_counts : s.locked ≡ true → s.fail_count ≡ max_attempts
  pub count_locks : s.fail_count ≡ max_attempts → s.locked ≡ true

pub security_init-IsValid : IsValid security_init
unfolding security_init
security_init-IsValid = ground arith

-- `uds_core_sec_request_seed` keeps the invariant, whatever it replies.
pub request_seed-IsValid :
    (null : Bool) (s : Security) (sub_fn resp_size : ℕ) (now : Timespec) (rand : ℕ → ℕ)
    → sub_fn < 256
    → IsValid s
    → IsValid (request_seed null s sub_fn resp_size now rand).1
unfolding request_seed
request_seed-IsValid null s sub_fn resp_size now rand hi v = ground (arith, bit_and_1 sub_fn)

check_locked-IsValid : (s : Security) (now : Timespec) → IsValid s → IsValid (check_locked s now).1
unfolding check_locked
check_locked-IsValid s now v = ground arith

-- Where there is no lockout, a wrong key is counted.
reject_key-IsValid :
    (s : Security) (now : Timespec) → IsValid s → s.locked ≡ false → IsValid (reject_key s now).1
unfolding reject_key
reject_key-IsValid s now v l = ground arith

check_locked_lem :
    (s : Security) (now : Timespec) → (check_locked s now).0 ≡ (check_locked s now).1.locked
unfolding check_locked
check_locked_lem s now = ground arith

verify_key-IsValid :
    (s : Security) (sub_fn : ℕ) (key : List ℕ) (now : Timespec)
    → sub_fn < 256
    → sub_fn % 2 ≡ 0
    → sub_fn ≢ 0
    → s.locked ≡ false
    → IsValid s
    → IsValid (verify_key s sub_fn key now).1
unfolding verify_key
verify_key-IsValid s sub_fn key now hi even some_fn l v =
    ground (arith, reject_key-IsValid s now v l)

-- `uds_core_sec_send_key` keeps the invariant, whatever it replies.
pub send_key-IsValid :
    (null : Bool) (s : Security) (sub_fn : ℕ) (key : List ℕ) (resp_size : ℕ) (now : Timespec)
    → sub_fn < 256
    → IsValid s
    → IsValid (send_key null s sub_fn key resp_size now).1
unfolding send_key
send_key-IsValid null s sub_fn key resp_size now hi v = ground (
  arith,
  bit_and_1 sub_fn,
  check_locked_lem s now,
  check_locked-IsValid s now v,
  verify_key-IsValid (check_locked s now).1 sub_fn key now hi,
)
