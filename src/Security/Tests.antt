-- ===== src/Security/Tests.antt =====
-- Service 0x27 of src/core/security.c on concrete requests.
use uds.Base.{ℕ, ◌+◌, ◌≤◌, ◌≡◌, refl, true, false, List, [], ◌∷◌, All, arith}
use uds.Core.{positive, Timespec}
use uds.Security.{Security, send_key, request_seed, mismatch, check_locked, verify_key}
use uds.Security.Access.{IsLockedOut}
use uds.Security.Lockout.{
  Call, asks, answers, run, IsRefused, IsNoGrant, wrong_keys, rejected, run-locked, run-wrong_keys,
}

abbrev at : ℕ → Timespec
at seconds = record { tv_sec = seconds; tv_nsec = 0 }

-- A seed 1 2 3 4 for level 1 was given out at 100 s.
abbrev asked : Security
asked = record {
  seed = 1 ∷ 2 ∷ 3 ∷ 4 ∷ [];
  seed_valid = true;
  pending_level = 1;
  seed_ts = at 100;
  fail_count = 0;
  locked = false;
  locked_ts = at 0;
  unlocked_level = 0;
}

abbrev good_key : List ℕ
good_key = 0xAA ∷ 0xCF ∷ 0x11 ∷ 0x30 ∷ []

abbrev bad_key : List ℕ
bad_key = 0 ∷ 0 ∷ 0 ∷ 0 ∷ []

send_key_run : (send_key false asked 2 good_key 8 (at 105)).0 ≡ positive (0x67 ∷ 2 ∷ [])
unfolding send_key check_locked verify_key mismatch
send_key_run = refl

asked-free : ¬ IsLockedOut asked (at 100)
asked-free l = ground (arith, l.locked)

abbrev locked_out : Security
locked_out = record asked { fail_count = 3; locked = true; locked_ts = at 100; seed_valid = false }

abbrev calls : List Call
calls = asks (at 110) 1 8 (λ i. i) ∷ answers (at 120) 2 good_key 8 ∷ []

run-locked_example :
    ((run locked_out calls).1 ≡ locked_out) × All IsRefused (run locked_out calls).0
run-locked_example = run-locked locked_out calls refl (omega arith)

abbrev guesses : List Call
guesses =
    answers (at 101) 2 bad_key 8 ∷ asks (at 102) 1 8 (λ i. i) ∷ answers (at 103) 2 bad_key 8 ∷ []

no_grant : All IsNoGrant (run asked guesses).0
unfolding run send_key check_locked verify_key request_seed mismatch
no_grant = ground arith

run-wrong_keys_example :
    (wrong_keys (run asked guesses).0 + asked.fail_count ≤ 2)
    × (rejected asked guesses + asked.fail_count ≤ 3)
run-wrong_keys_example = run-wrong_keys 100 asked guesses refl (omega arith) (omega arith) no_grant
