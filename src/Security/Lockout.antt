-- ===== src/Security/Lockout.antt =====
-- The lockout of service 0x27 in src/core/security.c over a sequence of its calls, with nothing else between
-- them.
use uds.Base.{
  not, ◌&&◌, if◌then◌else◌, ℕ, ◌+◌, ◌-◌, ◌≤◌, ◌<◌, ◌≡◌, ◌≢◌, refl, true, false, List, [], ◌∷◌, All,
  arith,
}
use uds.Core.{Reply, positive, negative, invalid_key, Timespec}
use uds.Security.{
  check_locked, verify_key, reject_key, Security, request_seed, send_key, lockout_secs,
  max_attempts,
}
use uds.Security.Access.{IsLockedOut}

-- A call of uds_core_sec_request_seed or uds_core_sec_send_key: its time, and its arguments.
pub data Call : Type 0 where
  asks : Timespec → (sub_fn resp_size : ℕ) → (ℕ → ℕ) → Call
  answers : Timespec → (sub_fn : ℕ) → List ℕ → (resp_size : ℕ) → Call

abbrev pub call_time : Call → Timespec
call_time (asks now sub_fn resp_size rand) = now
call_time (answers now sub_fn key resp_size) = now

abbrev pub serve : Security → Call → Reply × Security
serve s (asks now sub_fn resp_size rand) = request_seed false s sub_fn resp_size now rand
serve s (answers now sub_fn key resp_size) = send_key false s sub_fn key resp_size now

-- The replies to a sequence of calls, and the state after it.
unfoldable pub run : Security → List Call → List Reply × Security
run s [] = ([], s)
run s (c ∷ cs) = let (r, s') = serve s c in let (rs, t) = run s' cs in (r ∷ rs, t)

abbrev pub IsRefused : Reply → Type 0
IsRefused r = (bytes : List ℕ) → r ≢ positive bytes

request_seed-locked :
    (s : Security) (now : Timespec) (sub_fn resp_size : ℕ) (rand : ℕ → ℕ)
    → IsLockedOut s now
    → ((request_seed false s sub_fn resp_size now rand).1 ≡ s)
      × IsRefused (request_seed false s sub_fn resp_size now rand).0
unfolding request_seed
request_seed-locked s now sub_fn resp_size rand l = (ground arith, λ bytes. ground arith)

send_key-locked :
    (s : Security) (now : Timespec) (sub_fn : ℕ) (key : List ℕ) (resp_size : ℕ)
    → IsLockedOut s now
    → ((send_key false s sub_fn key resp_size now).1 ≡ s)
      × IsRefused (send_key false s sub_fn key resp_size now).0
unfolding send_key check_locked verify_key
send_key-locked s now sub_fn key resp_size l = (ground arith, λ bytes. ground arith)

serve-locked :
    (s : Security) (c : Call)
    → IsLockedOut s (call_time c)
    → ((serve s c).1 ≡ s) × IsRefused (serve s c).0
serve-locked s (asks now sub_fn resp_size rand) l =
    request_seed-locked s now sub_fn resp_size rand l
serve-locked s (answers now sub_fn key resp_size) l = send_key-locked s now sub_fn key resp_size l

-- While the lockout lasts no sequence of calls of service 0x27 (requests for a seed and keys, with no call
-- of another service between them) is granted a seed or an unlocking, and none of these calls changes the
-- security state.
pub run-locked :
    (s : Security) (cs : List Call)
    → s.locked ≡ true
    → All (λ c. (call_time c).tv_sec < s.locked_ts.tv_sec + lockout_secs) cs
    → ((run s cs).1 ≡ s) × All IsRefused (run s cs).0
unfolding run
run-locked s [] l a = (refl, tt)
run-locked s (c ∷ cs) l a =
    let (same, refused) = serve-locked s c (record { locked = l; recent = a.0 }) in
    let (rest, all) = run-locked s cs l a.1 in (rw same rest, (refused, rw same all))

-- Is it the answer to a wrong key (NRC 0x35)?
abbrev pub wrong_key : Reply → ℕ
wrong_key (negative invalid_key) = 1
wrong_key r = 0

abbrev pub wrong_keys : List Reply → ℕ
wrong_keys [] = 0
wrong_keys (r ∷ rs) = wrong_key r + wrong_keys rs

-- Is it a call that begins a lockout, as the last rejected key does?
abbrev pub begins : Security → Security → ℕ
begins s s' = if not s.locked && s'.locked then 1 else 0

-- The keys of a sequence of calls that are rejected: with NRC 0x35, or with the beginning of a lockout.
abbrev pub rejected : Security → List Call → ℕ
rejected s [] = 0
rejected s (c ∷ cs) = wrong_key (serve s c).0 + begins s (serve s c).1 + rejected (serve s c).1 cs

-- The reply that grants access to the level of a key.
abbrev pub IsNoGrant : Reply → Type 0
IsNoGrant r = (sub_fn : ℕ) → r ≢ positive (0x67 ∷ sub_fn ∷ [])

-- Three failures are counted exactly under a lockout, and it did not begin before `start`.
record Guarded (start : ℕ) (s : Security) : Type 0 where
  counted : s.fail_count ≤ max_attempts
  lock_counts : s.locked ≡ true → s.fail_count ≡ max_attempts
  count_locks : s.fail_count ≡ max_attempts → s.locked ≡ true
  since : s.locked ≡ true → start ≤ s.locked_ts.tv_sec

-- A request inside the window that grants nothing uses up the guesses that are left.
abbrev Spends : ℕ → Security → Reply × Security → Type 0
Spends start s out =
    Guarded start out.1
    × (wrong_key out.0 + (2 - out.1.fail_count) ≤ 2 - s.fail_count)
    × (wrong_key out.0 + begins s out.1 + (3 - out.1.fail_count) ≤ 3 - s.fail_count)

request_seed-Spends :
    (start : ℕ) (s : Security) (now : Timespec) (sub_fn resp_size : ℕ) (rand : ℕ → ℕ)
    → now.tv_sec < start + lockout_secs
    → Guarded start s
    → Spends start s (request_seed false s sub_fn resp_size now rand)
unfolding request_seed
request_seed-Spends start s now sub_fn resp_size rand hi g = ground arith

-- Inside the window no lockout ends.
check_locked-Guarded :
    (start : ℕ) (s : Security) (now : Timespec)
    → now.tv_sec < start + lockout_secs
    → Guarded start s
    → check_locked s now ≡ (s.locked, s)
unfolding check_locked
check_locked-Guarded start s now hi g = ground arith

reject_key-Spends :
    (start : ℕ) (s : Security) (now : Timespec)
    → start ≤ now.tv_sec
    → Guarded start s
    → s.locked ≡ false
    → Spends start s (reject_key s now)
unfolding reject_key
reject_key-Spends start s now lo g l = ground arith

verify_key-Spends :
    (start : ℕ) (s : Security) (now : Timespec) (sub_fn : ℕ) (key : List ℕ)
    → start ≤ now.tv_sec
    → Guarded start s
    → s.locked ≡ false
    → (verify_key s sub_fn key now).0 ≢ positive (0x67 ∷ sub_fn ∷ [])
    → Spends start s (verify_key s sub_fn key now)
unfolding verify_key
verify_key-Spends start s now sub_fn key lo g l h =
    ground (arith, reject_key-Spends start s now lo g l)

send_key-Spends :
    (start : ℕ) (s : Security) (now : Timespec) (sub_fn : ℕ) (key : List ℕ) (resp_size : ℕ)
    → start ≤ now.tv_sec
    → now.tv_sec < start + lockout_secs
    → Guarded start s
    → (send_key false s sub_fn key resp_size now).0 ≢ positive (0x67 ∷ sub_fn ∷ [])
    → Spends start s (send_key false s sub_fn key resp_size now)
unfolding send_key
send_key-Spends start s now sub_fn key resp_size lo hi g h =
    ground
      (arith, check_locked-Guarded start s now hi g, verify_key-Spends start s now sub_fn key lo g)

serve-Spends :
    (start : ℕ) (s : Security) (c : Call)
    → start ≤ (call_time c).tv_sec
    → (call_time c).tv_sec < start + lockout_secs
    → Guarded start s
    → IsNoGrant (serve s c).0
    → Spends start s (serve s c)
serve-Spends start s (asks now sub_fn resp_size rand) lo hi g n =
    request_seed-Spends start s now sub_fn resp_size rand hi g
serve-Spends start s (answers now sub_fn key resp_size) lo hi g n =
    send_key-Spends start s now sub_fn key resp_size lo hi g (n sub_fn)

run-Guarded :
    (start : ℕ) (s : Security) (cs : List Call)
    → All (λ c. (start ≤ (call_time c).tv_sec) × ((call_time c).tv_sec < start + lockout_secs)) cs
    → Guarded start s
    → All IsNoGrant (run s cs).0
    → (wrong_keys (run s cs).0 ≤ 2 - s.fail_count) × (rejected s cs ≤ 3 - s.fail_count)
unfolding run
run-Guarded start s [] a g n = (omega arith, omega arith)
run-Guarded start s (c ∷ cs) a g n =
    let (g', spent, spent') = serve-Spends start s c a.0.0 a.0.1 g n.0 in
    let (few, few') = run-Guarded start (serve s c).1 cs a.1 g' n.1 in
    (omega (arith, spent, few), omega (arith, spent', few'))

-- Guessing through service 0x27 is bounded: from a state with no lockout and fewer than three failures,
-- calls of request_seed and send_key within 300 seconds of a start, of which none is granted access, and
-- with no call of another service between them, have at most three keys rejected by their value, counting
-- the failures from before: at most two are answered with NRC 0x35, and one more begins the lockout.
pub run-wrong_keys :
    (start : ℕ) (s : Security) (cs : List Call)
    → s.locked ≡ false
    → s.fail_count < max_attempts
    → All (λ c. (start ≤ (call_time c).tv_sec) × ((call_time c).tv_sec < start + lockout_secs)) cs
    → All IsNoGrant (run s cs).0
    → (wrong_keys (run s cs).0 + s.fail_count ≤ 2) × (rejected s cs + s.fail_count ≤ 3)
run-wrong_keys start s cs l f a n =
    let (few, few') = run-Guarded start s cs a guarded n in
    (omega (arith, few), omega (arith, few'))
  where
    guarded : Guarded start s
    guarded = ground arith
