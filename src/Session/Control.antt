-- ===== src/Session/Control.antt =====
-- Services 0x10 and 0x3E of src/core/session.c: when they are granted, and what they change.
use uds.Base.{
  ℕ, ◌+◌, ◌*◌, ◌/◌, ◌%◌, ◌^◌, ◌≤◌, ◌<◌, ◌≡◌, ◌↔◌, Bool, true, false, List, length, get_or, ◌==◌,
  if◌then◌else◌, arith,
}
use uds.Base.Bits.{bit_and_255, bit_and_127}
use uds.Core.{positive, is_positive, Timespec}
use uds.Session.{Session, SessionConfig, session_code, dsc, tester_present}

-- The 16-bit field at `i` of a response, high byte first.
abbrev pub field16 : List ℕ → ℕ → ℕ
field16 r i = get_or r i 0 * 256 + get_or r (i + 1) 0

abbrev pub IsShort : SessionConfig → Type 0
IsShort c = (c.p2_ms < 2 ^ 16) × (c.p2_star_ms < 2 ^ 16)

-- A session change is granted exactly for the four session types, with no NULL pointer and room for
-- the response.
pub dsc-granted_iff :
    (null : Bool) (s : Session) (session_type resp_size : ℕ) (now : Timespec)
    → (is_positive (dsc null s session_type resp_size now).0 ≡ true)
      ↔ ((null ≡ false) × (1 ≤ session_type) × (session_type ≤ 4) × (6 ≤ resp_size))
unfolding dsc
dsc-granted_iff null s session_type resp_size now = (λ h. ground arith, λ h. ground arith)

-- A granted request for a session starts it: the session has the type that was asked for, the
-- default session clears the security level and the others keep it, the time of last activity is now,
-- and the response carries the type and the P2 and P2* times (P2* in units of 10 ms), where both fit 16
-- bits.
pub dsc-positive :
    (null : Bool) (s : Session) (session_type resp_size : ℕ) (now : Timespec) (r : List ℕ)
    → IsShort s.cfg
    → (dsc null s session_type resp_size now).0 ≡ positive r
    → let s' = (dsc null s session_type resp_size now).1 in
      (session_code s'.type ≡ session_type)
      × (s'.security_level ≡ (if session_type == 1 then 0 else s.security_level))
      × (s'.last_activity ≡ now)
      × (s'.cfg ≡ s.cfg)
      × (length r ≡ 6)
      × (get_or r 1 0 ≡ session_type)
      × (field16 r 2 ≡ s.cfg.p2_ms)
      × (field16 r 4 ≡ s.cfg.p2_star_ms / 10)
unfolding dsc session_code
dsc-positive null s session_type resp_size now r short h =
    ground (arith, bit_and_255 s.cfg.p2_ms, bit_and_255 (s.cfg.p2_star_ms / 10 % 2 ^ 16))

-- A request that is not granted leaves the session as it was.
pub dsc-refused :
    (null : Bool) (s : Session) (session_type resp_size : ℕ) (now : Timespec)
    → is_positive (dsc null s session_type resp_size now).0 ≡ false
    → (dsc null s session_type resp_size now).1 ≡ s
unfolding dsc
dsc-refused null s session_type resp_size now h = ground arith

-- Service 0x3E sets the time of the last activity, where the sub-function, a byte, is 0 without its
-- top bit, even if there is no room for the response, and changes nothing else of the session.
pub tester_present_lem :
    (s : Session) (sub_fn resp_size : ℕ) (now : Timespec)
    → sub_fn < 256
    → (tester_present false s sub_fn resp_size now).1
      ≡ (if sub_fn % 128 == 0 then record s { last_activity = now } else s)
unfolding tester_present
tester_present_lem s sub_fn resp_size now hi = ground (arith, bit_and_127 sub_fn)
