-- ===== src/Session.antt =====
-- src/core/session.c: the diagnostic session of one ECU, services 0x10 and 0x3E, and the S3 timer.
-- The clock is an argument: the value that `clock_gettime` fills in. `null` stands for the test
-- whether one of the pointer arguments is NULL.
pub mod Timing
pub mod Control
mod Tests
use uds.Base.{
  ℕ, ◌*◌, ◌/◌, ◌%◌, ◌^◌, bit_and, Bool, true, Option, none, some, List, [], ◌∷◌, ltb, ◌==◌, ◌!=◌,
  if◌then◌else◌,
}
use uds.Base.Int.{ℤ, sub_ℕ, ◌+ℤ◌, scale, quot, lt_ℤ}
use uds.Core.{
  Reply, positive, negative, err_param, err_buf, sub_function_not_supported, Timespec, byte_at,
  low_byte,
}

-- `UdsSessionType`
pub data SessionType : Type 0 where
  default_session programming_session extended_session safety_session : SessionType

unfoldable pub session_code : SessionType → ℕ
session_code default_session = 0x01
session_code programming_session = 0x02
session_code extended_session = 0x03
session_code safety_session = 0x04

-- The `switch` that validates a session type byte.
unfoldable pub session_type_of : ℕ → Option SessionType
session_type_of b =
    if b == 0x01
    then some default_session
    else if b == 0x02
    then some programming_session
    else if b == 0x03
    then some extended_session
    else if b == 0x04
    then some safety_session
    else none

-- `UdsCoreSessionConfig`
pub record SessionConfig : Type 0 where
  pub p2_ms : ℕ
  pub p2_star_ms : ℕ
  pub s3_ms : ℕ

-- `UdsCoreSession`
pub record Session : Type 0 where
  pub ecu_id : ℕ
  pub type : SessionType
  pub cfg : SessionConfig
  pub security_level : ℕ
  pub last_activity : Timespec

abbrev pub default_config : SessionConfig
default_config = record { p2_ms = 50; p2_star_ms = 2000; s3_ms = 10000 }

-- `uds_core_session_init`; `none` is a NULL configuration.
unfoldable pub session_init : ℕ → Option SessionConfig → Timespec → Session
session_init ecu_id cfg now = record {
  ecu_id = ecu_id;
  type = default_session;
  cfg = elim cfg [ none ↦ default_config | some c ↦ c ];
  security_level = 0;
  last_activity = now;
}

-- What `uds_core_dsc` does to the session once the request is accepted.
abbrev pub enter : Session → SessionType → Timespec → Session
enter s t now = record s {
  type = t;
  security_level = elim t [ default_session ↦ 0 | _ ↦ s.security_level ];
  last_activity = now;
}

-- The positive response of service 0x10; the P2* field counts 10 ms.
abbrev pub dsc_response : SessionConfig → ℕ → List ℕ
dsc_response c session_type =
    0x50
    ∷ session_type
    ∷ byte_at c.p2_ms 8
    ∷ low_byte c.p2_ms
    ∷ byte_at (c.p2_star_ms / 10 % 2 ^ 16) 8
    ∷ low_byte (c.p2_star_ms / 10 % 2 ^ 16)
    ∷ []

-- `uds_core_dsc`
unfoldable pub dsc : Bool → Session → ℕ → ℕ → Timespec → Reply × Session
unfolding session_type_of
dsc null s session_type resp_size now =
    if null then (err_param, s) else elim (session_type_of session_type) [
      | none ↦ (negative sub_function_not_supported, s)
      | some t ↦
          if ltb resp_size 6
          then (err_buf, s)
          else (positive (dsc_response s.cfg session_type), enter s t now)
    ]

-- `uds_core_tester_present`: the timer is refreshed before the response is built.
unfoldable pub tester_present : Bool → Session → ℕ → ℕ → Timespec → Reply × Session
tester_present null s sub_fn resp_size now =
    if null
    then (err_param, s)
    else if bit_and sub_fn 0x7F != 0x00
    then (negative sub_function_not_supported, s)
    else let refreshed = record s { last_activity = now } in
      if bit_and sub_fn 0x80 != 0
      then (positive [], refreshed)
      else if ltb resp_size 2
      then (err_buf, refreshed)
      else (positive (0x7E ∷ bit_and sub_fn 0x7F ∷ []), refreshed)

-- `timespec_diff_ms`
unfoldable pub timespec_diff_ms : Timespec → Timespec → ℤ
timespec_diff_ms a b =
    scale (sub_ℕ a.tv_sec b.tv_sec) 1000 +ℤ quot (sub_ℕ a.tv_nsec b.tv_nsec) 1000000

-- `uds_core_session_expired`; `none` is a NULL session.
unfoldable pub session_expired : Option Session → Timespec → Bool
unfolding timespec_diff_ms
session_expired none now = true
session_expired (some s) now = lt_ℤ s.cfg.s3_ms (timespec_diff_ms now s.last_activity)

-- `uds_core_session_refresh`
unfoldable pub session_refresh : Session → Timespec → Session
session_refresh s now = record s { last_activity = now }
