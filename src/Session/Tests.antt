-- ===== src/Session/Tests.antt =====
-- Sessions of src/core/session.c at concrete times.
use uds.Base.{ℕ, ◌≡◌, refl, true, false, some, List, [], ◌∷◌, length, get_or, arith}
use uds.Core.{positive, Timespec}
use uds.Session.{Session, extended_session, session_code, dsc, session_expired}
use uds.Session.Control.{field16, dsc-positive}

abbrev start : Timespec
start = record { tv_sec = 100; tv_nsec = 999000000 }

abbrev later : Timespec
later = record { tv_sec = 111; tv_nsec = 2000000 }

abbrev fresh : Session
fresh = record {
  ecu_id = 1;
  type = extended_session;
  cfg = record { p2_ms = 50; p2_star_ms = 2000; s3_ms = 10000 };
  security_level = 1;
  last_activity = start;
}

abbrev granted : List ℕ
granted = 0x50 ∷ 1 ∷ 0 ∷ 50 ∷ 0 ∷ 200 ∷ []

dsc_run : (dsc false fresh 1 8 later).0 ≡ positive granted
unfolding dsc
dsc_run = refl

dsc-positive_example :
    let s' = (dsc false fresh 1 8 later).1 in
    (session_code s'.type ≡ 1)
    × (s'.security_level ≡ 0)
    × (s'.last_activity ≡ later)
    × (s'.cfg ≡ fresh.cfg)
    × (length granted ≡ 6)
    × (get_or granted 1 0 ≡ 1)
    × (field16 granted 2 ≡ 50)
    × (field16 granted 4 ≡ 200)
dsc-positive_example = dsc-positive false fresh 1 8 later granted (omega arith) dsc_run

expired : session_expired (some fresh) later ≡ true
unfolding session_expired
expired = refl
