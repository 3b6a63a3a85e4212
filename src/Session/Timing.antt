-- ===== src/Session/Timing.antt =====
-- The S3 timer of src/core/session.c against the time that has passed.
use uds.Base.{ℕ, ◌+◌, ◌*◌, ◌≤◌, ◌<◌, ◌≡◌, true, some, arith}
use uds.Core.{Timespec}
use uds.Session.{Session, session_expired}

-- A clock value as nanoseconds, and one with its nanoseconds in range.
abbrev pub nanos : Timespec → ℕ
nanos t = t.tv_sec * 1000000000 + t.tv_nsec

abbrev pub IsNormal : Timespec → Type 0
IsNormal t = t.tv_nsec < 1000000000

-- The timer never expires early: on a clock that is normal and does not run backwards, more than `s3_ms`
-- have passed when it reports expiry.
pub session_expired_late :
    (s : Session) (now : Timespec)
    → IsNormal now
    → IsNormal s.last_activity
    → nanos s.last_activity ≤ nanos now
    → session_expired (some s) now ≡ true
    → nanos s.last_activity + s.cfg.s3_ms * 1000000 < nanos now
unfolding session_expired
session_expired_late s now n m le h = ground arith

-- One millisecond after the timeout, on a normal clock, the timer has expired.
pub session_expired_due :
    (s : Session) (now : Timespec)
    → IsNormal now
    → IsNormal s.last_activity
    → nanos s.last_activity + (s.cfg.s3_ms + 1) * 1000000 ≤ nanos now
    → session_expired (some s) now ≡ true
unfolding session_expired
session_expired_due s now n m le = ground arith
