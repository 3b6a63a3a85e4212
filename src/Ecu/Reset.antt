-- ===== src/Ecu/Reset.antt =====
-- Service 0x11 and the return to the default session in src/ecusim/ecusim.c: what they do to the
-- security state.
use uds.Base.{ℕ, ◌≤◌, ◌≡◌, none, [], ◌∷◌, arith}
use uds.Session.{default_session, session_init, dsc}
use uds.Security.{security_init}
use uds.Data.{ecu_reset}
use uds.Ecu.{Ecu, Request, handle, dispatch}

-- A reset request of type 1, 2 or 3, with room for the response, is granted in every session, at every
-- security level and during a transfer, and leaves the default session with the initial security state,
-- with neither a lockout nor a count of failed keys. The rest of the simulator, with a transfer that is in
-- progress, is unchanged.
pub reset-clears_lockout :
    (ecu : Ecu) (q : Request) (reset_type : ℕ)
    → 1 ≤ reset_type
    → reset_type ≤ 3
    → q.bytes ≡ 0x11 ∷ reset_type ∷ []
    → 2 ≤ q.resp_size
    → dispatch ecu q ≡ (
      0x51 ∷ reset_type ∷ [],
      record ecu { session = session_init ecu.ecu_id none q.now; security = security_init },
    )
unfolding dispatch handle ecu_reset
reset-clears_lockout ecu q reset_type lo hi is_reset room = rw is_reset (ground arith)

-- A request for the default session, with room for the response, starts it in every session and clears
-- the level that the session keeps, and leaves the security state, with the level that guards writes,
-- as it is.
pub default_session-keeps_unlock :
    (ecu : Ecu) (q : Request)
    → q.bytes ≡ 0x10 ∷ 0x01 ∷ []
    → 6 ≤ q.resp_size
    → let ecu' = (dispatch ecu q).1 in
      (ecu'.session.type ≡ default_session)
      × (ecu'.session.security_level ≡ 0)
      × (ecu'.security ≡ ecu.security)
unfolding dispatch handle dsc
default_session-keeps_unlock ecu q is_default room = rw is_default (ground arith)
