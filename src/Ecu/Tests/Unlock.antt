-- ===== src/Ecu/Tests/Unlock.antt =====
-- A new identification number for src/ecusim/ecusim.c in its initial state.
use uds.Base.{ℕ, ◌≡◌, refl, List, [], ◌∷◌, replicate, drop, arith}
use uds.Session.{session_code}
use uds.Security.{security_init, compute_key}
use uds.Security.Access.{IsLockedOut}
use uds.Ecu.{Request, dispatch}
use uds.Ecu.Defaults.{init, init-IsValid, vin_entry}
use uds.Ecu.Invariant.{serve_all}
use uds.Ecu.Unlock.{serve_all-unlocked}
use uds.Ecu.Tests.{ecu, now, request, vin_found, locked}

abbrev number : List ℕ
number = replicate 17 0x41

abbrev session : Request
session = request (0x10 ∷ 0x03 ∷ [])

abbrev asks : Request
asks = request (0x27 ∷ 0x01 ∷ [])

abbrev unlocks : Request
unlocks = request (0x27 ∷ 0x02 ∷ compute_key (drop 2 (dispatch (dispatch ecu session).1 asks).0))

abbrev writes : Request
writes = request (0x2E ∷ 0xF1 ∷ 0x90 ∷ number)

abbrev reads : Request
reads = request (0x22 ∷ 0xF1 ∷ 0x90 ∷ [])

free : ¬ IsLockedOut ecu.security now
unfolding init security_init
free l = ground (arith, l.locked)

serve_all-unlocked_example :
    (dispatch (serve_all (session ∷ asks ∷ unlocks ∷ writes ∷ []) ecu) reads).0
    ≡ 0x62 ∷ 0xF1 ∷ 0x90 ∷ number
unfolding session_code
serve_all-unlocked_example =
    serve_all-unlocked ecu session asks unlocks writes reads 0x03 0xF1 0x90 number vin_entry
      (refl, refl) (refl, refl) (refl, refl) (refl, refl) (refl, refl) (omega arith, omega arith)
      (omega arith, omega arith) free locked (omega arith) (init-IsValid 1 now).1 vin_found refl
      (omega arith) refl (omega arith) (omega arith)
