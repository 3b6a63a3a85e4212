-- ===== src/Ecu/Tests.antt =====
-- The simulator of src/ecusim/ecusim.c from its initial state.
mod Firmware
mod Unlock
use uds.Base.{
  ℕ, ◌≤◌, ◌<◌, ◌≡◌, ◌≢◌, refl, true, false, none, some, List, [], ◌∷◌, ◌++◌, map, length, All,
  arith,
}
use uds.Core.{Timespec}
use uds.Session.{session_init}
use uds.Security.{security_init}
use uds.Data.{DidEntry, did_find}
use uds.Data.View.{SameLookups-shadowed}
use uds.Ecu.Modes.{KeepsSession, serve_all-session}
use uds.Ecu.View.{responses, with_dids, responses-same}
use uds.Flash.{flash_init}
use uds.Flash.Memory.{IsReadOnly}
use uds.Can.{CanFrame, Bus, reads}
use uds.Can.Socket.{System, CanSocket, release, can_open, can_close}
use uds.Tp.Frame.{fc_frame, classic-IsLink}
use uds.Tp.Segments.{segment, arriving, cf_frames}
use uds.Tp.{TpConfig}
use uds.Tp.Due.{IsDue}
use uds.Tp.Reception.{Whole}
use uds.Transfer.{xfer_init}
use uds.Ecu.{Ecu, Request, dispatch}
use uds.Ecu.Defaults.{init, init-IsValid, vin_entry}
use uds.Ecu.Guard.{SendsNoKey, serve_all-guards}
use uds.Ecu.Invariant.{IsValid, serve_all}
use uds.Ecu.Loop.{request_of}
use uds.Ecu.Dialogue.{Exchange, IsExchange, asks, asked, answered, run-answers}
use uds.Ecu.Run.{Turn, run, Serves, run-serve_all, run-protects, run-IsValid}
use uds.Ecu.Reset.{reset-clears_lockout}
use uds.Ecu.Socket.{init_socket, install_filter, cleanup}
use uds.Ecu.Shape.{IsResponse, dispatch-IsResponse}

abbrev pub now : Timespec
now = record { tv_sec = 100; tv_nsec = 0 }

abbrev pub ecu : Ecu
ecu = init 1 now

abbrev pub request : List ℕ → Request
request bytes = request_of bytes [] now (λ i. i)

-- 0x10 0x03, and then a write of the identification number.
abbrev writes : List Request
writes = request (0x10 ∷ 0x03 ∷ []) ∷ request (0x2E ∷ 0xF1 ∷ 0x90 ∷ 0x00 ∷ []) ∷ []

pub small : ecu.xfer.max_block_size < 256
unfolding init xfer_init
small = omega arith

outside : IsReadOnly ecu.flash.regions 0x50000
unfolding init flash_init
outside = ground arith

pub vin_found : did_find ecu.dids 0xF190 ≡ some vin_entry
unfolding init did_find
vin_found = refl

pub locked : ecu.security.unlocked_level ≢ 1
unfolding init security_init
locked = omega arith

no_key : All SendsNoKey writes
no_key = ground arith

serve_all-guards_example : did_find (serve_all writes ecu).dids 0xF190 ≡ some vin_entry
serve_all-guards_example = serve_all-guards writes ecu 0xF190 vin_entry no_key locked vin_found refl

dispatch-IsResponse_example :
    let resp = (dispatch ecu (request (0x3E ∷ 0x00 ∷ []))).0 in
    (length resp ≤ 4095) × IsResponse 0x3E resp
dispatch-IsResponse_example =
    dispatch-IsResponse ecu (request (0x3E ∷ 0x00 ∷ [])) small (omega arith)

reset-clears_lockout_example : dispatch ecu (request (0x11 ∷ 0x01 ∷ [])) ≡ (
  0x51 ∷ 0x01 ∷ [],
  record ecu { session = session_init ecu.ecu_id none now; security = security_init },
)
reset-clears_lockout_example =
    reset-clears_lockout ecu (request (0x11 ∷ 0x01 ∷ [])) 1 (omega arith) (omega arith) refl
      (omega arith)

abbrev present : List ℕ
present = 0x3E ∷ 0x00 ∷ []

abbrev bus : Bus CanFrame
bus = record {
  is_open = true;
  arrivals = arriving 16 (segment 0x601 present) ++ (reads 16 (fc_frame 0x601 0 0 0) ∷ []);
  writes = [];
  sent = [];
  slept = [];
}

-- The loop is stopped in the second turn.
abbrev turns : List Turn
turns =
    record { resp = []; now = now; rand = λ i. i; stops = false }
    ∷ record { resp = []; now = now; rand = λ i. i; stops = true }
    ∷ []

whole : Whole classic-IsLink bus.arrivals
unfolding segment cf_frames
whole = ((refl, omega arith), ((refl, omega arith), tt))

run-serve_all_example : Serves 2 ecu (run turns ecu bus).0
run-serve_all_example = run-serve_all turns ecu bus whole

run-protects_example :
    let flash = (run turns ecu bus).0.flash in
    (flash.regions ≡ ecu.flash.regions) × (flash.cells 0x50000 ≡ ecu.flash.cells 0x50000)
run-protects_example = run-protects turns ecu bus 0x50000 whole outside

abbrev pub exchange : List ℕ → Exchange
exchange message = record {
  message = message;
  turn = record { resp = []; now = now; rand = λ i. i; stops = false };
}

-- TesterPresent, and a read of the identification number, whose response takes three frames.
abbrev exchanges : List Exchange
exchanges = exchange present ∷ exchange (0x22 ∷ 0xF1 ∷ 0x90 ∷ []) ∷ []

-- The tester grants the frames of a response one at a time.
abbrev pub tester : TpConfig
tester = record { timeout_ms = 1000; block_size = 1; st_min = 5 }

abbrev dialogue : Bus CanFrame
dialogue = record {
  is_open = true;
  arrivals = asked 0x601 tester exchanges ecu [];
  writes = [];
  sent = [];
  slept = [];
}

exchanges-IsExchange : All IsExchange exchanges
exchanges-IsExchange = (
  record { some_bytes = omega arith; fits = omega arith; goes_on = refl },
  (record { some_bytes = omega arith; fits = omega arith; goes_on = refl }, tt),
)

pub running : ecu.running ≡ true
unfolding init
running = refl

run-answers_example :
    let (out, bus') = run (map (λ x. x.turn) exchanges) ecu dialogue in
    (out ≡ serve_all (map asks exchanges) ecu)
    × (bus'.sent ≡ answered exchanges ecu)
    × IsDue [] bus'
run-answers_example =
    run-answers exchanges ecu dialogue 0x601 tester [] exchanges-IsExchange running small
      (record { works = refl; writable = refl; due = refl })

abbrev system : System
system = record { socket = some 3; ifindex = 2; binds = true; sets_option = true }

abbrev closed : CanSocket
closed = record { fd = none; open_fds = 0 ∷ []; filters = none; fd_frames = false }

-- "vcan0"
abbrev vcan0 : List ℕ
vcan0 = 118 ∷ 99 ∷ 97 ∷ 110 ∷ 48 ∷ []

-- Without a name of the interface, ecusim_cleanup closes descriptor 0.
unnamed : (cleanup (init_socket 0x601 [] system closed).1).open_fds ≡ []
unfolding init_socket install_filter can_open can_close cleanup release
unnamed = refl

run-IsValid_example : IsValid (run turns ecu bus).0
run-IsValid_example = run-IsValid turns ecu bus whole (init-IsValid 1 now).0

abbrev listens : List Request
listens = request (0x3E ∷ 0x00 ∷ []) ∷ request (0x22 ∷ 0xF1 ∷ 0x90 ∷ []) ∷ []

kept : All KeepsSession listens
kept = ((omega arith, omega arith), ((omega arith, omega arith), tt))

serve_all-session_example : (serve_all listens ecu).session.type ≡ ecu.session.type
serve_all-session_example = serve_all-session listens ecu kept

abbrev shadow : DidEntry
shadow = record vin_entry { requires_security = false }

responses-same_example :
    responses writes ecu ≡ responses writes (with_dids ecu (ecu.dids ++ (shadow ∷ [])))
responses-same_example =
    responses-same writes ecu (ecu.dids ++ (shadow ∷ []))
      (SameLookups-shadowed ecu.dids shadow vin_entry vin_found)
