-- ===== src/Ecu/Tests/Firmware.antt =====
-- Four bytes programmed at 0x10 into the flash of src/ecusim/ecusim.c, in its initial state, over ISO-TP.
use uds.Ecu.{Request}
use uds.Ecu.Invariant.{serve_all}
use uds.Ecu.View.{responses}
use uds.Ecu.Readback.{readout, payloads, serve_all-readback}
use uds.Base.{
  drop, pad, ◌≤◌, ◌++◌, length, ℕ, ◌≡◌, refl, some, true, false, List, [], ◌∷◌, map, All, arith,
}
use uds.Can.{CanFrame, Bus, Arrival}
use uds.Flash.{address_valid, find_region, flash_init}
use uds.Flash.Ranges.{InDevice}
use uds.Tp.Due.{IsDue}
use uds.Transfer.{xfer_init, xfer_idle, parse_addr_len_fmt}
use uds.Transfer.Blocks.{IsOpen, joined}
use uds.Ecu.Defaults.{init}
use uds.Ecu.Run.{run}
use uds.Ecu.Dialogue.{Exchange, IsExchange}
use uds.Ecu.Programming.{Asks, transfers, programming, accepted, image}
use uds.Ecu.Firmware.{script, transcript, run-programming}
use uds.Ecu.Tests.{ecu, request, exchange, tester, running, small}

abbrev field : List ℕ
field = 0x10 ∷ 0x08 ∷ []

abbrev blocks : List (List ℕ)
blocks = (1 ∷ 2 ∷ 3 ∷ []) ∷ (4 ∷ []) ∷ []

abbrev steps : List Exchange
steps =
    exchange (0x34 ∷ 0x00 ∷ 0x11 ∷ field)
    ∷ exchange (0x36 ∷ 0x01 ∷ 1 ∷ 2 ∷ 3 ∷ [])
    ∷ exchange (0x36 ∷ 0x02 ∷ 4 ∷ [])
    ∷ exchange (0x37 ∷ [])
    ∷ []

abbrev granted : List (List ℕ)
granted = (0x74 ∷ 0x20 ∷ 0x00 ∷ 15 ∷ []) ∷ accepted 0x01 blocks

abbrev due : List (Arrival CanFrame)
due = script 0x601 tester (programming 0x00 0x11 field blocks) granted []

abbrev bus : Bus CanFrame
bus = record { is_open = true; arrivals = due; writes = []; sent = []; slept = [] }

steps-IsExchange : All IsExchange steps
steps-IsExchange = (
  record { some_bytes = omega arith; fits = omega arith; goes_on = refl },
  (
    record { some_bytes = omega arith; fits = omega arith; goes_on = refl },
    (
      record { some_bytes = omega arith; fits = omega arith; goes_on = refl },
      (record { some_bytes = omega arith; fits = omega arith; goes_on = refl }, tt),
    ),
  ),
)

regions-IsOpen : All IsOpen ecu.flash.regions
unfolding init flash_init
regions-IsOpen = ground arith

regions-InDevice : All InDevice ecu.flash.regions
unfolding init flash_init
regions-InDevice = ground arith

idle : ecu.xfer.mode ≡ xfer_idle
unfolding init xfer_init
idle = refl

parsed : parse_addr_len_fmt 0x11 field ≡ some (0x10, 8)
unfolding parse_addr_len_fmt
parsed = refl

valid : address_valid false ecu.flash 0x10 8 ≡ true
unfolding address_valid find_region init flash_init
valid = refl

size : length (joined blocks) ≤ 8
unfolding joined
size = omega arith

messages : map (λ x. x.message) steps ≡ programming 0x00 0x11 field blocks
unfolding transfers
messages = refl

run-programming_example :
    let (out, bus') = run (map (λ x. x.turn) steps) ecu bus in
    ((a : ℕ) → out.flash.cells a ≡ image 0x10 8 (joined blocks) ecu.flash.cells a)
    × (out.xfer ≡ xfer_init)
    × (bus'.sent ≡ [] ++ transcript ecu.resp_can_id (programming 0x00 0x11 field blocks) granted)
    × IsDue [] bus'
run-programming_example =
    run-programming steps ecu bus 0x601 tester [] 0x00 0x11 field blocks 0x10 8 messages
      steps-IsExchange running small idle regions-IsOpen regions-InDevice parsed valid
      (ground arith) size (record { works = refl; writable = refl; due = refl })

-- Requests with the bytes of the messages.
Asks-request : (messages : List (List ℕ)) → Asks (map request messages) messages
unfolding Asks
Asks-request [] = tt
Asks-request (m ∷ messages) = (refl, refl, Asks-request messages)

abbrev programs : List Request
programs = map request (programming 0x00 0x11 field blocks)

abbrev reads_back : List Request
reads_back = map request (readout 0x00 0x11 field 1)

serve_all-readback_example :
    payloads (drop 1 (responses reads_back (serve_all programs ecu))) ≡ pad 8 0xFF (joined blocks)
serve_all-readback_example =
    serve_all-readback ecu programs reads_back 0x00 0x00 0x11 field blocks 1 0x10 8
      (Asks-request (programming 0x00 0x11 field blocks)) (Asks-request (readout 0x00 0x11 field 1))
      idle regions-IsOpen regions-InDevice parsed valid (ground arith) size (omega arith)
      (omega arith)
