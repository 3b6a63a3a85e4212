-- ===== src/Ecu.antt =====
-- src/ecusim/ecusim.c and src/ecusim/ecusim.h: the simulated ECU, which dispatches a request to the services.
-- One clock value serves a request; `rand i` is what the i-th call of `rand()` returns meanwhile.
pub mod Services
pub mod Answers
pub mod Shape
pub mod Frames
pub mod Invariant
pub mod Guard
pub mod Reset
pub mod Defaults
pub mod Loop
pub mod Run
pub mod Socket
pub mod Steady
pub mod Modes
pub mod View
pub mod Programming
pub mod Readback
pub mod Firmware
pub mod Unlock
pub mod Dialogue
mod Tests
use uds.Base.{
  ℕ, zero, suc, ◌+◌, ◌-◌, ◌*◌, ◌/◌, ◌%◌, ◌^◌, bit_and, bit_or, Bool, true, false, not, ◌&&◌, ◌||◌,
  Option, none, some, List, [], ◌∷◌, ◌++◌, length, take, drop, get_or, ltb, ◌==◌, ◌!=◌,
  if◌then◌else◌,
}
use uds.Core.{
  Reply, positive, negative, err_param, err_buf, is_positive, UdsNrc, nrc_code,
  incorrect_msg_len_or_format, request_out_of_range, service_not_supported, Timespec,
}
use uds.Session.{Session, session_init, session_code, dsc, tester_present}
use uds.Security.{Security, security_init, seed_len, request_seed, send_key, is_unlocked}
use uds.Data.{DidEntry, read_did, write_did, ecu_reset, comm_control}
use uds.Dtc.{DtcEntry, clear_dtc, read_dtc}
use uds.Flash.{Flash}
use uds.Transfer.{Xfer, request_download, request_upload, transfer_data, transfer_exit}
pub use uds.Ecu.Services.{Ecu, Request, req_byte, req_len}
unfoldable pub use uds.Ecu.Services.{did_list}
use uds.Ecu.Services.{
  too_short, serve_key, serve_read, serve_write, serve_reset, serve_read_dtc, serve_download,
  serve_upload, serve_transfer, serve_exit, serve_session, serve_clear_dtcs,
}

-- The labels of the dispatcher's `switch`.
pub data Service : Type 0 where
  session_control tester_presence security_access read_data write_data reset_ecu : Service
  communication_control clear_dtcs read_dtcs download upload transfer exit_transfer : Service

unfoldable pub service_of : ℕ → Option Service
service_of sid =
    if sid == 0x10
    then some session_control
    else if sid == 0x3E
    then some tester_presence
    else if sid == 0x27
    then some security_access
    else if sid == 0x22
    then some read_data
    else if sid == 0x2E
    then some write_data
    else if sid == 0x11
    then some reset_ecu
    else if sid == 0x28
    then some communication_control
    else if sid == 0x14
    then some clear_dtcs
    else if sid == 0x19
    then some read_dtcs
    else if sid == 0x34
    then some download
    else if sid == 0x35
    then some upload
    else if sid == 0x36
    then some transfer
    else if sid == 0x37
    then some exit_transfer
    else none

-- The cases of the `switch` in `ecusim_dispatch`.
unfoldable pub handle : Service → Ecu → Request → Reply × Ecu
handle session_control ecu q = serve_session ecu q
handle tester_presence ecu q =
    if ltb (req_len q) 2
    then too_short ecu
    else let (r, s) = tester_present false ecu.session (req_byte q 1) q.resp_size q.now in
      (r, record ecu { session = s })
handle security_access ecu q =
    if ltb (req_len q) 2
    then too_short ecu
    else if bit_and (req_byte q 1) 0x01 != 0
    then (let (r, s) = request_seed false ecu.security (req_byte q 1) q.resp_size q.now q.rand in
        (r, record ecu { security = s }))
    else serve_key ecu q
handle read_data ecu q = serve_read ecu q
handle write_data ecu q = serve_write ecu q
handle reset_ecu ecu q = serve_reset ecu q
handle communication_control ecu q =
    if ltb (req_len q) 3
    then too_short ecu
    else (comm_control false (req_byte q 1) (req_byte q 2) q.resp_size, ecu)
handle clear_dtcs ecu q = serve_clear_dtcs ecu q
handle read_dtcs ecu q = serve_read_dtc ecu q
handle download ecu q = serve_download ecu q
handle upload ecu q = serve_upload ecu q
handle transfer ecu q = serve_transfer ecu q
handle exit_transfer ecu q = serve_exit ecu q

-- `build_nrc`
abbrev pub build_nrc : ℕ → UdsNrc → List ℕ
build_nrc sid nrc = 0x7F ∷ sid ∷ nrc_code nrc ∷ []

-- The bytes to send for the result of a service; none for an error that has no response code.
abbrev pub respond : ℕ → Reply → List ℕ
respond sid (positive bytes) = bytes
respond sid (negative nrc) = build_nrc sid nrc
respond sid err_param = []
respond sid err_buf = []

-- `ecusim_dispatch`: `resp[0 .. *resp_len)`, and the state.
unfoldable pub dispatch : Ecu → Request → List ℕ × Ecu
unfolding service_of
dispatch ecu q =
    if req_len q == 0
    then ([], ecu)
    else let sid : ℕ = req_byte q 0 in
      elim (service_of sid) [
        | none ↦ (build_nrc sid service_not_supported, ecu)
        | some s ↦ let (r, ecu') = handle s ecu q in (respond sid r, ecu')
      ]

-- `ecusim_stop`
unfoldable pub stop : Ecu → Ecu
stop ecu = record ecu { running = false }
