-- ===== src/Ecu/Services.antt =====
-- src/ecusim/ecusim.h: the state of the simulated ECU, and src/ecusim/ecusim.c: the cases of the `switch` of
-- ecusim_dispatch that check a length or change the state.
use uds.Base.{
  ℕ, ◌+◌, ◌-◌, ◌*◌, ◌/◌, ◌%◌, ◌^◌, bit_or, Bool, false, ◌&&◌, ◌||◌, none, some, List, [], ◌∷◌,
  length, drop, get_or, ltb, ◌==◌, ◌!=◌, if◌then◌else◌,
}
use uds.Core.{
  Reply, negative, is_positive, incorrect_msg_len_or_format, request_out_of_range, Timespec,
}
use uds.Session.{Session, session_init, session_code, dsc}
use uds.Security.{Security, security_init, seed_len, send_key, is_unlocked}
use uds.Data.{DidEntry, read_did, write_did, ecu_reset}
use uds.Dtc.{DtcEntry, clear_dtc, read_dtc}
use uds.Flash.{Flash}
use uds.Transfer.{Xfer, request_download, request_upload, transfer_data, transfer_exit}

-- `EcuSimulator`, without the socket and the `verbose` flag.
pub record Ecu : Type 0 where
  pub ecu_id : ℕ
  pub req_can_id : ℕ
  pub resp_can_id : ℕ
  pub session : Session
  pub security : Security
  pub dids : List DidEntry
  pub dtcs : List DtcEntry
  pub flash : Flash
  pub xfer : Xfer
  pub running : Bool

-- A request as the dispatcher gets it: its bytes, what the response buffer holds and its capacity,
-- the clock, and the random numbers.
pub record Request : Type 0 where
  pub bytes : List ℕ
  pub resp : List ℕ
  pub resp_size : ℕ
  pub now : Timespec
  pub rand : ℕ → ℕ

abbrev pub req_byte : Request → ℕ → ℕ
req_byte q i = get_or q.bytes i 0

abbrev pub req_len : Request → ℕ
req_len q = length q.bytes

-- The request is shorter than its service needs.
abbrev pub too_short : Ecu → Reply × Ecu
too_short ecu = (negative incorrect_msg_len_or_format, ecu)

-- case 0x27, sendKey: the unlocked level is copied into the session.
abbrev pub serve_key : Ecu → Request → Reply × Ecu
serve_key ecu q =
    if ltb (req_len q) (2 + seed_len)
    then too_short ecu
    else let (r, s) =
        send_key false ecu.security (req_byte q 1) (drop 2 q.bytes) q.resp_size q.now in
      let session : Session =
        if is_positive r
        then record (ecu.session) { security_level = s.unlocked_level }
        else ecu.session in
      (r, record ecu { security = s; session = session })

-- The identifiers of a request 0x22.
unfoldable pub did_list : List ℕ → List ℕ
did_list [] = []
did_list (hi ∷ []) = []
did_list (hi ∷ lo ∷ bytes) = bit_or (hi * 2 ^ 8) lo ∷ did_list bytes

-- case 0x22
abbrev pub serve_read : Ecu → Request → Reply × Ecu
serve_read ecu q =
    if ltb (req_len q) 3 || (req_len q - 1) % 2 != 0
    then too_short ecu
    else if ltb 16 ((req_len q - 1) / 2)
    then (negative request_out_of_range, ecu)
    else (read_did false ecu.dids (did_list (drop 1 q.bytes)) q.resp q.resp_size, ecu)

-- case 0x2E
abbrev pub serve_write : Ecu → Request → Reply × Ecu
serve_write ecu q =
    if ltb (req_len q) 4
    then too_short ecu
    else let (r, dids) =
        write_did false ecu.dids (bit_or (req_byte q 1 * 2 ^ 8) (req_byte q 2)) (drop 3 q.bytes)
          (session_code ecu.session.type) (is_unlocked (some ecu.security) 0x01) q.resp_size in
      (r, record ecu { dids = dids })

-- case 0x11: a reset starts the default session and clears the security state.
abbrev pub serve_reset : Ecu → Request → Reply × Ecu
serve_reset ecu q =
    if ltb (req_len q) 2
    then too_short ecu
    else let r = ecu_reset false (req_byte q 1) q.resp_size in
      if is_positive r
      then (
        r,
        record ecu { session = session_init ecu.ecu_id none q.now; security = security_init },
      )
      else (r, ecu)

-- case 0x19
abbrev pub serve_read_dtc : Ecu → Request → Reply × Ecu
serve_read_dtc ecu q =
    if ltb (req_len q) 2
    then too_short ecu
    else if (req_byte q 1 == 0x01 || req_byte q 1 == 0x02) && ltb (req_len q) 3
    then too_short ecu
    else (
      read_dtc false ecu.dtcs (req_byte q 1)
          (if ltb 2 (req_len q) then some (drop 2 q.bytes) else none) q.resp_size,
      ecu,
    )

-- case 0x34
abbrev pub serve_download : Ecu → Request → Reply × Ecu
serve_download ecu q =
    if ltb (req_len q) 3
    then too_short ecu
    else let (r, x, flash) =
        request_download false ecu.xfer ecu.flash (req_byte q 2) (drop 3 q.bytes) q.resp_size in
      (r, record ecu { xfer = x; flash = flash })

-- case 0x35
abbrev pub serve_upload : Ecu → Request → Reply × Ecu
serve_upload ecu q =
    if ltb (req_len q) 3
    then too_short ecu
    else let (r, x) =
        request_upload false ecu.xfer ecu.flash (req_byte q 2) (drop 3 q.bytes) q.resp_size in
      (r, record ecu { xfer = x })

-- case 0x36
abbrev pub serve_transfer : Ecu → Request → Reply × Ecu
serve_transfer ecu q =
    if ltb (req_len q) 2
    then too_short ecu
    else let (r, x, flash) =
        transfer_data false ecu.xfer ecu.flash (req_byte q 1) (some (drop 2 q.bytes)) q.resp_size in
      (r, record ecu { xfer = x; flash = flash })

-- case 0x37
abbrev pub serve_exit : Ecu → Request → Reply × Ecu
serve_exit ecu q =
    let (r, x) = transfer_exit false ecu.xfer q.resp_size in (r, record ecu { xfer = x })

-- case 0x10
abbrev pub serve_session : Ecu → Request → Reply × Ecu
serve_session ecu q =
    if ltb (req_len q) 2
    then too_short ecu
    else let (r, s) = dsc false ecu.session (req_byte q 1) q.resp_size q.now in
      (r, record ecu { session = s })

-- case 0x14
abbrev pub serve_clear_dtcs : Ecu → Request → Reply × Ecu
serve_clear_dtcs ecu q =
    if ltb (req_len q) 4
    then too_short ecu
    else let group : ℕ =
        bit_or (bit_or (req_byte q 1 * 2 ^ 16) (req_byte q 2 * 2 ^ 8)) (req_byte q 3) in
      let (r, dtcs) = clear_dtc false ecu.dtcs group q.resp_size in (r, record ecu { dtcs = dtcs })
