-- ===== src/Ecu/Defaults.antt =====
-- src/ecusim/ecusim.c: the state after ecusim_init, with the identifiers and trouble codes of
-- ecusim_populate_defaults.
use uds.Base.{
  ℕ, ◌*◌, ◌≤◌, ◌≡◌, refl, Bool, true, false, Option, none, some, List, [], ◌∷◌, length, pad, bit_or,
  replicate, All, arith,
}
use uds.Core.{Timespec}
use uds.Can.{req_id, resp_id}
use uds.Session.{session_init, session_code, default_session, extended_session}
use uds.Security.{security_init}
use uds.Security.Invariant as SecurityKept
use uds.Data.{DidEntry, did_find, read_did, read_records}
use uds.Data.Registry.{IsFull}
use uds.Dtc.{DtcEntry}
use uds.Flash.{flash_init}
use uds.Transfer.{xfer_init}
use uds.Transfer.Requests as XferStart
use uds.Ecu.{Ecu, Request, dispatch, handle, did_list}
use uds.Ecu.Invariant.{IsValid, serve_all}
use uds.Ecu.Guard.{SendsNoKey, serve_all-guards}

-- A buffer `did_data[idx]` of 32 bytes that starts with `bytes`.
abbrev did_data : List ℕ → Option (List ℕ)
did_data bytes = some (pad 32 0 bytes)

-- An entry that is read in the default session and written in the extended one.
abbrev did_entry : ℕ → List ℕ → Bool → Bool → DidEntry
did_entry did_id bytes writable requires_security = record {
  did_id = did_id;
  buffer = did_data bytes;
  data_len = length bytes;
  writable = writable;
  min_session = session_code default_session;
  min_write_session = session_code extended_session;
  requires_security = requires_security;
}

-- "UDS-SIM-0001"
abbrev ecu_part : List ℕ
ecu_part = 85 ∷ 68 ∷ 83 ∷ 45 ∷ 83 ∷ 73 ∷ 77 ∷ 45 ∷ 48 ∷ 48 ∷ 48 ∷ 49 ∷ []

-- "HW-1.0"
abbrev hw_version : List ℕ
hw_version = 72 ∷ 87 ∷ 45 ∷ 49 ∷ 46 ∷ 48 ∷ []

-- "SW-1.0.0"
abbrev sw_version : List ℕ
sw_version = 83 ∷ 87 ∷ 45 ∷ 49 ∷ 46 ∷ 48 ∷ 46 ∷ 48 ∷ []

-- "1HGCM82633A123456"
abbrev pub vin : List ℕ
vin = 49 ∷ 72 ∷ 71 ∷ 67 ∷ 77 ∷ 56 ∷ 50 ∷ 54 ∷ 51 ∷ 51 ∷ 65 ∷ 49 ∷ 50 ∷ 51 ∷ 52 ∷ 53 ∷ 54 ∷ []

abbrev odometer : List ℕ
odometer = 0x00 ∷ 0x00 ∷ 0x12 ∷ 0x34 ∷ []

abbrev pub vin_entry : DidEntry
vin_entry = did_entry 0xF190 vin true true

-- The identifiers of `ecusim_populate_defaults`.
abbrev pub default_dids : List DidEntry
default_dids =
    did_entry 0xF187 ecu_part true false
    ∷ did_entry 0xF191 hw_version false false
    ∷ did_entry 0xF189 sw_version false false
    ∷ vin_entry
    ∷ did_entry 0x0101 odometer true false
    ∷ []

-- A trouble code with a snapshot buffer that is cleared.
abbrev dtc_entry : ℕ → ℕ → DtcEntry
dtc_entry dtc_code status = record {
  dtc_code = dtc_code;
  status = status;
  snapshot_data = replicate 16 0;
  snapshot_len = 0;
}

-- The trouble codes of `ecusim_populate_defaults`: confirmed and failed since the last clear, and
-- pending.
abbrev pub default_dtcs : List DtcEntry
default_dtcs = dtc_entry 0x010001 (bit_or 0x08 0x20) ∷ dtc_entry 0x010002 0x04 ∷ []

-- The state part of `ecusim_init`; the clock is read at `now`.
unfoldable pub init : ℕ → Timespec → Ecu
init ecu_id now = record {
  ecu_id = ecu_id;
  req_can_id = req_id ecu_id;
  resp_can_id = resp_id ecu_id;
  session = session_init ecu_id none now;
  security = security_init;
  dids = default_dids;
  dtcs = default_dtcs;
  flash = flash_init (record { base_address = 0; size = 256 * 1024; protected = false } ∷ []);
  xfer = xfer_init;
  running = true;
}

-- The simulator starts well-formed, and every identifier has a buffer that holds its value.
pub init-IsValid :
    (ecu_id : ℕ) (now : Timespec) → IsValid (init ecu_id now) × All IsFull (init ecu_id now).dids
unfolding init flash_init
init-IsValid ecu_id now = (
  record {
    security = SecurityKept.security_init-IsValid;
    xfer = XferStart.xfer_init-IsValid _;
    device = ground arith;
  },
  ground arith,
)

-- The request 0x22 0xF1 0x90 in whatever state keeps the entry of the identification number.
read_vin :
    (ecu : Ecu) (q : Request)
    → did_find ecu.dids 0xF190 ≡ some vin_entry
    → q.bytes ≡ 0x22 ∷ 0xF1 ∷ 0x90 ∷ []
    → 20 ≤ q.resp_size
    → (dispatch ecu q).0 ≡ 0x62 ∷ 0xF1 ∷ 0x90 ∷ vin
unfolding dispatch handle did_list read_did read_records
read_vin ecu q found is_read room = ground (arith, found, is_read)

-- From the start on, whatever requests of bytes the simulator gets that do not send the key of level
-- 1, it still answers a request to read the identification number, with room for the response, with
-- the one it was built with.
pub vin-guarded :
    (ecu_id : ℕ) (now : Timespec) (queue : List Request) (q : Request)
    → All SendsNoKey queue
    → q.bytes ≡ 0x22 ∷ 0xF1 ∷ 0x90 ∷ []
    → 20 ≤ q.resp_size
    → (dispatch (serve_all queue (init ecu_id now)) q).0 ≡ 0x62 ∷ 0xF1 ∷ 0x90 ∷ vin
unfolding init did_find security_init
vin-guarded ecu_id now queue q no_key is_read room =
    read_vin (serve_all queue (init ecu_id now)) q
      (serve_all-guards queue (init ecu_id now) 0xF190 vin_entry no_key (omega arith) refl refl)
      is_read room
