-- ===== src/Ecu/Loop.antt =====
-- The body of the loop of ecusim_run in src/ecusim/ecusim.c: a request is received over ISO-TP,
-- dispatched, and the response is sent.
use uds.Base.{ℕ, List, length, ◌==◌, if◌then◌else◌}
use uds.Core.{Timespec}
use uds.Can.{CanFrame, Bus}
use uds.Tp.{tp_ok, tp_err, TpConfig}
use uds.Tp.Receive.{tp_recv}
use uds.Tp.Send.{tp_send}
use uds.Ecu.{Ecu, Request, dispatch}

abbrev max_pdu : ℕ
max_pdu = 4095

-- `tp_cfg`
abbrev pub tp_cfg : TpConfig
tp_cfg = record { timeout_ms = 100; block_size = 0; st_min = 0 }

-- The request that the loop hands to the dispatcher; `resp` is what the response buffer holds.
abbrev pub request_of : List ℕ → List ℕ → Timespec → (ℕ → ℕ) → Request
request_of bytes resp now rand = record {
  bytes = bytes;
  resp = resp;
  resp_size = max_pdu;
  now = now;
  rand = rand;
}

-- One turn of the loop.
unfoldable pub serve_next : Ecu → Bus CanFrame → List ℕ → Timespec → (ℕ → ℕ) → Ecu × Bus CanFrame
serve_next ecu bus resp now rand =
    let (r, bus') = tp_recv bus ecu.resp_can_id max_pdu tp_cfg in
    elim r [
      | tp_err e ↦ (ecu, bus')
      | tp_ok bytes ↦
          let (response, ecu') = dispatch ecu (request_of bytes resp now rand) in
          if length response == 0
          then (ecu', bus')
          else let (_, bus'') = tp_send bus' ecu'.resp_can_id response tp_cfg in (ecu', bus'')
    ]
