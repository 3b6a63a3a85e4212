-- ===== src/Ecu/Invariant.antt =====
-- The well-formed states of the simulated ECU in src/ecusim/ecusim.c, under single requests and under
-- sequences of them.
use uds.Base.{
  ℕ, ◌<◌, ◌≡◌, inl, inr, false, Option, none, some, List, [], ◌∷◌, drop, All, Option-cases, arith,
}
use uds.Security.Invariant as SecurityKept
use uds.Flash.{Flash, flash_erase, flash_write}
use uds.Flash.Ranges.{InDevice}
use uds.Transfer.{Xfer, request_download, write_block, transfer_data}
use uds.Transfer.Requests as XferStart
use uds.Transfer.Invariant as XferKept
use uds.Ecu.{
  Ecu, Request, Service, session_control, tester_presence, security_access, read_data, write_data,
  reset_ecu, communication_control, clear_dtcs, read_dtcs, download, upload, transfer,
  exit_transfer, service_of, handle, dispatch, req_byte,
}

-- The sub-states are well-formed, and the flash regions lie in the device.
pub record IsValid (ecu : Ecu) : Type 0 where
  pub security : SecurityKept.IsValid ecu.security
  pub xfer : XferStart.IsValid ecu.flash.regions ecu.xfer
  pub device : All InDevice ecu.flash.regions

-- The bytes of a request are bytes.
pub record IsRequest (q : Request) : Type 0 where
  pub byte : (i : ℕ) → req_byte q i < 256

pub regions-request_download :
    (x : Xfer) (flash : Flash) (fmt : ℕ) (bytes : List ℕ) (resp_size : ℕ)
    → (request_download false x flash fmt bytes resp_size).2.regions ≡ flash.regions
unfolding request_download flash_erase
regions-request_download x flash fmt bytes resp_size = ground arith

pub regions-transfer_data :
    (x : Xfer) (flash : Flash) (seq : ℕ) (bytes : Option (List ℕ)) (resp_size : ℕ)
    → (transfer_data false x flash seq bytes resp_size).2.regions ≡ flash.regions
unfolding transfer_data write_block flash_write
regions-transfer_data x flash seq none resp_size = ground arith
regions-transfer_data x flash seq (some bytes) resp_size = ground arith

handle-IsValid :
    (s : Service) (ecu : Ecu) (q : Request) → IsRequest q → IsValid ecu → IsValid (handle s ecu q).1
unfolding handle
handle-IsValid session_control ecu q b v = ground arith
handle-IsValid tester_presence ecu q b v = ground arith
handle-IsValid security_access ecu q b v = ground (
  arith,
  SecurityKept.request_seed-IsValid false ecu.security (req_byte q 1) q.resp_size q.now q.rand
      (b.byte 1) v.security,
  SecurityKept.send_key-IsValid false ecu.security (req_byte q 1) (drop 2 q.bytes) q.resp_size q.now
      (b.byte 1) v.security,
)
handle-IsValid read_data ecu q b v = ground arith
handle-IsValid write_data ecu q b v = ground arith
handle-IsValid reset_ecu ecu q b v = ground (arith, SecurityKept.security_init-IsValid)
handle-IsValid communication_control ecu q b v = ground arith
handle-IsValid clear_dtcs ecu q b v = ground arith
handle-IsValid read_dtcs ecu q b v = ground arith
handle-IsValid download ecu q b v =
    let e =
      regions-request_download ecu.xfer ecu.flash (req_byte q 2) (drop 3 q.bytes) q.resp_size in
    ground (
      arith,
      e,
      XferStart.request_download-IsValid false ecu.xfer ecu.flash (req_byte q 2) (drop 3 q.bytes)
          q.resp_size v.device v.xfer,
    )
handle-IsValid upload ecu q b v = ground (
  arith,
  XferStart.request_upload-IsValid false ecu.xfer ecu.flash (req_byte q 2) (drop 3 q.bytes)
      q.resp_size v.device v.xfer,
)
handle-IsValid transfer ecu q b v =
    let e =
      regions-transfer_data ecu.xfer ecu.flash (req_byte q 1) (some (drop 2 q.bytes)) q.resp_size in
    ground (
      arith,
      e,
      XferKept.transfer_data-IsValid false ecu.xfer ecu.flash (req_byte q 1) (some (drop 2 q.bytes))
          q.resp_size v.xfer,
    )
handle-IsValid exit_transfer ecu q b v =
    ground
      (arith, XferKept.transfer_exit-IsValid false ecu.flash.regions ecu.xfer q.resp_size v.xfer)

-- Whatever request of bytes a well-formed simulator gets, it stays well-formed: the security state and
-- the transfer session keep their invariants, and every flash region stays in the device.
pub dispatch-IsValid :
    (ecu : Ecu) (q : Request) → IsRequest q → IsValid ecu → IsValid (dispatch ecu q).1
unfolding dispatch
dispatch-IsValid ecu q b v = elim (Option-cases (service_of (req_byte q 0))) [
  | inl missing ↦ ground (arith, missing)
  | inr (s, known) ↦ ground (arith, known, handle-IsValid s ecu q b v)
]

-- The simulator after a sequence of requests.
unfoldable pub serve_all : List Request → Ecu → Ecu
serve_all [] ecu = ecu
serve_all (q ∷ queue) ecu = serve_all queue (dispatch ecu q).1

-- A well-formed simulator is well-formed after every sequence of requests made of bytes.
pub serve_all-IsValid :
    (queue : List Request) (ecu : Ecu)
    → All IsRequest queue
    → IsValid ecu
    → IsValid (serve_all queue ecu)
unfolding serve_all
serve_all-IsValid [] ecu b v = v
serve_all-IsValid (q ∷ queue) ecu b v =
    serve_all-IsValid queue (dispatch ecu q).1 b.1 (dispatch-IsValid ecu q b.0 v)
