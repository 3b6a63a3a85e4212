-- ===== src/Ecu/Steady.antt =====
-- What no request to src/ecusim/ecusim.c changes: the loop goes on, and the block size of the transfer
-- session stays a byte.
use uds.Base.{ℕ, ◌<◌, ◌≡◌, inl, inr, false, some, List, drop, Option-cases, arith}
use uds.Flash.{Flash}
use uds.Transfer.{
  Xfer, request_download, request_upload, write_block, read_block, transfer_data, transfer_exit,
}
use uds.Ecu.{
  Ecu, Request, Service, session_control, tester_presence, security_access, read_data, write_data,
  reset_ecu, communication_control, clear_dtcs, read_dtcs, download, upload, transfer,
  exit_transfer, service_of, handle, dispatch, req_byte,
}

request_download-size :
    (x : Xfer) (flash : Flash) (fmt : ℕ) (bytes : List ℕ) (size : ℕ)
    → x.max_block_size < 256
    → (request_download false x flash fmt bytes size).1.max_block_size < 256
unfolding request_download
request_download-size x flash fmt bytes size small = ground arith

request_upload-size :
    (x : Xfer) (flash : Flash) (fmt : ℕ) (bytes : List ℕ) (size : ℕ)
    → x.max_block_size < 256
    → (request_upload false x flash fmt bytes size).1.max_block_size < 256
unfolding request_upload
request_upload-size x flash fmt bytes size small = ground arith

transfer_data-size :
    (x : Xfer) (flash : Flash) (seq : ℕ) (bytes : List ℕ) (size : ℕ)
    → x.max_block_size < 256
    → (transfer_data false x flash seq (some bytes) size).1.max_block_size < 256
unfolding transfer_data write_block read_block
transfer_data-size x flash seq bytes size small = ground arith

transfer_exit-size :
    (x : Xfer) (size : ℕ)
    → x.max_block_size < 256
    → (transfer_exit false x size).1.max_block_size < 256
unfolding transfer_exit
transfer_exit-size x size small = ground arith

handle-size :
    (s : Service) (ecu : Ecu) (q : Request)
    → ecu.xfer.max_block_size < 256
    → (handle s ecu q).1.xfer.max_block_size < 256
unfolding handle
handle-size download ecu q small = ground (
  arith,
  request_download-size ecu.xfer ecu.flash (req_byte q 2) (drop 3 q.bytes) q.resp_size small,
)
handle-size upload ecu q small = ground (
  arith,
  request_upload-size ecu.xfer ecu.flash (req_byte q 2) (drop 3 q.bytes) q.resp_size small,
)
handle-size transfer ecu q small =
    ground (
      arith,
      transfer_data-size ecu.xfer ecu.flash (req_byte q 1) (drop 2 q.bytes) q.resp_size small,
    )
handle-size exit_transfer ecu q small =
    ground (arith, transfer_exit-size ecu.xfer q.resp_size small)
handle-size security_access ecu q small = ground arith
handle-size reset_ecu ecu q small = ground arith
handle-size session_control ecu q small = ground arith
handle-size tester_presence ecu q small = ground arith
handle-size read_data ecu q small = ground arith
handle-size write_data ecu q small = ground arith
handle-size communication_control ecu q small = ground arith
handle-size clear_dtcs ecu q small = ground arith
handle-size read_dtcs ecu q small = ground arith

pub dispatch-size :
    (ecu : Ecu) (q : Request)
    → ecu.xfer.max_block_size < 256
    → (dispatch ecu q).1.xfer.max_block_size < 256
unfolding dispatch
dispatch-size ecu q small = elim (Option-cases (service_of (req_byte q 0))) [
  | inl missing ↦ ground (arith, missing)
  | inr (s, known) ↦ ground (arith, known, handle-size s ecu q small)
]

handle-running : (s : Service) (ecu : Ecu) (q : Request) → (handle s ecu q).1.running ≡ ecu.running
unfolding handle
handle-running session_control ecu q = ground arith
handle-running tester_presence ecu q = ground arith
handle-running security_access ecu q = ground arith
handle-running read_data ecu q = ground arith
handle-running write_data ecu q = ground arith
handle-running reset_ecu ecu q = ground arith
handle-running communication_control ecu q = ground arith
handle-running clear_dtcs ecu q = ground arith
handle-running read_dtcs ecu q = ground arith
handle-running download ecu q = ground arith
handle-running upload ecu q = ground arith
handle-running transfer ecu q = ground arith
handle-running exit_transfer ecu q = ground arith

-- No request stops the loop.
pub dispatch-running : (ecu : Ecu) (q : Request) → (dispatch ecu q).1.running ≡ ecu.running
unfolding dispatch
dispatch-running ecu q = elim (Option-cases (service_of (req_byte q 0))) [
  | inl missing ↦ ground (arith, missing)
  | inr (s, known) ↦ ground (arith, known, handle-running s ecu q)
]

handle-resp_can_id :
    (s : Service) (ecu : Ecu) (q : Request) → (handle s ecu q).1.resp_can_id ≡ ecu.resp_can_id
unfolding handle
handle-resp_can_id session_control ecu q = ground arith
handle-resp_can_id tester_presence ecu q = ground arith
handle-resp_can_id security_access ecu q = ground arith
handle-resp_can_id read_data ecu q = ground arith
handle-resp_can_id write_data ecu q = ground arith
handle-resp_can_id reset_ecu ecu q = ground arith
handle-resp_can_id communication_control ecu q = ground arith
handle-resp_can_id clear_dtcs ecu q = ground arith
handle-resp_can_id read_dtcs ecu q = ground arith
handle-resp_can_id download ecu q = ground arith
handle-resp_can_id upload ecu q = ground arith
handle-resp_can_id transfer ecu q = ground arith
handle-resp_can_id exit_transfer ecu q = ground arith

-- No request changes the identifier of the responses.
pub dispatch-resp_can_id :
    (ecu : Ecu) (q : Request) → (dispatch ecu q).1.resp_can_id ≡ ecu.resp_can_id
unfolding dispatch
dispatch-resp_can_id ecu q = elim (Option-cases (service_of (req_byte q 0))) [
  | inl missing ↦ ground (arith, missing)
  | inr (s, known) ↦ ground (arith, known, handle-resp_can_id s ecu q)
]
