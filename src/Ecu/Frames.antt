-- ===== src/Ecu/Frames.antt =====
-- The flash bytes outside the regions that may be written, over sequences of requests to
-- src/ecusim/ecusim.c.
use uds.Base.{
  ℕ, ◌+◌, ◌%◌, ◌^◌, ◌<◌, ◌≡◌, inl, inr, refl, sym, ◌∙◌, false, some, List, [], ◌∷◌, length, drop,
  All, Option-cases, arith, length-drop,
}
use uds.Flash.{Flash, flash_erase}
use mathlib.Core.Path.{subst}
use uds.Transfer.Requests.{regions-flash_erase, regions-flash_write}
use uds.Flash.Memory.{IsReadOnly, flash_erase-protects, flash_write-protects}
use uds.Transfer.{Xfer, request_download, write_block, transfer_data, parse_addr_len_fmt}
use uds.Ecu.{
  Ecu, Request, Service, session_control, tester_presence, security_access, read_data, write_data,
  reset_ecu, communication_control, clear_dtcs, read_dtcs, download, upload, transfer,
  exit_transfer, service_of, handle, dispatch, req_byte,
}
use uds.Ecu.Invariant.{serve_all}

-- The device keeps its regions and the byte at `a`.
abbrev Keeps : ℕ → Flash → Flash → Type 0
Keeps a flash flash' = (flash'.regions ≡ flash.regions) × (flash'.cells a ≡ flash.cells a)

flash_erase-Keeps :
    (flash : Flash) (address len a : ℕ)
    → IsReadOnly flash.regions a
    → Keeps a flash (flash_erase false flash address len).1
flash_erase-Keeps flash address len a ro =
    (regions-flash_erase flash address len, flash_erase-protects false flash address len a ro)

request_download-Keeps :
    (x : Xfer) (flash : Flash) (fmt : ℕ) (bytes : List ℕ) (size a : ℕ)
    → IsReadOnly flash.regions a
    → Keeps a flash (request_download false x flash fmt bytes size).2
unfolding request_download
request_download-Keeps x flash fmt bytes size a ro =
    elim (Option-cases (parse_addr_len_fmt fmt bytes)) [
      | inl bad ↦ ground (arith, bad)
      | inr ((address, len), good) ↦ ground (arith, good, flash_erase-Keeps flash address len a ro)
    ]

write_block-Keeps :
    (x : Xfer) (flash : Flash) (seq : ℕ) (bytes : List ℕ) (size a : ℕ)
    → length bytes < 2 ^ 32
    → IsReadOnly flash.regions a
    → Keeps a flash (write_block x flash seq (some bytes) size).2
unfolding write_block
write_block-Keeps x flash seq bytes size a small ro = ground (
  arith,
  regions-flash_write flash ((x.address + x.transferred) % 2 ^ 32) bytes,
  flash_write-protects false flash ((x.address + x.transferred) % 2 ^ 32) bytes a small ro,
)

transfer_data-Keeps :
    (x : Xfer) (flash : Flash) (seq : ℕ) (bytes : List ℕ) (size a : ℕ)
    → length bytes < 2 ^ 32
    → IsReadOnly flash.regions a
    → Keeps a flash (transfer_data false x flash seq (some bytes) size).2
unfolding transfer_data
transfer_data-Keeps x flash seq bytes size a small ro =
    ground (arith, write_block-Keeps x flash seq bytes size a small ro)

handle-Keeps :
    (s : Service) (ecu : Ecu) (q : Request) (a : ℕ)
    → length q.bytes < 2 ^ 32
    → IsReadOnly ecu.flash.regions a
    → Keeps a ecu.flash (handle s ecu q).1.flash
unfolding handle
handle-Keeps download ecu q a small ro = ground (
  arith,
  request_download-Keeps ecu.xfer ecu.flash (req_byte q 2) (drop 3 q.bytes) q.resp_size a ro,
)
handle-Keeps transfer ecu q a small ro = ground (
  arith,
  transfer_data-Keeps ecu.xfer ecu.flash (req_byte q 1) (drop 2 q.bytes) q.resp_size a
      (omega (arith, length-drop 2 q.bytes)) ro,
)
handle-Keeps security_access ecu q a small ro = ground arith
handle-Keeps reset_ecu ecu q a small ro = ground arith
handle-Keeps session_control ecu q a small ro = ground arith
handle-Keeps tester_presence ecu q a small ro = ground arith
handle-Keeps read_data ecu q a small ro = ground arith
handle-Keeps write_data ecu q a small ro = ground arith
handle-Keeps communication_control ecu q a small ro = ground arith
handle-Keeps clear_dtcs ecu q a small ro = ground arith
handle-Keeps read_dtcs ecu q a small ro = ground arith
handle-Keeps upload ecu q a small ro = ground arith
handle-Keeps exit_transfer ecu q a small ro = ground arith

dispatch-Keeps :
    (ecu : Ecu) (q : Request) (a : ℕ)
    → length q.bytes < 2 ^ 32
    → IsReadOnly ecu.flash.regions a
    → Keeps a ecu.flash (dispatch ecu q).1.flash
unfolding dispatch
dispatch-Keeps ecu q a small ro = elim (Option-cases (service_of (req_byte q 0))) [
  | inl missing ↦ ground (arith, missing)
  | inr (s, known) ↦ ground (arith, known, handle-Keeps s ecu q a small ro)
]

-- A request of fewer than 2^32 bytes.
abbrev pub IsShort : Request → Type 0
IsShort q = length q.bytes < 2 ^ 32

-- No sequence of requests, each shorter than 2^32 bytes, changes the flash regions, nor a flash byte
-- that lies outside every region that may be written.
pub serve_all-protects :
    (queue : List Request) (ecu : Ecu) (a : ℕ)
    → All IsShort queue
    → IsReadOnly ecu.flash.regions a
    → ((serve_all queue ecu).flash.regions ≡ ecu.flash.regions)
      × ((serve_all queue ecu).flash.cells a ≡ ecu.flash.cells a)
unfolding serve_all
serve_all-protects [] ecu a small ro = (refl, refl)
serve_all-protects (q ∷ queue) ecu a small ro =
    let (regions, cell) = dispatch-Keeps ecu q a small.0 ro in
    let rest =
      serve_all-protects queue (dispatch ecu q).1 a small.1
        (subst (λ r. IsReadOnly r a) (sym regions) ro) in
    (rest.0 ∙ regions, rest.1 ∙ cell)
