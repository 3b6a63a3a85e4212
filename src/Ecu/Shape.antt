-- ===== src/Ecu/Shape.antt =====
-- The responses of src/ecusim/ecusim.c: their first byte and their length.
use uds.Base.{
  ℕ, ◌+◌, ◌≤◌, ◌<◌, ◌≡◌, ◌⊎◌, inl, inr, refl, none, some, List, [], ◌∷◌, length, get_or, drop,
  Option-cases, Bool-cases, arith, ◌==◌,
}
use mathlib.Core.Path.{subst}
use uds.Core.{
  service_not_supported, Reply, positive, negative, err_param, err_buf, UdsNrc, nrc_code,
}
use uds.Session.{dsc, tester_present}
use uds.Data.{write_did, ecu_reset, comm_control}
use uds.Dtc.{clear_dtc}
use uds.Transfer.{transfer_exit}
use uds.Ecu.{
  respond, Ecu, Request, Service, session_control, tester_presence, security_access, read_data,
  write_data, reset_ecu, communication_control, clear_dtcs, read_dtcs, download, upload, transfer,
  exit_transfer, service_of, handle, dispatch, req_byte, req_len, did_list,
}
use uds.Ecu.Answers.{
  Answers, sid_of, service_of-sid_of, read_did-Answers, read_dtc-Answers, transfer_data-Answers,
  request_seed-Answers, send_key-Answers, request_download-Answers, request_upload-Answers,
}

handle-Answers :
    (s : Service) (ecu : Ecu) (q : Request)
    → ecu.xfer.max_block_size < 256
    → Answers (sid_of s) q.resp_size (handle s ecu q).0
unfolding handle dsc tester_present write_did ecu_reset comm_control clear_dtc transfer_exit
handle-Answers session_control ecu q small = ground arith
handle-Answers tester_presence ecu q small = ground arith
handle-Answers security_access ecu q small = ground (
  arith,
  request_seed-Answers ecu.security (req_byte q 1) q.resp_size q.now q.rand,
  send_key-Answers ecu.security (req_byte q 1) (drop 2 q.bytes) q.resp_size q.now,
)
handle-Answers read_data ecu q small =
    ground (arith, read_did-Answers ecu.dids (did_list (drop 1 q.bytes)) q.resp q.resp_size)
handle-Answers write_data ecu q small = ground arith
handle-Answers reset_ecu ecu q small = ground arith
handle-Answers communication_control ecu q small = ground arith
handle-Answers clear_dtcs ecu q small = ground arith
handle-Answers read_dtcs ecu q small = ground (
  arith,
  read_dtc-Answers ecu.dtcs (req_byte q 1) none q.resp_size,
  read_dtc-Answers ecu.dtcs (req_byte q 1) (some (drop 2 q.bytes)) q.resp_size,
)
handle-Answers download ecu q small =
    ground (
      arith,
      request_download-Answers ecu.xfer ecu.flash (req_byte q 2) (drop 3 q.bytes) q.resp_size,
    )
handle-Answers upload ecu q small =
    ground
      (arith, request_upload-Answers ecu.xfer ecu.flash (req_byte q 2) (drop 3 q.bytes) q.resp_size)
handle-Answers transfer ecu q small = ground (
  arith,
  transfer_data-Answers ecu.xfer ecu.flash (req_byte q 1) (drop 2 q.bytes) q.resp_size small,
)
handle-Answers exit_transfer ecu q small = ground arith

-- What a response to the service byte `sid` is.
abbrev pub IsResponse : ℕ → List ℕ → Type 0
IsResponse sid resp =
    (resp ≡ [])
    ⊎ ((nrc : UdsNrc) × (resp ≡ 0x7F ∷ sid ∷ nrc_code nrc ∷ []))
    ⊎ (get_or resp 0 0 ≡ sid + 0x40)

respond-IsResponse :
    (sid size : ℕ) (r : Reply)
    → Answers sid size r
    → 3 ≤ size
    → (length (respond sid r) ≤ size) × IsResponse sid (respond sid r)
respond-IsResponse sid size (positive []) a room = (a.1, inl refl)
respond-IsResponse sid size (positive (b ∷ bytes)) a room = (a.1, inr (inr a.0))
respond-IsResponse sid size (negative nrc) a room = (room, inr (inl (nrc, refl)))
respond-IsResponse sid size err_param a room = (omega arith, inl refl)
respond-IsResponse sid size err_buf a room = (omega arith, inl refl)

-- Every response fits the response buffer, when it has room for three bytes, and is one of three: it
-- is empty, or it is the negative response 0x7F with the service byte of the request and a response
-- code, or it starts with the service byte plus 0x40. The transfer session has a block size of a byte.
pub dispatch-IsResponse :
    (ecu : Ecu) (q : Request)
    → ecu.xfer.max_block_size < 256
    → 3 ≤ q.resp_size
    → let resp = (dispatch ecu q).0 in (length resp ≤ q.resp_size) × IsResponse (req_byte q 0) resp
unfolding dispatch
dispatch-IsResponse ecu q small room = elim (Bool-cases (req_len q == 0)) [
  | inl nothing ↦ rw nothing (omega arith, inl refl)
  | inr something ↦ elim (Option-cases (service_of (req_byte q 0))) [
    | inl missing ↦ rw (something, missing) (room, inr (inl (service_not_supported, refl)))
    | inr (s, known) ↦
        let same = service_of-sid_of (req_byte q 0) s known in
        rw (something, known)
          (respond-IsResponse (req_byte q 0) q.resp_size (handle s ecu q).0
            (subst (λ b. Answers b q.resp_size (handle s ecu q).0) same
              (handle-Answers s ecu q small))
            room)
  ]
]
