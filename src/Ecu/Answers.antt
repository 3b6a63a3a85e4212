-- ===== src/Ecu/Answers.antt =====
-- The positive responses of the services that src/ecusim/ecusim.c dispatches to: first byte and length.
use uds.Base.{
  if◌then◌else◌, ℕ, ◌+◌, ◌%◌, ◌^◌, ◌≤◌, ◌<◌, ◌≡◌, inl, inr, refl, Bool, true, false, Option, some,
  List, [], ◌∷◌, ◌++◌, length, get_or, drop, Option-cases, Bool-cases, arith, ltb, length-append,
  length-take,
}
use uds.Core.{Timespec, byte_at, low_byte, Reply, positive, negative, err_param, err_buf}
use uds.Security.{Security, request_seed, send_key, check_locked, verify_key}
use uds.Data.{DidEntry, read_records, read_did, did_find, record_bytes}
use uds.Dtc.{DtcEntry, read_dtc, report_records, dtc_record, matches, mask_of}
use uds.Flash.{Flash, flash_read}
use uds.Flash.Memory.{length-peek}
use uds.Transfer.{
  remaining, Xfer, request_download, request_upload, write_block, read_block, transfer_data,
}
use uds.Ecu.{
  Service, session_control, tester_presence, security_access, read_data, write_data, reset_ecu,
  communication_control, clear_dtcs, read_dtcs, download, upload, transfer, exit_transfer,
  service_of,
}

-- The bytes of a positive reply.
abbrev pub answer : Reply → List ℕ
answer (positive bytes) = bytes
answer (negative nrc) = []
answer err_param = []
answer err_buf = []

-- A reply to the service with byte `sid` that fits a buffer of `size` bytes.
abbrev pub Answers : ℕ → ℕ → Reply → Type 0
Answers sid size r = (get_or (answer r) 0 (sid + 0x40) ≡ sid + 0x40) × (length (answer r) ≤ size)

-- The service byte of each case.
abbrev pub sid_of : Service → ℕ
sid_of session_control = 0x10
sid_of tester_presence = 0x3E
sid_of security_access = 0x27
sid_of read_data = 0x22
sid_of write_data = 0x2E
sid_of reset_ecu = 0x11
sid_of communication_control = 0x28
sid_of clear_dtcs = 0x14
sid_of read_dtcs = 0x19
sid_of download = 0x34
sid_of upload = 0x35
sid_of transfer = 0x36
sid_of exit_transfer = 0x37

pub service_of-sid_of : (b : ℕ) (s : Service) → service_of b ≡ some s → sid_of s ≡ b
unfolding service_of
service_of-sid_of b s h = ground (arith, h)

pub length-record_bytes :
    (resp : List ℕ) (pos : ℕ) (e : DidEntry) → length (record_bytes resp pos e) ≤ e.data_len
length-record_bytes resp pos e = elim (Option-cases e.buffer) [
  | inl missing ↦ ground (arith, missing, length-take e.data_len (drop pos resp))
  | inr (d, has) ↦ ground (arith, has, length-take e.data_len d)
]

-- `out` is what follows the first byte.
pub read_records-Answers :
    (reg : List DidEntry) (resp : List ℕ) (size : ℕ) (dids : List ℕ) (pos : ℕ) (out : List ℕ)
    → 1 + length out ≤ pos
    → pos ≤ size
    → Answers 0x22 size (read_records reg resp size dids pos (0x62 ∷ out))
unfolding read_records
read_records-Answers reg resp size [] pos out le fits = ground arith
read_records-Answers reg resp size (did ∷ dids) pos out le fits =
    elim (Option-cases (did_find reg did)) [
      | inl missing ↦ ground (arith, missing)
      | inr (e, found) ↦
          let more = byte_at did 8 ∷ low_byte did ∷ record_bytes resp (pos + 2) e in
          let room = length-record_bytes resp (pos + 2) e in
          elim (Bool-cases (ltb size (pos + (2 + e.data_len)))) [
            | inl full ↦ ground (arith, found, full)
            | inr spare ↦
                let rest =
                  read_records-Answers reg resp size dids (pos + (2 + e.data_len)) (out ++ more)
                    (omega (arith, length-append out more, room)) (ground (arith, spare)) in
                ground (arith, found, spare, rest)
          ]
    ]

pub read_did-Answers :
    (reg : List DidEntry) (dids resp : List ℕ) (size : ℕ)
    → Answers 0x22 size (read_did false reg dids resp size)
unfolding read_did
read_did-Answers reg dids resp size = elim (Bool-cases (ltb size 1)) [
  | inl full ↦ ground (arith, full)
  | inr spare ↦ ground (
    arith,
    spare,
    read_records-Answers reg resp size dids 1 [] (omega arith) (ground (arith, spare)),
  )
]

pub report_records-Answers :
    (listed : DtcEntry → Bool) (reg : List DtcEntry) (size pos : ℕ) (out : List ℕ)
    → 1 + length out ≡ pos
    → pos ≤ size
    → Answers 0x19 size (report_records listed reg size pos (0x59 ∷ out))
unfolding report_records
report_records-Answers listed [] size pos out le fits = ground arith
report_records-Answers listed (e ∷ reg) size pos out le fits = elim (Bool-cases (listed e)) [
  | inr skip ↦ ground (arith, skip, report_records-Answers listed reg size pos out le fits)
  | inl hit ↦ elim (Bool-cases (ltb size (pos + 4))) [
    | inl full ↦ ground (arith, hit, full)
    | inr spare ↦
        let rest =
          report_records-Answers listed reg size (pos + 4) (out ++ dtc_record e)
            (omega (arith, length-append out (dtc_record e))) (ground (arith, spare)) in
        ground (arith, hit, spare, rest)
  ]
]

pub read_dtc-Answers :
    (reg : List DtcEntry) (sub_fn : ℕ) (more : Option (List ℕ)) (size : ℕ)
    → Answers 0x19 size (read_dtc false reg sub_fn more size)
unfolding read_dtc
read_dtc-Answers reg sub_fn more size = elim (Bool-cases (ltb size 3)) [
  | inl full ↦ ground (arith, full)
  | inr spare ↦ ground (
    arith,
    spare,
    report_records-Answers (matches (mask_of more)) reg size 3 (0x02 ∷ mask_of more ∷ []) refl
        (ground (arith, spare)),
    report_records-Answers (λ e. true) reg size 3 (0x0A ∷ 0xFF ∷ []) refl (ground (arith, spare)),
  )
]

pub read_block-Answers :
    (x : Xfer) (flash : Flash) (seq size : ℕ)
    → x.max_block_size < 256
    → Answers 0x36 size (read_block x flash seq size).0
unfolding read_block flash_read
read_block-Answers x flash seq size small = ground (
  arith,
  length-peek flash.cells ((x.address + x.transferred) % 2 ^ 32)
      (if ltb (remaining x) x.max_block_size then remaining x else x.max_block_size),
)

pub transfer_data-Answers :
    (x : Xfer) (flash : Flash) (seq : ℕ) (bytes : List ℕ) (size : ℕ)
    → x.max_block_size < 256
    → Answers 0x36 size (transfer_data false x flash seq (some bytes) size).0
unfolding transfer_data write_block
transfer_data-Answers x flash seq bytes size small =
    ground (arith, read_block-Answers x flash seq size small)

pub request_seed-Answers :
    (s : Security) (sub_fn size : ℕ) (now : Timespec) (rand : ℕ → ℕ)
    → Answers 0x27 size (request_seed false s sub_fn size now rand).0
unfolding request_seed
request_seed-Answers s sub_fn size now rand = ground arith

pub send_key-Answers :
    (s : Security) (sub_fn : ℕ) (key : List ℕ) (size : ℕ) (now : Timespec)
    → Answers 0x27 size (send_key false s sub_fn key size now).0
unfolding send_key check_locked verify_key
send_key-Answers s sub_fn key size now = ground arith

pub request_download-Answers :
    (x : Xfer) (flash : Flash) (fmt : ℕ) (bytes : List ℕ) (size : ℕ)
    → Answers 0x34 size (request_download false x flash fmt bytes size).0
unfolding request_download
request_download-Answers x flash fmt bytes size = ground arith

pub request_upload-Answers :
    (x : Xfer) (flash : Flash) (fmt : ℕ) (bytes : List ℕ) (size : ℕ)
    → Answers 0x35 size (request_upload false x flash fmt bytes size).0
unfolding request_upload
request_upload-Answers x flash fmt bytes size = ground arith
