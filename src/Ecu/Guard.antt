-- ===== src/Ecu/Guard.antt =====
-- The data that the security level guards, over any sequence of requests to src/ecusim/ecusim.c.
use uds.Base.{
  ℕ, ◌*◌, ◌^◌, ◌<◌, ◌≡◌, ◌≢◌, inl, inr, sym, true, false, some, List, [], ◌∷◌, drop, All,
  Option-cases, Bool-cases, arith, bit_or,
}
use uds.Core.{Timespec, is_positive}
use uds.Session.{session_code}
use uds.Security.{
  Security, security_init, request_seed, send_key, is_unlocked, check_locked, verify_key,
}
use uds.Data.{DidEntry, did_find, write_did}
use uds.Data.Write.{write_did-granted_iff, write_did-effect}
use uds.Ecu.{
  Ecu, Request, Service, session_control, tester_presence, security_access, read_data, write_data,
  reset_ecu, communication_control, clear_dtcs, read_dtcs, download, upload, transfer,
  exit_transfer, service_of, handle, dispatch, req_byte,
}
use uds.Ecu.Invariant.{IsRequest, serve_all}
use uds.Ecu.Answers.{sid_of, service_of-sid_of}

-- A request of bytes that does not send the key of level 1.
pub record SendsNoKey (q : Request) : Type 0 where
  pub bytes : IsRequest q
  pub other : req_byte q 0 ≡ 0x27 → req_byte q 1 ≢ 0x02

request_seed-level :
    (s : Security) (sub_fn size : ℕ) (now : Timespec) (rand : ℕ → ℕ)
    → (request_seed false s sub_fn size now rand).1.unlocked_level ≡ s.unlocked_level
unfolding request_seed
request_seed-level s sub_fn size now rand = ground arith

send_key-level :
    (s : Security) (sub_fn : ℕ) (key : List ℕ) (size : ℕ) (now : Timespec)
    → sub_fn < 256
    → sub_fn ≢ 0x02
    → s.unlocked_level ≢ 1
    → (send_key false s sub_fn key size now).1.unlocked_level ≢ 1
unfolding send_key check_locked verify_key
send_key-level s sub_fn key size now byte other locked = ground arith

handle-locked :
    (s : Service) (ecu : Ecu) (q : Request)
    → SendsNoKey q
    → sid_of s ≡ req_byte q 0
    → ecu.security.unlocked_level ≢ 1
    → (handle s ecu q).1.security.unlocked_level ≢ 1
unfolding handle security_init
handle-locked security_access ecu q b sid locked = ground (
  arith,
  b.bytes.byte 1,
  b.other (sym sid),
  request_seed-level ecu.security (req_byte q 1) q.resp_size q.now q.rand,
  send_key-level ecu.security (req_byte q 1) (drop 2 q.bytes) q.resp_size q.now (b.bytes.byte 1)
      (b.other (sym sid)) locked,
)
handle-locked reset_ecu ecu q b sid locked = ground arith
handle-locked session_control ecu q b sid locked = ground arith
handle-locked tester_presence ecu q b sid locked = ground arith
handle-locked read_data ecu q b sid locked = ground arith
handle-locked write_data ecu q b sid locked = ground arith
handle-locked communication_control ecu q b sid locked = ground arith
handle-locked clear_dtcs ecu q b sid locked = ground arith
handle-locked read_dtcs ecu q b sid locked = ground arith
handle-locked download ecu q b sid locked = ground arith
handle-locked upload ecu q b sid locked = ground arith
handle-locked transfer ecu q b sid locked = ground arith
handle-locked exit_transfer ecu q b sid locked = ground arith

-- A write leaves a guarded entry alone while level 1 is locked.
write_did-guards :
    (reg : List DidEntry) (did k : ℕ) (bytes : List ℕ) (session_type : ℕ) (size : ℕ) (e : DidEntry)
    → did_find reg k ≡ some e
    → e.requires_security ≡ true
    → did_find (write_did false reg did bytes session_type false size).1 k ≡ some e
write_did-guards reg did k bytes session_type size e found guarded =
    elim (Bool-cases (is_positive (write_did false reg did bytes session_type false size).0)) [
      | inl granted ↦
          let (may, _) = (write_did-granted_iff reg did bytes session_type false size).0 granted in
          ground
            (arith, granted, may, write_did-effect false reg did bytes session_type false size k)
      | inr refused ↦
          ground
            (arith, refused, found, write_did-effect false reg did bytes session_type false size k)
    ]

handle-guards :
    (s : Service) (ecu : Ecu) (q : Request) (k : ℕ) (e : DidEntry)
    → ecu.security.unlocked_level ≢ 1
    → did_find ecu.dids k ≡ some e
    → e.requires_security ≡ true
    → did_find (handle s ecu q).1.dids k ≡ some e
unfolding handle is_unlocked
handle-guards write_data ecu q k e locked found guarded =
    let closed : is_unlocked (some ecu.security) 0x01 ≡ false = ground arith in
    ground (
      arith,
      closed,
      write_did-guards ecu.dids (bit_or (req_byte q 1 * 2 ^ 8) (req_byte q 2)) k (drop 3 q.bytes)
          (session_code ecu.session.type) q.resp_size e found guarded,
    )
handle-guards security_access ecu q k e locked found guarded = ground arith
handle-guards reset_ecu ecu q k e locked found guarded = ground arith
handle-guards session_control ecu q k e locked found guarded = ground arith
handle-guards tester_presence ecu q k e locked found guarded = ground arith
handle-guards read_data ecu q k e locked found guarded = ground arith
handle-guards communication_control ecu q k e locked found guarded = ground arith
handle-guards clear_dtcs ecu q k e locked found guarded = ground arith
handle-guards read_dtcs ecu q k e locked found guarded = ground arith
handle-guards download ecu q k e locked found guarded = ground arith
handle-guards upload ecu q k e locked found guarded = ground arith
handle-guards transfer ecu q k e locked found guarded = ground arith
handle-guards exit_transfer ecu q k e locked found guarded = ground arith

dispatch-guards :
    (ecu : Ecu) (q : Request) (k : ℕ) (e : DidEntry)
    → SendsNoKey q
    → ecu.security.unlocked_level ≢ 1
    → did_find ecu.dids k ≡ some e
    → e.requires_security ≡ true
    → ((dispatch ecu q).1.security.unlocked_level ≢ 1)
      × (did_find (dispatch ecu q).1.dids k ≡ some e)
unfolding dispatch
dispatch-guards ecu q k e b locked found guarded = elim (Option-cases (service_of (req_byte q 0))) [
  | inl missing ↦ ground (arith, missing)
  | inr (s, known) ↦ ground (
    arith,
    known,
    handle-guards s ecu q k e locked found guarded,
    handle-locked s ecu q b (service_of-sid_of (req_byte q 0) s known) locked,
  )
]

-- While level 1 is locked, no sequence of requests of bytes changes the entry of an identifier that
-- requires security, as long as none of them sends the key of level 1 (0x27 0x02).
pub serve_all-guards :
    (queue : List Request) (ecu : Ecu) (k : ℕ) (e : DidEntry)
    → All SendsNoKey queue
    → ecu.security.unlocked_level ≢ 1
    → did_find ecu.dids k ≡ some e
    → e.requires_security ≡ true
    → did_find (serve_all queue ecu).dids k ≡ some e
unfolding serve_all
serve_all-guards [] ecu k e b locked found guarded = found
serve_all-guards (q ∷ queue) ecu k e b locked found guarded =
    let next = dispatch-guards ecu q k e b.0 locked found guarded in
    serve_all-guards queue (dispatch ecu q).1 k e b.1 next.0 next.1 guarded
