-- ===== src/Ecu/Unlock.antt =====
-- A tester that unlocks src/ecusim/ecusim.c and writes an identifier: requests 0x10, 0x27 with its seed and
-- its key, 0x2E and 0x22.
use mathlib.Core.Path.{subst}
use uds.Base.{
  ap₂, ℕ, ◌+◌, ◌*◌, ◌≤◌, ◌<◌, ◌≡◌, ◌≢◌, refl, sym, ap, ◌∙◌, some, true, false, List, [], ◌∷◌,
  length, drop, All, arith,
}
use uds.Base.Bits.{bit_or_shifted, bit_and_255}
use uds.Core.{low_byte, byte_at}
use uds.Session.{session_code, dsc}
use uds.Security.{Security, request_seed, send_key, compute_key, is_unlocked}
use uds.Security.Keys.{length-compute_key}
use uds.Security.Access.{IsLockedOut, send_key-request_seed}
use uds.Data.{DidEntry, did_find, write_did, read_did}
use uds.Data.Registry.{IsFull}
use uds.Data.Write.{write_did-granted_iff, read_did-write_did}
use uds.Ecu.{Ecu, Request, dispatch, handle, service_of, respond, did_list}
use uds.Ecu.Invariant.{serve_all}

-- A request with the response buffer of `ecusim_run`.
abbrev pub Sent : Request → List ℕ → Type 0
Sent q bytes = (q.bytes ≡ bytes) × (q.resp_size ≡ 4095)

dispatch-session :
    (ecu : Ecu) (q : Request) (t : ℕ)
    → Sent q (0x10 ∷ t ∷ [])
    → 1 ≤ t
    → t ≤ 4
    → let out = (dispatch ecu q).1 in
      (session_code out.session.type ≡ t) × (out.security ≡ ecu.security) × (out.dids ≡ ecu.dids)
unfolding dispatch handle service_of dsc session_code
dispatch-session ecu q t (is, size) lo hi = ground (arith, is, size)

dispatch-seed :
    (ecu : Ecu) (q : Request)
    → Sent q (0x27 ∷ 0x01 ∷ [])
    → ¬ IsLockedOut ecu.security q.now
    → ecu.security.unlocked_level ≢ 1
    → let s = (request_seed false ecu.security 1 4095 q.now q.rand).1 in
      (drop 2 (dispatch ecu q).0 ≡ s.seed)
      × (length s.seed ≡ 4)
      × ((dispatch ecu q).1 ≡ record ecu { security = s })
unfolding dispatch handle service_of request_seed
dispatch-seed ecu q (is, size) free closed = ground (arith, is, size)

dispatch-key :
    (ecu : Ecu) (q : Request) (key : List ℕ)
    → Sent q (0x27 ∷ 0x02 ∷ key)
    → length key ≡ 4
    → let out = (dispatch ecu q).1 in
      (out.security ≡ (send_key false ecu.security 2 key 4095 q.now).1)
      × (out.session.type ≡ ecu.session.type)
      × (out.dids ≡ ecu.dids)
unfolding dispatch handle service_of
dispatch-key ecu q key (is, size) four = ground (arith, is, size)

dispatch-write :
    (ecu : Ecu) (q : Request) (hi lo : ℕ) (bytes : List ℕ)
    → Sent q (0x2E ∷ hi ∷ lo ∷ bytes)
    → lo < 256
    → 0 < length bytes
    → (dispatch ecu q).1.dids
      ≡ (write_did false ecu.dids
          (hi * 256 + lo)
          bytes
          (session_code ecu.session.type)
          (is_unlocked (some ecu.security) 1)
          4095).1
unfolding dispatch handle service_of
dispatch-write ecu q hi lo bytes (is, size) byte full =
    ground (arith, is, size, bit_or_shifted 8 hi lo byte)

dispatch-read :
    (ecu : Ecu) (q : Request) (hi lo : ℕ)
    → Sent q (0x22 ∷ hi ∷ lo ∷ [])
    → lo < 256
    → (dispatch ecu q).0 ≡ respond 0x22 (read_did false ecu.dids ((hi * 256 + lo) ∷ []) q.resp 4095)
unfolding dispatch handle service_of did_list
dispatch-read ecu q hi lo (is, size) byte = ground (arith, is, size, bit_or_shifted 8 hi lo byte)

-- A write behind the security level, with the response buffer of ecusim_run: a session, which is one of
-- the four, the seed and the key of level 1, and then a value for a writable identifier that the session
-- may write, of the length of its entry, from 1 to 4092 bytes. Every entry holds its bytes. The simulator
-- is not locked out when the seed is asked for, and level 1 is not unlocked yet. The key is the one
-- computed from the seed in the response, and is sent less than 10 seconds later. Then a read of the
-- identifier returns the value that was written.
pub serve_all-unlocked :
    (ecu : Ecu) (qs qa qk qw qr : Request) (t hi lo : ℕ) (bytes : List ℕ) (e : DidEntry)
    → Sent qs (0x10 ∷ t ∷ [])
    → Sent qa (0x27 ∷ 0x01 ∷ [])
    → Sent qk (0x27 ∷ 0x02 ∷ compute_key (drop 2 (dispatch (dispatch ecu qs).1 qa).0))
    → Sent qw (0x2E ∷ hi ∷ lo ∷ bytes)
    → Sent qr (0x22 ∷ hi ∷ lo ∷ [])
    → (hi < 256) × (lo < 256)
    → (1 ≤ t) × (t ≤ 4)
    → ¬ IsLockedOut ecu.security qa.now
    → ecu.security.unlocked_level ≢ 1
    → qk.now.tv_sec < qa.now.tv_sec + 10
    → All IsFull ecu.dids
    → did_find ecu.dids (hi * 256 + lo) ≡ some e
    → e.writable ≡ true
    → e.min_write_session ≤ t
    → length bytes ≡ e.data_len
    → 0 < length bytes
    → length bytes ≤ 4092
    → (dispatch (serve_all (qs ∷ qa ∷ qk ∷ qw ∷ []) ecu) qr).0 ≡ 0x62 ∷ hi ∷ lo ∷ bytes
unfolding serve_all is_unlocked
serve_all-unlocked ecu qs qa qk qw qr t hi lo bytes e sent_s sent_a sent_k sent_w sent_r byte
      session free closed soon full found writable low same some_bytes fits =
    let did : ℕ = hi * 256 + lo in
    let e1 : Ecu = (dispatch ecu qs).1 in
    let e2 : Ecu = (dispatch e1 qa).1 in
    let e3 : Ecu = (dispatch e2 qk).1 in
    let (type1, sec1, dids1) = dispatch-session ecu qs t sent_s session.0 session.1 in
    let free1 : ¬ IsLockedOut e1.security qa.now =
      λ l. free (subst (λ s. IsLockedOut s qa.now) sec1 l) in
    let closed1 : e1.security.unlocked_level ≢ 1 =
      λ l. closed (sym (ap (λ s. s.unlocked_level) sec1) ∙ l) in
    let (seed_is, four, is2) = dispatch-seed e1 qa sent_a free1 closed1 in
    let key = compute_key (drop 2 (dispatch e1 qa).0) in
    let key_size : length key ≡ 4 =
      length-compute_key (drop 2 (dispatch e1 qa).0) ∙ ap length seed_is ∙ four in
    let (sec3, type3, dids3) = dispatch-key e2 qk key sent_k key_size in
    let level3 : e3.security.unlocked_level ≡ 1 =
      ap (λ s. s.unlocked_level) sec3
      ∙ ap₂ (λ (s : Security) k. (send_key false s 2 (compute_key k) 4095 qk.now).1.unlocked_level)
          (ap (λ x. x.security) is2) seed_is
      ∙ send_key-request_seed e1.security 1 4095 4095 qa.now qk.now qa.rand refl (omega arith) free1
          closed1 (omega arith) (omega arith) soon in
    let reg3 : e3.dids ≡ ecu.dids = dids3 ∙ ap (λ x. x.dids) is2 ∙ dids1 in
    let at3 : session_code e3.session.type ≡ t =
      ap session_code (type3 ∙ ap (λ x. x.session.type) is2) ∙ type1 in
    let open3 : is_unlocked (some e3.security) 1 ≡ true = ground (arith, level3) in
    let granted =
      (write_did-granted_iff ecu.dids did bytes t true 4095).1
        ((e, found, writable, low, (λ secured. refl), same), omega arith) in
    let reg4 : (dispatch e3 qw).1.dids ≡ (write_did false ecu.dids did bytes t true 4095).1 =
      dispatch-write e3 qw hi lo bytes sent_w byte.1 some_bytes
      ∙ ap
          (λ r.
            (write_did false r did bytes (session_code e3.session.type)
              (is_unlocked (some e3.security) 1) 4095).1)
          reg3
      ∙ ap₂ (λ s u. (write_did false ecu.dids did bytes s u 4095).1) at3 open3 in
    let hi_is : byte_at did 8 ≡ hi = omega arith in
    let lo_is : low_byte did ≡ lo = bit_and_255 did ∙ omega arith in
    dispatch-read (dispatch e3 qw).1 qr hi lo sent_r byte.1
    ∙ ap (λ r. respond 0x22 (read_did false r (did ∷ []) qr.resp 4095)) reg4
    ∙ ap (respond 0x22)
        (read_did-write_did ecu.dids did bytes qr.resp t true 4095 4095 full granted (omega arith))
    ∙ ap₂ (λ a b. 0x62 ∷ a ∷ b ∷ bytes) hi_is lo_is
