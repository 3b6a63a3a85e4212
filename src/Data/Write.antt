-- ===== src/Data/Write.antt =====
-- Service 0x2E of src/core/data.c: who may write, and what a write changes.
use mathlib.Core.Option
use uds.Base.{
  ℕ, ◌+◌, ◌≤◌, ◌≡◌, ◌↔◌, refl, Bool, true, false, some, List, [], ◌∷◌, length, ◌==◌, if◌then◌else◌,
  All, take-blit, arith,
}
use uds.Core.{positive, is_positive, byte_at, low_byte}
use uds.Data.{DidEntry, did_find, store, write_did, read_did}
use uds.Data.Registry.{IsFull, did_find-did_update, did_find-All}

-- What a write request must meet.
abbrev pub MayWrite : List DidEntry → ℕ → List ℕ → ℕ → Bool → Type 0
MayWrite reg did bytes session_type unlocked =
    (e : DidEntry) × (did_find reg did ≡ some e)
    × (e.writable ≡ true)
    × (e.min_write_session ≤ session_type)
    × (e.requires_security ≡ true → unlocked ≡ true)
    × (length bytes ≡ e.data_len)

-- A write is granted exactly to a request that may write and has room for the response.
pub write_did-granted_iff :
    (reg : List DidEntry) (did : ℕ) (bytes : List ℕ) (session_type : ℕ) (unlocked : Bool)
    (resp_size : ℕ)
    → (is_positive (write_did false reg did bytes session_type unlocked resp_size).0 ≡ true)
      ↔ (MayWrite reg did bytes session_type unlocked × (3 ≤ resp_size))
unfolding write_did
write_did-granted_iff reg did bytes session_type unlocked resp_size =
    (λ h. ground arith, λ h. ground (arith, h))

-- A write that is refused changes nothing; one that is granted changes what the written identifier
-- stands for, and no other.
pub write_did-effect :
    (null : Bool) (reg : List DidEntry) (did : ℕ) (bytes : List ℕ) (session_type : ℕ)
    (unlocked : Bool) (resp_size k : ℕ)
    → let (r, reg') = write_did null reg did bytes session_type unlocked resp_size in
      did_find reg' k ≡ (
        if is_positive r
        then (if k == did then Option.map (store bytes) (did_find reg k) else did_find reg k)
        else did_find reg k)
unfolding write_did
write_did-effect null reg did bytes session_type unlocked resp_size k =
    ground (arith, did_find-did_update reg did k (store bytes) (λ e. refl))

-- A value whose write was granted is what service 0x22 then returns for the identifier, where every entry
-- holds its bytes and the response has room.
pub read_did-write_did :
    (reg : List DidEntry) (did : ℕ) (bytes resp : List ℕ) (session_type : ℕ) (unlocked : Bool)
    (resp_size read_size : ℕ)
    → All IsFull reg
    → is_positive (write_did false reg did bytes session_type unlocked resp_size).0 ≡ true
    → 3 + length bytes ≤ read_size
    → read_did false
        (write_did false reg did bytes session_type unlocked resp_size).1
        (did ∷ [])
        resp
        read_size
      ≡ positive (0x62 ∷ byte_at did 8 ∷ low_byte did ∷ bytes)
unfolding read_did
read_did-write_did reg did bytes resp session_type unlocked resp_size read_size full h room =
    let (may, _) = (write_did-granted_iff reg did bytes session_type unlocked resp_size).0 h in
    let (d, has, fits) = did_find-All IsFull reg did may.0 full may.1 in
    ground (
      arith,
      h,
      may,
      has,
      fits,
      write_did-effect false reg did bytes session_type unlocked resp_size did,
      take-blit d bytes (omega (arith, may, fits)),
    )
