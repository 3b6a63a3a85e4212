-- ===== src/Data/Tests.antt =====
-- The services of src/core/data.c on a registry of two identifiers.
use uds.Base.{ℕ, ◌≤◌, ◌≡◌, ◌↔◌, refl, Bool, true, false, some, List, [], ◌∷◌, length, All, arith}
use uds.Core.{positive, is_positive, byte_at, low_byte}
use uds.Data.{DidEntry, did_find, write_did, read_did}
use uds.Data.Registry.{IsFull}
use uds.Data.Read.{records, read_did-records_iff}
use uds.Data.Write.{MayWrite, write_did-granted_iff, read_did-write_did}

abbrev entry : ℕ → Bool → DidEntry
entry did_id secured = record {
  did_id = did_id;
  buffer = some (7 ∷ 8 ∷ 9 ∷ []);
  data_len = 2;
  writable = true;
  min_session = 1;
  min_write_session = 3;
  requires_security = secured;
}

abbrev reg : List DidEntry
reg = entry 0xF187 false ∷ entry 0xF190 true ∷ []

abbrev bytes : List ℕ
bytes = 1 ∷ 2 ∷ []

full : All IsFull reg
full = ground arith

write_did-granted_iff_example :
    (is_positive (write_did false reg 0xF190 bytes 3 true 8).0 ≡ true)
    ↔ (MayWrite reg 0xF190 bytes 3 true × (3 ≤ 8))
write_did-granted_iff_example = write_did-granted_iff reg 0xF190 bytes 3 true 8

granted : is_positive (write_did false reg 0xF190 bytes 3 true 8).0 ≡ true
unfolding write_did did_find
granted = refl

read_did-write_did_example :
    read_did false (write_did false reg 0xF190 bytes 3 true 8).1 (0xF190 ∷ []) [] 8
    ≡ positive (0x62 ∷ byte_at 0xF190 8 ∷ low_byte 0xF190 ∷ bytes)
read_did-write_did_example =
    read_did-write_did reg 0xF190 bytes [] 3 true 8 8 full granted (omega arith)

abbrev both : List ℕ
both = 0x62 ∷ 0xF1 ∷ 0x90 ∷ 7 ∷ 8 ∷ 0xF1 ∷ 0x87 ∷ 7 ∷ 8 ∷ []

read_did-records_iff_example : (read_did false reg (0xF190 ∷ 0xF187 ∷ []) [] 16 ≡ positive both) ↔ (
    (rest : List ℕ) × (records reg (0xF190 ∷ 0xF187 ∷ []) ≡ some rest)
    × (both ≡ 0x62 ∷ rest)
    × (length both ≤ 16))
read_did-records_iff_example =
    read_did-records_iff reg (0xF190 ∷ 0xF187 ∷ []) [] 16 both full (ground arith)
