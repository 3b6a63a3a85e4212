-- ===== src/Data/Read.antt =====
-- Service 0x22 of src/core/data.c against the concatenation of the records that were asked for.
use mathlib.Core.Option
use uds.Base.{
  ℕ, ◌+◌, ◌≤◌, ◌≡◌, ◌≢◌, ◌↔◌, refl, sym, ap, ◌∙◌, false, Option, none, some, List, [], ◌∷◌, ◌++◌,
  length, append_assoc, append-nil, Option-cases, inl, inr, All, length-append, arith, ltb,
  if◌then◌else◌,
}
use uds.Core.{positive, err_buf, byte_at, low_byte}
use uds.Data.{DidEntry, did_find, read_records, read_did}
use uds.Data.Registry.{IsFull, value, length-value, did_find-All}

-- The records for a list of identifiers: each identifier, high byte first, and its value. There are
-- none if an identifier is unknown.
pub records : List DidEntry → List ℕ → Option (List ℕ)
records reg [] = some []
records reg (did ∷ dids) = elim (did_find reg did) [
  | none ↦ none
  | some e ↦
      Option.map (λ rest. byte_at did 8 ∷ low_byte did ∷ (value e ++ rest)) (records reg dids)
]

-- One record, as the loop appends it.
abbrev entry_record : ℕ → DidEntry → List ℕ
entry_record did e = byte_at did 8 ∷ low_byte did ∷ value e

length-entry_record :
    (did : ℕ) (e : DidEntry) → IsFull e → length (entry_record did e) ≡ 2 + e.data_len
length-entry_record did e f = omega (arith, length-value e f)

-- A step of the loop at an entry that has its bytes.
read_records-step :
    (reg : List DidEntry) (resp : List ℕ) (resp_size did : ℕ) (dids : List ℕ) (pos : ℕ)
    (out : List ℕ) (e : DidEntry)
    → IsFull e
    → did_find reg did ≡ some e
    → pos + (2 + e.data_len) ≤ resp_size
    → read_records reg resp resp_size (did ∷ dids) pos out
      ≡ read_records reg resp resp_size dids (pos + (2 + e.data_len)) (out ++ entry_record did e)
unfolding read_records
read_records-step reg resp resp_size did dids pos out e f found room = ground (arith, found, f.1)

records-cons :
    (reg : List DidEntry) (did : ℕ) (dids rest : List ℕ)
    → records reg (did ∷ dids) ≡ some rest
    → (e : DidEntry) × (did_find reg did ≡ some e)
      × (tail : List ℕ) × (records reg dids ≡ some tail)
      × (rest ≡ entry_record did e ++ tail)
unfolding records
records-cons reg did dids rest h = elim (Option-cases (did_find reg did)) [
  | inl missing ↦ absurd (ground (arith, missing, h))
  | inr (e, found) ↦ elim (Option-cases (records reg dids)) [
    | inl none_left ↦ absurd (ground (arith, found, none_left, h))
    | inr (tail, r) ↦ (e, found, tail, r, ground (arith, found, r, h))
  ]
]

-- The loop writes the records, where they fit.
read_records_complete :
    (reg : List DidEntry) (resp : List ℕ) (resp_size : ℕ) (dids : List ℕ) (pos : ℕ)
    (out rest : List ℕ)
    → All IsFull reg
    → records reg dids ≡ some rest
    → pos + length rest ≤ resp_size
    → read_records reg resp resp_size dids pos out ≡ positive (out ++ rest)
unfolding read_records records
read_records_complete reg resp resp_size [] pos out rest full h room =
    ground (arith, h, append-nil out)
read_records_complete reg resp resp_size (did ∷ dids) pos out rest full h room =
    let (e, found, tail, r, b) = records-cons reg did dids rest h in
    let f = did_find-All IsFull reg did e full found in
    let len = length-append (entry_record did e) tail in
    let size = length-entry_record did e f in
    read_records-step reg resp resp_size did dids pos out e f found
      (omega (arith, ap length b, len, size))
    ∙ read_records_complete reg resp resp_size dids (pos + (2 + e.data_len))
        (out ++ entry_record did e) tail full r (omega (arith, ap length b, len, size))
    ∙ ap positive (append_assoc out (entry_record did e) tail ∙ ap (◌++◌ out) (sym b))

-- And what it returns are the records.
read_records_sound :
    (reg : List DidEntry) (resp : List ℕ) (resp_size : ℕ) (dids : List ℕ) (pos : ℕ)
    (out bytes : List ℕ)
    → All IsFull reg
    → length out ≡ pos
    → pos ≤ resp_size
    → read_records reg resp resp_size dids pos out ≡ positive bytes
    → (rest : List ℕ) × (records reg dids ≡ some rest)
      × (bytes ≡ out ++ rest)
      × (length bytes ≤ resp_size)
unfolding read_records records
read_records_sound reg resp resp_size [] pos out bytes full len room h =
    ([], refl, ground (arith, append-nil out), ground arith)
read_records_sound reg resp resp_size (did ∷ dids) pos out bytes full len room h =
    elim (Option-cases (did_find reg did)) [
      | inl missing ↦ absurd (ground (arith, missing, h))
      | inr (e, found) ↦
          let f = did_find-All IsFull reg did e full found in
          let fits : pos + (2 + e.data_len) ≤ resp_size = ground (arith, found, h) in
          let (rest, r, b, z) =
            read_records_sound reg resp resp_size dids (pos + (2 + e.data_len))
              (out ++ entry_record did e) bytes full
              (omega (arith, length-append out (entry_record did e), length-entry_record did e f))
              fits
              (sym (read_records-step reg resp resp_size did dids pos out e f found fits) ∙ h) in
          (
            entry_record did e ++ rest,
            ground (arith, found, r),
            ground (arith, b, append_assoc out (entry_record did e) rest),
            z,
          )
    ]

read_did-cons :
    (reg : List DidEntry) (did : ℕ) (dids resp : List ℕ) (resp_size : ℕ)
    → read_did false reg (did ∷ dids) resp resp_size ≡ (
        if ltb resp_size 1
        then err_buf
        else read_records reg resp resp_size (did ∷ dids) 1 (0x62 ∷ []))
unfolding read_did
read_did-cons reg did dids resp resp_size = ground arith

-- Where every entry holds its bytes and some identifier is asked for, the positive response is 0x62 and
-- the records that were asked for, when they fit and every identifier is known, and there is no other.
pub read_did-records_iff :
    (reg : List DidEntry) (dids resp : List ℕ) (resp_size : ℕ) (bytes : List ℕ)
    → All IsFull reg
    → dids ≢ []
    → (read_did false reg dids resp resp_size ≡ positive bytes) ↔ (
        (rest : List ℕ) × (records reg dids ≡ some rest)
        × (bytes ≡ 0x62 ∷ rest)
        × (length bytes ≤ resp_size))
read_did-records_iff reg [] resp resp_size bytes full some_did = absurd (some_did refl)
read_did-records_iff reg (did ∷ dids) resp resp_size bytes full some_did = (
  λ h.
      let room : 1 ≤ resp_size = ground (arith, h, step) in
      read_records_sound reg resp resp_size (did ∷ dids) 1 (0x62 ∷ []) bytes full refl room
        (ground (arith, h, step)),
  λ (rest, r, b, z).
      let room : 1 + length rest ≤ resp_size = omega (arith, z, ap length b) in
      ground (
        arith,
        b,
        step,
        read_records_complete reg resp resp_size (did ∷ dids) 1 (0x62 ∷ []) rest full r room,
      ),
)
  where
    step : read_did false reg (did ∷ dids) resp resp_size ≡ (
        if ltb resp_size 1
        then err_buf
        else read_records reg resp resp_size (did ∷ dids) 1 (0x62 ∷ []))
    step = read_did-cons reg did dids resp resp_size
