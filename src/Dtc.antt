-- ===== src/Dtc.antt =====
-- src/core/dtc.c: services 0x14 and 0x19 over a registry of trouble codes, a list of its entries.
-- `null` stands for the test whether one of the pointer arguments is NULL.
pub mod Clear
pub mod Report
mod Tests
use uds.Base.{
  take, ℕ, zero, suc, ◌+◌, ◌/◌, ◌%◌, ◌^◌, bit_and, Bool, true, false, not, ◌&&◌, ◌||◌, Option, none,
  some, List, [], ◌∷◌, ◌++◌, length, get_or, replicate, ltb, leb, ◌==◌, ◌!=◌, if◌then◌else◌,
}
use uds.Core.{
  Reply, positive, negative, err_param, err_buf, request_out_of_range, sub_function_not_supported,
  byte_at, low_byte,
}

-- `UdsDtcEntry`
pub record DtcEntry : Type 0 where
  pub dtc_code : ℕ
  pub status : ℕ
  pub snapshot_data : List ℕ
  pub snapshot_len : ℕ

-- `uds_dtc_registry_init`: the registry has the first `count` entries.
unfoldable pub dtc_registry_init : Bool → List DtcEntry → List DtcEntry → ℕ → List DtcEntry
dtc_registry_init null reg entries count = if null then reg else take count entries

-- `(uint8_t)((code >> k) & 0xFFU)`
abbrev pub code_byte : ℕ → ℕ → ℕ
code_byte code k = bit_and (code / 2 ^ k) 0xFF

abbrev pub cleared : DtcEntry → DtcEntry
cleared e = record e { status = 0; snapshot_data = replicate 16 0; snapshot_len = 0 }

-- The loop of `uds_svc_clear_dtc`: the entries, and `found`.
unfoldable pub clear_entries : Bool → ℕ → List DtcEntry → Bool → List DtcEntry × Bool
clear_entries clear_all group_byte [] found = ([], found)
clear_entries clear_all group_byte (e ∷ reg) found =
    let hit = clear_all || code_byte e.dtc_code 16 == group_byte in
    let (rest, found') = clear_entries clear_all group_byte reg (found || hit) in
    ((if hit then cleared e else e) ∷ rest, found')

-- `uds_svc_clear_dtc`
unfoldable pub clear_dtc : Bool → List DtcEntry → ℕ → ℕ → Reply × List DtcEntry
unfolding clear_entries
clear_dtc null reg group_of_dtc resp_size =
    if null
    then (err_param, reg)
    else if ltb resp_size 1
    then (err_buf, reg)
    else let clear_all = group_of_dtc == 0xFFFFFF in
      let (reg', found) = clear_entries clear_all (code_byte group_of_dtc 16) reg false in
      if not clear_all && not found
      then (negative request_out_of_range, reg')
      else (positive (0x54 ∷ []), reg')

-- The loop of sub-function 0x01; `count` is a `uint16_t`.
unfoldable pub count_matching : ℕ → List DtcEntry → ℕ → ℕ
count_matching status_mask [] count = count
count_matching status_mask (e ∷ reg) count =
    count_matching status_mask reg
      (if bit_and e.status status_mask != 0 then (count + 1) % 2 ^ 16 else count)

-- One record of a report: three bytes of the code, and the status.
abbrev pub dtc_record : DtcEntry → List ℕ
dtc_record e =
    code_byte e.dtc_code 16 ∷ code_byte e.dtc_code 8 ∷ low_byte e.dtc_code ∷ e.status ∷ []

-- The loops of sub-functions 0x02, for the entries that `listed` picks, and 0x0A, for all.
unfoldable pub report_records : (DtcEntry → Bool) → List DtcEntry → ℕ → ℕ → List ℕ → Reply
report_records listed [] resp_size pos out = positive out
report_records listed (e ∷ reg) resp_size pos out = elim (listed e) [
  | false ↦ report_records listed reg resp_size pos out
  | true ↦
      let rest = report_records listed reg resp_size (pos + 4) (out ++ dtc_record e) in
      if ltb resp_size (pos + 4) then err_buf else rest
]

abbrev pub matches : ℕ → DtcEntry → Bool
matches status_mask e = not (bit_and e.status status_mask == 0)

-- The status mask of a request; `none` is a NULL pointer.
abbrev pub mask_of : Option (List ℕ) → ℕ
mask_of none = 0xFF
mask_of (some []) = 0xFF
mask_of (some (m ∷ _)) = m

-- `uds_svc_read_dtc`; `req_data` is `req_data[0 .. req_data_len)`.
unfoldable pub read_dtc : Bool → List DtcEntry → ℕ → Option (List ℕ) → ℕ → Reply
unfolding count_matching report_records
read_dtc null reg sub_fn req_data resp_size =
    if null
    then err_param
    else if sub_fn == 0x01
    then (if ltb resp_size 6
        then err_buf
        else let count = count_matching (mask_of req_data) reg 0 in
          positive (0x59 ∷ 0x01 ∷ 0xFF ∷ 0x01 ∷ byte_at count 8 ∷ low_byte count ∷ []))
    else if sub_fn == 0x02
    then (if ltb resp_size 3
        then err_buf
        else report_records (matches (mask_of req_data)) reg resp_size 3
            (0x59 ∷ 0x02 ∷ mask_of req_data ∷ []))
    else if sub_fn == 0x0A
    then (if ltb resp_size 3
        then err_buf
        else report_records (λ e. true) reg resp_size 3 (0x59 ∷ 0x0A ∷ 0xFF ∷ []))
    else negative sub_function_not_supported
