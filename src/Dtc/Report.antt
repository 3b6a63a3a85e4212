-- ===== src/Dtc/Report.antt =====
-- Service 0x19 of src/core/dtc.c: the number of matching codes, and their report.
use uds.Base.{
  true, ℕ, ◌+◌, ◌*◌, ◌%◌, ◌^◌, ◌≤◌, ◌<◌, ◌≡◌, refl, Bool, false, List, [], ◌∷◌, ◌++◌, length, ltb,
  if◌then◌else◌, arith, Option, get_or, append_assoc, append-nil,
}
use uds.Base.Bits.{bit_and_255}
use uds.Core.{positive, err_buf}
use uds.Dtc.{DtcEntry, dtc_record, matches, mask_of, count_matching, report_records, read_dtc}

-- The records of the entries that are picked, in the order of the registry.
abbrev pub listing : (DtcEntry → Bool) → List DtcEntry → List ℕ
listing listed [] = []
listing listed (e ∷ reg) =
    if listed e then dtc_record e ++ listing listed reg else listing listed reg

abbrev pub count : (DtcEntry → Bool) → List DtcEntry → ℕ
count listed [] = 0
count listed (e ∷ reg) = if listed e then count listed reg + 1 else count listed reg

count_all : (reg : List DtcEntry) → count (λ e. true) reg ≡ length reg
count_all [] = refl
count_all (e ∷ reg) = omega (arith, count_all reg)

length-listing :
    (listed : DtcEntry → Bool) (reg : List DtcEntry)
    → length (listing listed reg) ≡ 4 * count listed reg
length-listing listed [] = refl
length-listing listed (e ∷ reg) = ground (arith, length-listing listed reg)

-- The loop returns what it has written and the listing, if that fits.
report_records_lem :
    (listed : DtcEntry → Bool) (reg : List DtcEntry) (resp_size pos : ℕ) (out : List ℕ)
    → pos ≤ resp_size
    → report_records listed reg resp_size pos out ≡ (
        if ltb resp_size (pos + 4 * count listed reg)
        then err_buf
        else positive (out ++ listing listed reg))
unfolding report_records
report_records_lem listed [] resp_size pos out room = ground (arith, append-nil out)
report_records_lem listed (e ∷ reg) resp_size pos out room = ground (
  arith,
  report_records_lem listed reg resp_size pos out,
  report_records_lem listed reg resp_size (pos + 4) (out ++ dtc_record e),
  append_assoc out (dtc_record e) (listing listed reg),
)

count_matching_lem :
    (mask : ℕ) (reg : List DtcEntry) (n : ℕ)
    → n < 2 ^ 16
    → count_matching mask reg n ≡ (n + count (matches mask) reg) % 2 ^ 16
unfolding count_matching
count_matching_lem mask [] n h = ground arith
count_matching_lem mask (e ∷ reg) n h =
    ground (arith, count_matching_lem mask reg n, count_matching_lem mask reg ((n + 1) % 2 ^ 16))

-- Sub-function 0x02 reports the codes whose status meets the mask, and 0x0A all codes, four bytes each in the
-- order of the registry, or nothing at all when they do not fit.
pub read_dtc-listing :
    (reg : List DtcEntry) (req : Option (List ℕ)) (resp_size : ℕ)
    → (read_dtc false reg 0x02 req resp_size ≡ (
        if ltb resp_size (3 + 4 * count (matches (mask_of req)) reg)
        then err_buf
        else positive (0x59 ∷ 0x02 ∷ mask_of req ∷ listing (matches (mask_of req)) reg)))
      × (read_dtc false reg 0x0A req resp_size ≡ (
          if ltb resp_size (3 + 4 * length reg)
          then err_buf
          else positive (0x59 ∷ 0x0A ∷ 0xFF ∷ listing (λ e. true) reg)))
unfolding read_dtc
read_dtc-listing reg req resp_size = (
  ground (
    arith,
    report_records_lem (matches (mask_of req)) reg resp_size 3 (0x59 ∷ 0x02 ∷ mask_of req ∷ []),
  ),
  ground (
    arith,
    report_records_lem (λ e. true) reg resp_size 3 (0x59 ∷ 0x0A ∷ 0xFF ∷ []),
    count_all reg,
  ),
)

-- Sub-function 0x01 announces the number of records that 0x02 reports under the same mask, where both
-- are answered and fewer than 2^16 codes match.
pub read_dtc-count :
    (reg : List DtcEntry) (req : Option (List ℕ)) (resp_size : ℕ) (r report : List ℕ)
    → count (matches (mask_of req)) reg < 2 ^ 16
    → read_dtc false reg 0x01 req resp_size ≡ positive r
    → read_dtc false reg 0x02 req resp_size ≡ positive report
    → length report ≡ 3 + 4 * (get_or r 4 0 * 256 + get_or r 5 0)
unfolding read_dtc
read_dtc-count reg req resp_size r report small h k = ground (
  arith,
  h,
  k,
  count_matching_lem (mask_of req) reg 0,
  bit_and_255 (count (matches (mask_of req)) reg),
  report_records_lem (matches (mask_of req)) reg resp_size 3 (0x59 ∷ 0x02 ∷ mask_of req ∷ []),
  length-listing (matches (mask_of req)) reg,
)
