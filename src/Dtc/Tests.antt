-- ===== src/Dtc/Tests.antt =====
-- Services 0x14 and 0x19 of src/core/dtc.c on a registry with two codes.
use uds.Base.{
  true, length, ℕ, ◌+◌, ◌*◌, ◌≡◌, refl, false, some, List, [], ◌∷◌, ltb, replicate, if◌then◌else◌,
}
use uds.Core.{positive, err_buf}
use uds.Dtc.{DtcEntry, read_dtc, matches, mask_of}
use uds.Dtc.Report.{listing, count, read_dtc-listing}

abbrev entry : ℕ → ℕ → DtcEntry
entry code status = record {
  dtc_code = code;
  status = status;
  snapshot_data = replicate 16 0;
  snapshot_len = 0;
}

abbrev reg : List DtcEntry
reg = entry 0x010001 0x28 ∷ entry 0x020002 0x04 ∷ []

read_dtc-listing_example :
    (read_dtc false reg 0x02 (some (0x08 ∷ [])) 16 ≡ (
      if ltb 16 (3 + 4 * count (matches (mask_of (some (0x08 ∷ [])))) reg)
      then err_buf
      else positive (0x59 ∷ 0x02 ∷ 0x08 ∷ listing (matches (mask_of (some (0x08 ∷ [])))) reg)))
    × (read_dtc false reg 0x0A (some (0x08 ∷ [])) 16 ≡ (
        if ltb 16 (3 + 4 * length reg)
        then err_buf
        else positive (0x59 ∷ 0x0A ∷ 0xFF ∷ listing (λ e. true) reg)))
read_dtc-listing_example = read_dtc-listing reg (some (0x08 ∷ [])) 16

abbrev counted : List ℕ
counted = 0x59 ∷ 0x01 ∷ 0xFF ∷ 0x01 ∷ 0 ∷ 1 ∷ []

abbrev reported : List ℕ
reported = 0x59 ∷ 0x02 ∷ 0x08 ∷ 0x01 ∷ 0x00 ∷ 0x01 ∷ 0x28 ∷ []

count_run : read_dtc false reg 0x01 (some (0x08 ∷ [])) 16 ≡ positive counted
unfolding read_dtc
count_run = refl

report_run : read_dtc false reg 0x02 (some (0x08 ∷ [])) 16 ≡ positive reported
unfolding read_dtc
report_run = refl
