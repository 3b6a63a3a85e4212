-- ===== src/Dtc/Clear.antt =====
-- Service 0x14 of src/core/dtc.c: which trouble codes it clears.
use uds.Base.{ℕ, ◌/◌, ◌%◌, ◌^◌, Bool, false, ◌||◌, List, [], ◌∷◌, ◌==◌, if◌then◌else◌}
use uds.Dtc.{DtcEntry, cleared}

-- Does a request for a group concern the entry?
abbrev pub in_group : ℕ → DtcEntry → Bool
in_group group e = group == 0xFFFFFF || e.dtc_code / 2 ^ 16 % 2 ^ 8 == group / 2 ^ 16 % 2 ^ 8

abbrev pub clear_in : ℕ → DtcEntry → DtcEntry
clear_in group e = if in_group group e then cleared e else e

-- Does the group concern some entry of the registry?
abbrev pub any_in : ℕ → List DtcEntry → Bool
any_in group [] = false
any_in group (e ∷ reg) = in_group group e || any_in group reg
