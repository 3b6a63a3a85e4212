-- ===== src/Flash/Tests.antt =====
-- The device of src/bootloader/flash.c with one region.
use uds.Base.{ℕ, ◌*◌, ◌≡◌, refl, true, false, List, [], ◌∷◌}
use uds.Flash.{Flash, ok, find_region, flash_write}

abbrev device : Flash
device = record {
  cells = λ a. 0xFF;
  regions = record { base_address = 0; size = 256 * 1024; protected = false } ∷ [];
  initialized = true;
}

abbrev bytes : List ℕ
bytes = 1 ∷ 2 ∷ 3 ∷ []

written : (flash_write false device 0x100 bytes).0 ≡ ok
unfolding flash_write find_region
written = refl
