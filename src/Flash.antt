-- ===== src/Flash.antt =====
-- src/bootloader/flash.c: the simulated flash device. Its `data` array is a function from the address
-- to the byte, of which the program owns the addresses below `flash_max_size`; `Flash.Ranges`
-- says when no operation leaves them. `null` stands for the test whether a pointer argument is NULL.
pub mod Ranges
pub mod Memory
mod Tests
use uds.Base.{
  ℕ, zero, suc, ◌+◌, ◌-◌, ◌*◌, ◌%◌, ◌^◌, min, Bool, true, false, not, ◌&&◌, ◌||◌, Option, none,
  some, List, [], ◌∷◌, ◌++◌, length, get_or, take, drop, ltb, leb, ◌==◌, if◌then◌else◌,
}

abbrev pub flash_max_regions : ℕ
flash_max_regions = 8

abbrev pub flash_max_size : ℕ
flash_max_size = 256 * 1024

abbrev pub erase_value : ℕ
erase_value = 0xFF

-- `UdsFlashRegion`
pub record Region : Type 0 where
  pub base_address : ℕ
  pub size : ℕ
  pub protected : Bool

-- `UdsFlashMemory`; `regions` holds the first `region_count` entries of the table.
pub record Flash : Type 0 where
  pub cells : ℕ → ℕ
  pub regions : List Region
  pub initialized : Bool

-- The test of `find_region` on one region: [address, address + length) lies inside it.
abbrev pub covers : Region → ℕ → ℕ → Bool
covers r address len =
    leb r.base_address address
    && (ltb (address - r.base_address) r.size && leb len (r.size - (address - r.base_address)))

-- `find_region`: the first region that covers the range.
unfoldable pub find_region : List Region → ℕ → ℕ → Option Region
find_region [] address len = none
find_region (r ∷ regions) address len =
    if covers r address len then some r else find_region regions address len

-- `uds_flash_init` with a region table; the count is clamped.
unfoldable pub flash_init : List Region → Flash
flash_init regions = record {
  cells = λ address. erase_value;
  regions = take flash_max_regions regions;
  initialized = true;
}

-- `uds_flash_address_valid`
unfoldable pub address_valid : Bool → Flash → ℕ → ℕ → Bool
address_valid null flash address len =
    if null || len == 0
    then false
    else elim (find_region flash.regions address len) [ none ↦ false | some r ↦ true ]

-- What the three operations return: UDS_CORE_OK, UDS_CORE_ERR_PARAM, UDS_CORE_ERR_NRC.
pub data FlashStatus : Type 0 where
  ok bad_param refused : FlashStatus

-- `memset(&data[address], UDS_FLASH_ERASE_VALUE, length)`
abbrev pub fill : (ℕ → ℕ) → ℕ → ℕ → ℕ → ℕ
fill cells address len a = if leb address a && ltb a (address + len) then erase_value else cells a

-- `memcpy(&data[address], bytes, len)`
abbrev pub patch : (ℕ → ℕ) → ℕ → List ℕ → ℕ → ℕ
patch cells address bytes a =
    if leb address a && ltb a (address + length bytes)
    then get_or bytes (a - address) 0
    else cells a

-- `memcpy(buf, &data[address], len)`
unfoldable pub peek : (ℕ → ℕ) → ℕ → ℕ → List ℕ
peek cells address zero = []
peek cells address (suc n) = cells address ∷ peek cells (address + 1) n

-- `uds_flash_erase`
unfoldable pub flash_erase : Bool → Flash → ℕ → ℕ → FlashStatus × Flash
flash_erase null flash address len =
    if null || len == 0 then (bad_param, flash) else elim (find_region flash.regions address len) [
      | none ↦ (refused, flash)
      | some r ↦
          if r.protected
          then (refused, flash)
          else (ok, record flash { cells = fill flash.cells address len })
    ]

-- `uds_flash_write`; the range is checked with the length cut to 32 bits.
unfoldable pub flash_write : Bool → Flash → ℕ → List ℕ → FlashStatus × Flash
flash_write null flash address bytes =
    if null || length bytes == 0
    then (bad_param, flash)
    else elim (find_region flash.regions address (length bytes % 2 ^ 32)) [
      | none ↦ (refused, flash)
      | some r ↦
          if r.protected
          then (refused, flash)
          else (ok, record flash { cells = patch flash.cells address bytes })
    ]

-- `uds_flash_read`: the bytes that it puts into the buffer.
unfoldable pub flash_read : Bool → Flash → ℕ → ℕ → FlashStatus × List ℕ
unfolding address_valid
flash_read null flash address len =
    if null || len == 0
    then (bad_param, [])
    else if not (address_valid false flash address (len % 2 ^ 32))
    then (refused, [])
    else (ok, peek flash.cells address len)
