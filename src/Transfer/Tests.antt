-- ===== src/Transfer/Tests.antt =====
-- Transfers of src/bootloader/flash_services.c over a small range.
use uds.Base.{
  ℕ, ◌+◌, ◌*◌, ◌≤◌, ◌<◌, ◌≡◌, ◌⊎◌, refl, true, false, some, List, [], ◌∷◌, ◌++◌, length, arith,
}
use uds.Core.{positive}
use uds.Flash.{Flash, find_region, address_valid, peek}
use uds.Transfer.{Xfer, xfer_idle, xfer_download, xfer_upload, parse_addr_len_fmt, start}
use uds.Transfer.Format.{number, parse_addr_len_fmt_lem}
use uds.Transfer.Requests.{IsValid}
use uds.Transfer.Blocks.{joined, acknowledged}
use uds.Transfer.Download.{download, download_lem}
use uds.Transfer.Upload.{upload, upload_lem}

abbrev device : Flash
device = record {
  cells = λ a. 0xFF;
  regions = record { base_address = 0; size = 256 * 1024; protected = false } ∷ [];
  initialized = true;
}

abbrev idle : Xfer
idle = record {
  mode = xfer_idle;
  address = 0;
  total_length = 0;
  transferred = 0;
  block_seq = 0;
  max_block_size = 0;
}

-- Two address bytes 0x0100 and one size byte 20.
abbrev field : List ℕ
field = 0x01 ∷ 0x00 ∷ 20 ∷ []

parsed : parse_addr_len_fmt 0x12 field ≡ some (0x100, 20)
unfolding parse_addr_len_fmt
parsed = refl

valid : address_valid false device 0x100 20 ≡ true
unfolding address_valid find_region
valid = refl

abbrev blocks : List (List ℕ)
blocks = (1 ∷ 2 ∷ 3 ∷ []) ∷ (4 ∷ 5 ∷ []) ∷ []

size : length (joined blocks) ≤ 20
unfolding joined
size = omega arith

download_lem_example :
    let (r, rs, y, dev) = download idle device 0x12 field blocks 16 in
    (r ≡ positive (0x74 ∷ 0x20 ∷ 0x00 ∷ 15 ∷ []))
    × (rs ≡ acknowledged 0x01 blocks)
    × (peek dev.cells 0x100 (length (joined blocks)) ≡ joined blocks)
    × ((a : ℕ) → 0x100 + length (joined blocks) ≤ a → a < 0x100 + 20 → dev.cells a ≡ 0xFF)
    × ((a : ℕ) → (a < 0x100) ⊎ (0x100 + 20 ≤ a) → dev.cells a ≡ device.cells a)
    × (y.mode ≡ xfer_download)
    × (dev.regions ≡ device.regions)
download_lem_example =
    download_lem idle device 0x12 field blocks 16 0x100 20 refl (ground arith) (ground arith) parsed
      valid (ground arith) size (omega arith)

upload_lem_example :
    let (r, bytes, y) = upload 2 idle device 0x12 field 17 in
    (r ≡ positive (0x75 ∷ 0x20 ∷ 0x00 ∷ 15 ∷ []))
    × (bytes ≡ peek device.cells 0x100 20)
    × (y.transferred ≡ 20)
upload_lem_example =
    upload_lem 2 idle device 0x12 field 17 0x100 20 refl (ground arith) parsed valid (omega arith)
      (omega arith)

parse_addr_len_fmt_lem_example :
    parse_addr_len_fmt 0x12 ((0x01 ∷ 0x00 ∷ []) ++ ((20 ∷ []) ++ (9 ∷ [])))
    ≡ some (number 0 (0x01 ∷ 0x00 ∷ []), number 0 (20 ∷ []))
parse_addr_len_fmt_lem_example =
    parse_addr_len_fmt_lem 0x12 (0x01 ∷ 0x00 ∷ []) (20 ∷ []) (9 ∷ []) (ground arith) (ground arith)
      (omega arith) (omega arith) refl

uploading : IsValid device.regions (start xfer_upload 0x100 20)
uploading = ground arith
