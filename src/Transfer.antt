-- ===== src/Transfer.antt =====
-- src/bootloader/flash_services.c: services 0x34 to 0x37 over the flash device.
-- `null` stands for the test whether one of the pointer arguments is NULL.
pub mod Format
pub mod Requests
pub mod Invariant
pub mod Blocks
pub mod Download
pub mod Reading
pub mod Upload
mod Tests
use uds.Base.{
  ℕ, zero, suc, ◌+◌, ◌-◌, ◌*◌, ◌/◌, ◌%◌, ◌^◌, bit_and, bit_or, Bool, true, false, not, ◌&&◌, ◌||◌,
  Option, none, some, List, [], ◌∷◌, ◌++◌, length, take, drop, ltb, ◌==◌, ◌!=◌, if◌then◌else◌,
}
use uds.Core.{
  Reply, positive, negative, err_param, err_buf, conditions_not_correct,
  incorrect_msg_len_or_format, request_out_of_range, general_programming_failure,
  wrong_block_sequence_counter, transfer_data_suspended,
}
use uds.Flash.{
  Flash, FlashStatus, ok, bad_param, refused, address_valid, flash_erase, flash_write, flash_read,
}

abbrev pub max_block_data : ℕ
max_block_data = 15

-- `UdsXferMode`
pub data XferMode : Type 0 where
  xfer_idle xfer_download xfer_upload : XferMode

-- `UdsXferSession`
pub record Xfer : Type 0 where
  pub mode : XferMode
  pub address : ℕ
  pub total_length : ℕ
  pub transferred : ℕ
  pub block_seq : ℕ
  pub max_block_size : ℕ

-- `uds_xfer_init`
unfoldable pub xfer_init : Xfer
xfer_init = record {
  mode = xfer_idle;
  address = 0;
  total_length = 0;
  transferred = 0;
  block_seq = 0;
  max_block_size = 0;
}

-- The decoding loops of `parse_addr_len_fmt`, in 32 bits.
unfoldable pub big_endian : ℕ → List ℕ → ℕ
big_endian value [] = value
big_endian value (b ∷ bytes) = big_endian (bit_or (value * 2 ^ 8 % 2 ^ 32) b) bytes

-- `parse_addr_len_fmt`: the address and the memory size.
unfoldable pub parse_addr_len_fmt : ℕ → List ℕ → Option (ℕ × ℕ)
unfolding big_endian
parse_addr_len_fmt fmt bytes =
    let addr_bytes : ℕ = bit_and fmt 0x0F in
    let size_bytes : ℕ = bit_and (fmt / 2 ^ 4) 0x0F in
    if ltb addr_bytes 1 || (ltb 4 addr_bytes || (ltb size_bytes 1 || ltb 4 size_bytes))
    then none
    else if ltb (length bytes) (addr_bytes + size_bytes)
    then none
    else some (
      big_endian 0 (take addr_bytes bytes),
      big_endian 0 (take size_bytes (drop addr_bytes bytes)),
    )

-- The fields that services 0x34 and 0x35 set.
abbrev pub start : XferMode → ℕ → ℕ → Xfer
start mode address mem_size = record {
  mode = mode;
  address = address;
  total_length = mem_size;
  transferred = 0;
  block_seq = 0x01;
  max_block_size = max_block_data;
}

-- `uds_svc_request_download`: the range is erased before the response buffer is looked at.
unfoldable pub request_download : Bool → Xfer → Flash → ℕ → List ℕ → ℕ → Reply × Xfer × Flash
request_download null x flash fmt bytes resp_size =
    if null then (err_param, x, flash) else elim x.mode [
      | xfer_idle ↦ elim (parse_addr_len_fmt fmt bytes) [
        | none ↦ (negative incorrect_msg_len_or_format, x, flash)
        | some (address, mem_size) ↦
            if not (address_valid false flash address mem_size)
            then (negative request_out_of_range, x, flash)
            else let (status, erased) = flash_erase false flash address mem_size in
              elim status [
                | ok ↦ if ltb resp_size 4 then (err_buf, x, erased) else (
                  positive (0x74 ∷ 0x20 ∷ 0x00 ∷ max_block_data ∷ []),
                  start xfer_download address mem_size,
                  erased,
                )
                | _ ↦ (negative general_programming_failure, x, erased)
              ]
      ]
      | _ ↦ (negative conditions_not_correct, x, flash)
    ]

-- `uds_svc_request_upload`
unfoldable pub request_upload : Bool → Xfer → Flash → ℕ → List ℕ → ℕ → Reply × Xfer
request_upload null x flash fmt bytes resp_size = if null then (err_param, x) else elim x.mode [
  | xfer_idle ↦ elim (parse_addr_len_fmt fmt bytes) [
    | none ↦ (negative incorrect_msg_len_or_format, x)
    | some (address, mem_size) ↦
        if not (address_valid false flash address mem_size)
        then (negative request_out_of_range, x)
        else if ltb resp_size 4
        then (err_buf, x)
        else (
          positive (0x75 ∷ 0x20 ∷ 0x00 ∷ max_block_data ∷ []),
          start xfer_upload address mem_size,
        )
  ]
  | _ ↦ (negative conditions_not_correct, x)
]

-- The next block sequence counter: 0xFF is followed by 0x01.
abbrev pub next_seq : ℕ → ℕ
next_seq seq = if seq == 0xFF then 0x01 else (seq + 1) % 2 ^ 8

abbrev pub remaining : Xfer → ℕ
remaining x = (x.total_length + 2 ^ 32 - x.transferred) % 2 ^ 32

-- The download branch of `uds_svc_transfer_data`; `none` is a NULL data pointer.
unfoldable pub write_block : Xfer → Flash → ℕ → Option (List ℕ) → ℕ → Reply × Xfer × Flash
write_block x flash seq none resp_size = (err_param, x, flash)
write_block x flash seq (some bytes) resp_size =
    if length bytes == 0
    then (err_param, x, flash)
    else if ltb (remaining x) (length bytes % 2 ^ 32)
    then (negative transfer_data_suspended, x, flash)
    else let (status, written) =
        flash_write false flash ((x.address + x.transferred) % 2 ^ 32) bytes in
      elim status [
        | ok ↦
            let moved = record x {
              transferred = (x.transferred + length bytes % 2 ^ 32) % 2 ^ 32;
            } in
            if ltb resp_size 2 then (err_buf, moved, written) else (
              positive (0x76 ∷ seq ∷ []),
              record moved { block_seq = next_seq x.block_seq },
              written,
            )
        | _ ↦ (negative general_programming_failure, x, written)
      ]

-- The upload branch of `uds_svc_transfer_data`.
unfoldable pub read_block : Xfer → Flash → ℕ → ℕ → Reply × Xfer
read_block x flash seq resp_size =
    let to_read : ℕ =
      if ltb (remaining x) x.max_block_size then remaining x else x.max_block_size in
    if ltb resp_size ((2 + to_read) % 2 ^ 32)
    then (err_buf, x)
    else let (status, bytes) =
        flash_read false flash ((x.address + x.transferred) % 2 ^ 32) to_read in
      elim status [
        | ok ↦ (
          positive (0x76 ∷ seq ∷ bytes),
          record x {
            transferred = (x.transferred + to_read) % 2 ^ 32;
            block_seq = next_seq x.block_seq;
          },
        )
        | _ ↦ (negative general_programming_failure, x)
      ]

-- `uds_svc_transfer_data`
unfoldable pub transfer_data : Bool → Xfer → Flash → ℕ → Option (List ℕ) → ℕ → Reply × Xfer × Flash
transfer_data null x flash seq bytes resp_size =
    if null then (err_param, x, flash) else elim x.mode [
      | xfer_idle ↦ (negative conditions_not_correct, x, flash)
      | xfer_download ↦
          if seq != x.block_seq
          then (negative wrong_block_sequence_counter, x, flash)
          else write_block x flash seq bytes resp_size
      | xfer_upload ↦
          if seq != x.block_seq
          then (negative wrong_block_sequence_counter, x, flash)
          else let (r, x') = read_block x flash seq resp_size in (r, x', flash)
    ]

-- `uds_svc_transfer_exit`
unfoldable pub transfer_exit : Bool → Xfer → ℕ → Reply × Xfer
unfolding xfer_init
transfer_exit null x resp_size = if null then (err_param, x) else elim x.mode [
  | xfer_idle ↦ (negative conditions_not_correct, x)
  | _ ↦ if ltb resp_size 1 then (err_buf, x) else (positive (0x77 ∷ []), xfer_init)
]
