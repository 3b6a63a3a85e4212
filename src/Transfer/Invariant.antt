-- ===== src/Transfer/Invariant.antt =====
-- The well-formed transfer sessions of src/bootloader/flash_services.c under services
-- 0x34 to 0x37.
use uds.Base.{ℕ, ◌^◌, ◌≤◌, ◌<◌, ◌≡◌, ◌≢◌, ◌⊎◌, inl, inr, ◌∙◌, Bool, Option, none, some, List, arith}
use uds.Flash.{Region, Flash}
use uds.Transfer.{Xfer, xfer_idle, xfer_init, write_block, read_block, transfer_data, transfer_exit}
use uds.Transfer.Requests.{IsValid, xfer_init-IsValid}

-- A block moves the session forward, inside its range.
abbrev Moves : Xfer → Xfer → Type 0
Moves x x' =
    (x'.mode ≡ x.mode)
    × (x'.address ≡ x.address)
    × (x'.total_length ≡ x.total_length)
    × (x'.max_block_size ≡ x.max_block_size)
    × (x.transferred ≤ x'.transferred)
    × (x'.transferred ≤ x'.total_length)
    × (1 ≤ x'.block_seq)
    × (x'.block_seq ≤ 255)

Moves-IsValid :
    (regions : List Region) (x x' : Xfer) → Moves x x' → IsValid regions x → IsValid regions x'
Moves-IsValid regions x x' (mode, address, total, max, _, moved, lo, hi) v = record {
  ranged = λ busy. rw (address, total) (v.ranged (rw mode at busy));
  moved = moved;
  counted = λ _. (lo, hi);
  bounded = λ busy. max ∙ v.bounded (rw mode at busy);
  in_words = rw total v.in_words;
}

write_block-Moves :
    (x : Xfer) (flash : Flash) (seq : ℕ) (bytes : Option (List ℕ)) (resp_size : ℕ)
    → x.transferred ≤ x.total_length
    → x.total_length < 2 ^ 32
    → (1 ≤ x.block_seq) × (x.block_seq ≤ 255)
    → Moves x (write_block x flash seq bytes resp_size).1
unfolding write_block
write_block-Moves x flash seq none resp_size le small n = ground arith
write_block-Moves x flash seq (some bytes) resp_size le small n = ground arith

read_block-Moves :
    (x : Xfer) (flash : Flash) (seq resp_size : ℕ)
    → x.transferred ≤ x.total_length
    → x.total_length < 2 ^ 32
    → (1 ≤ x.block_seq) × (x.block_seq ≤ 255)
    → Moves x (read_block x flash seq resp_size).1
unfolding read_block
read_block-Moves x flash seq resp_size le small n = ground arith

transfer_data-cases :
    (null : Bool) (x : Xfer) (flash : Flash) (seq : ℕ) (bytes : Option (List ℕ)) (resp_size : ℕ)
    → ((transfer_data null x flash seq bytes resp_size).1 ≡ x)
      ⊎ ((x.mode ≢ xfer_idle)
          × (((transfer_data null x flash seq bytes resp_size).1
                ≡ (write_block x flash seq bytes resp_size).1)
              ⊎ ((transfer_data null x flash seq bytes resp_size).1
                  ≡ (read_block x flash seq resp_size).1)))
unfolding transfer_data
transfer_data-cases null x flash seq bytes resp_size = ground arith

-- Service 0x36 keeps a transfer session well-formed whatever it replies: an active session has a range
-- inside one region, has moved no more than the range, and counts its blocks from 1 to 255.
pub transfer_data-IsValid :
    (null : Bool) (x : Xfer) (flash : Flash) (seq : ℕ) (bytes : Option (List ℕ)) (resp_size : ℕ)
    → IsValid flash.regions x
    → IsValid flash.regions (transfer_data null x flash seq bytes resp_size).1
transfer_data-IsValid null x flash seq bytes resp_size v =
    elim (transfer_data-cases null x flash seq bytes resp_size) [
      | inl same ↦ rw same v
      | inr (busy, inl e) ↦ rw e (
          Moves-IsValid flash.regions x _
            (write_block-Moves x flash seq bytes resp_size v.moved v.in_words (v.counted busy)) v)
      | inr (busy, inr e) ↦ rw e (
          Moves-IsValid flash.regions x _
            (read_block-Moves x flash seq resp_size v.moved v.in_words (v.counted busy)) v)
    ]

-- Service 0x37 keeps the invariant.
pub transfer_exit-IsValid :
    (null : Bool) (regions : List Region) (x : Xfer) (resp_size : ℕ)
    → IsValid regions x
    → IsValid regions (transfer_exit null x resp_size).1
unfolding transfer_exit
transfer_exit-IsValid null regions x resp_size v = elim (exits null x resp_size) [
  | inl same ↦ rw same v
  | inr cleared ↦ rw cleared (xfer_init-IsValid regions)
]
  where
    exits :
        (null : Bool) (x : Xfer) (resp_size : ℕ)
        → ((transfer_exit null x resp_size).1 ≡ x)
          ⊎ ((transfer_exit null x resp_size).1 ≡ xfer_init)
    exits null x resp_size = ground arith
