-- ===== src/Transfer/Reading.antt =====
-- src/bootloader/flash_services.c, the upload branch of uds_svc_transfer_data: one block.
use uds.Base.{
  ap, sym, ◌∙◌, ℕ, zero, suc, ◌+◌, ◌-◌, ◌%◌, ◌^◌, ◌≤◌, ◌<◌, ◌≡◌, inl, inr, false, Option, some,
  List, [], ◌∷◌, ◌++◌, drop, All, Any, Option-cases, arith, ltb, if◌then◌else◌,
}
use uds.Core.{Reply, positive, negative, err_param, err_buf}
use uds.Flash.{Flash, ok, find_region, flash_read, flash_max_size, peek}
use uds.Flash.Ranges.{IsInside, InDevice, find_region-Any}
use uds.Transfer.{Xfer, xfer_upload, read_block, transfer_data, next_seq, remaining, max_block_data}
use uds.Flash.Memory.{peek-add}
use uds.Transfer.Requests.{Any-InDevice}
use uds.Transfer.Blocks.{Any-part}

-- An upload in progress.
pub record IsReading (x : Xfer) (flash : Flash) : Type 0 where
  pub uploads : x.mode ≡ xfer_upload
  pub all_in : All InDevice flash.regions
  pub ranged : Any (λ r. IsInside r x.address x.total_length) flash.regions
  pub sized : x.max_block_size ≡ max_block_data
  pub moved : x.transferred ≤ x.total_length

-- The bytes of a positive response after the service byte and the counter.
unfoldable pub payload : Reply → List ℕ
payload (positive bytes) = drop 2 bytes
payload (negative nrc) = []
payload err_param = []
payload err_buf = []

-- A tester asks for `n` blocks, each with the counter that the session expects, and keeps the data.
unfoldable pub fetch : ℕ → Xfer → Flash → ℕ → List ℕ × Xfer
unfolding payload
fetch zero x flash resp_size = ([], x)
fetch (suc n) x flash resp_size =
    let (r, x', flash') = transfer_data false x flash x.block_seq (some []) resp_size in
    let (bytes, y) = fetch n x' flash' resp_size in (payload r ++ bytes, y)

-- The number of bytes that the next block has.
abbrev pub chunk : Xfer → ℕ
chunk x = if ltb (x.total_length - x.transferred) 15 then x.total_length - x.transferred else 15

flash_read_lem :
    (flash : Flash) (address n : ℕ)
    → All InDevice flash.regions
    → 0 < n
    → Any (λ r. IsInside r address n) flash.regions
    → flash_read false flash address n ≡ (ok, peek flash.cells address n)
unfolding flash_read
flash_read_lem flash address n dev pos i =
    elim (Option-cases (find_region flash.regions address n)) [
      | inl missing ↦ absurd ((find_region-Any flash.regions address n).1 i missing)
      | inr (r, found) ↦
          let small = Any-InDevice flash.regions address n dev i in
          let e : n % 2 ^ 32 ≡ n = omega (arith, small) in ground (arith, e, found)
    ]

-- The session after a block.
abbrev pub after : Xfer → Xfer
after x = record x { transferred = x.transferred + chunk x; block_seq = next_seq x.block_seq }

pub read_block_lem :
    (x : Xfer) (flash : Flash) (resp_size : ℕ)
    → IsReading x flash
    → x.transferred < x.total_length
    → 17 ≤ resp_size
    → read_block x flash x.block_seq resp_size ≡ (
      positive (0x76 ∷ x.block_seq ∷ peek flash.cells (x.address + x.transferred) (chunk x)),
      after x,
    )
unfolding read_block
read_block_lem x flash resp_size l more room =
    let max = l.sized in ground (arith, bound, read, left, cut)
  where
    bound : x.address + x.total_length ≤ flash_max_size
    bound = Any-InDevice flash.regions x.address x.total_length l.all_in l.ranged

    left : remaining x ≡ x.total_length - x.transferred
    left = omega (arith, bound)

    cut : chunk x ≤ 15
    cut = ground arith

    sum : (x.address + x.transferred) % 2 ^ 32 ≡ x.address + x.transferred
    sum = omega (arith, bound)

    read :
        flash_read false flash ((x.address + x.transferred) % 2 ^ 32) (chunk x)
        ≡ (ok, peek flash.cells (x.address + x.transferred) (chunk x))
    read = rw sum (
        flash_read_lem flash (x.address + x.transferred) (chunk x) l.all_in (ground arith) (
          Any-part flash.regions x.address x.total_length (x.address + x.transferred) (chunk x)
            (omega arith) (ground arith) (ground arith) l.ranged))

-- A session whose range is read refuses the next block and stays.
pub read_block-done :
    (x : Xfer) (flash : Flash) (resp_size : ℕ)
    → x.transferred ≡ x.total_length
    → x.total_length < 2 ^ 32
    → 17 ≤ resp_size
    → (payload (read_block x flash x.block_seq resp_size).0 ≡ [])
      × ((read_block x flash x.block_seq resp_size).1 ≡ x)
unfolding read_block flash_read payload
read_block-done x flash resp_size done small room = ground arith

pub transfer_data-upload :
    (x : Xfer) (flash : Flash) (bytes : Option (List ℕ)) (resp_size : ℕ)
    → x.mode ≡ xfer_upload
    → transfer_data false x flash x.block_seq bytes resp_size ≡ (
      (read_block x flash x.block_seq resp_size).0,
      (read_block x flash x.block_seq resp_size).1,
      flash,
    )
unfolding transfer_data
transfer_data-upload x flash bytes resp_size m = ground arith

-- A block and what is left behind it.
pub peek-chunk :
    (x : Xfer) (cells : ℕ → ℕ)
    → x.transferred < x.total_length
    → let y = after x in
      peek cells (x.address + x.transferred) (chunk x)
        ++ peek cells (y.address + y.transferred) (y.total_length - y.transferred)
      ≡ peek cells (x.address + x.transferred) (x.total_length - x.transferred)
peek-chunk x cells more =
    let left : ℕ = x.total_length - (x.transferred + chunk x) in
    let parts : chunk x + left ≡ x.total_length - x.transferred = ground arith in
    let next : x.address + (x.transferred + chunk x) ≡ x.address + x.transferred + chunk x =
      omega arith in
    ap (λ a. peek cells (x.address + x.transferred) (chunk x) ++ peek cells a left) next
    ∙ sym (peek-add cells (x.address + x.transferred) (chunk x) left)
    ∙ ap (peek cells (x.address + x.transferred)) parts
