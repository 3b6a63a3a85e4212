-- ===== src/Transfer/Upload.antt =====
-- src/bootloader/flash_services.c: a whole upload, service 0x35 and then 0x36 until the range is read.
use uds.Base.{
  ℕ, zero, suc, ◌+◌, ◌-◌, ◌*◌, ◌≤◌, ◌<◌, ◌≡◌, ◌⊎◌, inl, inr, refl, ap, ap₂, ◌∙◌, true, false, some,
  List, [], ◌∷◌, ◌++◌, All, arith,
}
use uds.Core.{Reply, positive}
use uds.Flash.{Flash, address_valid, peek}
use uds.Flash.Ranges.{InDevice, address_valid_iff}
use uds.Transfer.{
  Xfer, xfer_idle, xfer_upload, parse_addr_len_fmt, request_upload, start, max_block_data,
}
use uds.Transfer.Requests.{Any-InDevice}
use uds.Transfer.Reading.{
  peek-chunk, IsReading, payload, fetch, chunk, after, read_block_lem, read_block-done,
  transfer_data-upload,
}

fetch_lem :
    (n : ℕ) (x : Xfer) (flash : Flash) (resp_size : ℕ)
    → IsReading x flash
    → x.total_length - x.transferred ≤ 15 * n
    → 17 ≤ resp_size
    → ((fetch n x flash resp_size).0
        ≡ peek flash.cells (x.address + x.transferred) (x.total_length - x.transferred))
      × ((fetch n x flash resp_size).1.transferred ≡ x.total_length)
unfolding fetch peek payload
fetch_lem zero x flash resp_size l enough room =
    let none_left : x.total_length - x.transferred ≡ 0 = omega arith in
    rw none_left (refl, omega (arith, l.moved))
fetch_lem (suc n) x flash resp_size l enough room = elim (more) [
  | inl lt ↦
      let step =
        transfer_data-upload x flash (some []) resp_size l.uploads
        ∙ ap (λ out. (out.0, out.1, flash)) (read_block_lem x flash resp_size l lt room) in
      let rest =
        fetch_lem n (after x) flash resp_size
          (record {
            uploads = l.uploads;
            all_in = l.all_in;
            ranged = l.ranged;
            sized = l.sized;
            moved = ground arith;
          })
          (ground arith) room in
      rw step (
        ap (◌++◌ (peek flash.cells (x.address + x.transferred) (chunk x))) rest.0
            ∙ peek-chunk x flash.cells lt,
        rest.1,
      )
  | inr done ↦
      let step = transfer_data-upload x flash (some []) resp_size l.uploads in
      let stays =
        read_block-done x flash resp_size done
          (omega (arith, Any-InDevice flash.regions x.address x.total_length l.all_in l.ranged))
          room in
      let rest = fetch_lem n x flash resp_size l (omega arith) room in
      rw step (rw stays.1 (ap (λ b. b ++ (fetch n x flash resp_size).0) stays.0 ∙ rest.0, rest.1))
]
  where
    more : (x.transferred < x.total_length) ⊎ (x.transferred ≡ x.total_length)
    more = omega (arith, l.moved)

pub request_upload-valid :
    (x : Xfer) (flash : Flash) (fmt : ℕ) (field : List ℕ) (resp_size address len : ℕ)
    → x.mode ≡ xfer_idle
    → parse_addr_len_fmt fmt field ≡ some (address, len)
    → address_valid false flash address len ≡ true
    → 4 ≤ resp_size
    → request_upload false x flash fmt field resp_size
      ≡ (positive (0x75 ∷ 0x20 ∷ 0x00 ∷ max_block_data ∷ []), start xfer_upload address len)
unfolding request_upload
request_upload-valid x flash fmt field resp_size address len idle good valid room = ground arith

-- An upload: the request, then `n` blocks.
pub upload : ℕ → Xfer → Flash → ℕ → List ℕ → ℕ → Reply × List ℕ × Xfer
upload n x flash fmt field resp_size =
    let (r, x') = request_upload false x flash fmt field resp_size in
    let (bytes, y) = fetch n x' flash resp_size in (r, bytes, y)

-- An upload, from an idle session, of a valid range of a device that holds its regions, with at least
-- as many blocks of 15 bytes as the range needs and a response buffer of 17 bytes: the request is
-- granted, the blocks carry exactly the bytes of the range in order, and the session has then
-- transferred all of it.
pub upload_lem :
    (n : ℕ) (x : Xfer) (flash : Flash) (fmt : ℕ) (field : List ℕ) (resp_size address len : ℕ)
    → x.mode ≡ xfer_idle
    → All InDevice flash.regions
    → parse_addr_len_fmt fmt field ≡ some (address, len)
    → address_valid false flash address len ≡ true
    → len ≤ 15 * n
    → 17 ≤ resp_size
    → let (r, bytes, y) = upload n x flash fmt field resp_size in
      (r ≡ positive (0x75 ∷ 0x20 ∷ 0x00 ∷ 15 ∷ []))
      × (bytes ≡ peek flash.cells address len)
      × (y.transferred ≡ len)
unfolding upload
upload_lem n x flash fmt field resp_size address len idle in_all good valid enough room =
    let e =
      request_upload-valid x flash fmt field resp_size address len idle good valid (omega arith) in
    let l =
      fetch_lem n (start xfer_upload address len) flash resp_size
        (record {
          uploads = refl;
          all_in = in_all;
          ranged = ((address_valid_iff flash address len).0 valid).1;
          sized = refl;
          moved = omega arith;
        })
        (omega arith) room in
    let z : address + 0 ≡ address = omega arith in
    rw e (refl, l.0 ∙ ap₂ (peek flash.cells) z (omega arith), l.1)
