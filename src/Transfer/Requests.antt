-- ===== src/Transfer/Requests.antt =====
-- src/bootloader/flash_services.c: the session that requests for a download or an upload start lies in the
-- regions of the device.
use uds.Base.{
  ℕ, ◌+◌, ◌^◌, ◌≤◌, ◌<◌, ◌≡◌, ◌≢◌, ◌⊎◌, inl, inr, refl, Bool, true, false, some, List, [], ◌∷◌, All,
  Any, Option-cases, arith,
}
use uds.Flash.{Region, Flash, address_valid, flash_erase, flash_write, flash_max_size}
use uds.Flash.Ranges.{IsInside, InDevice, address_valid_iff}
use uds.Transfer.{
  Xfer, XferMode, xfer_idle, xfer_download, xfer_upload, xfer_init, parse_addr_len_fmt,
  request_download, request_upload, start, max_block_data,
}

-- A session that is active has a range inside one region, has moved no more than the range, and
-- counts its blocks from 1 to 255.
pub record IsValid (regions : List Region) (x : Xfer) : Type 0 where
  pub ranged : x.mode ≢ xfer_idle → Any (λ r. IsInside r x.address x.total_length) regions
  pub moved : x.transferred ≤ x.total_length
  pub counted : x.mode ≢ xfer_idle → (1 ≤ x.block_seq) × (x.block_seq ≤ 255)
  pub bounded : x.mode ≢ xfer_idle → x.max_block_size ≡ max_block_data
  pub in_words : x.total_length < 2 ^ 32

-- A range inside a region that the device holds ends in the device.
pub Any-InDevice :
    (regions : List Region) (address len : ℕ)
    → All InDevice regions
    → Any (λ r. IsInside r address len) regions
    → address + len ≤ flash_max_size
Any-InDevice [] address len a i = absurd i
Any-InDevice (r ∷ regions) address len a (inl i) = omega arith
Any-InDevice (r ∷ regions) address len a (inr i) = Any-InDevice regions address len a.1 i

pub xfer_init-IsValid : (regions : List Region) → IsValid regions xfer_init
unfolding xfer_init
xfer_init-IsValid regions = record {
  ranged = λ h. absurd (h refl);
  moved = omega arith;
  counted = λ h. absurd (h refl);
  bounded = λ h. absurd (h refl);
  in_words = omega arith;
}

start-IsValid :
    (mode : XferMode) (flash : Flash) (address len : ℕ)
    → All InDevice flash.regions
    → address_valid false flash address len ≡ true
    → IsValid flash.regions (start mode address len)
start-IsValid mode flash address len dev v =
    let (pos, i) = (address_valid_iff flash address len).0 v in
    record {
      ranged = λ _. i;
      moved = omega arith;
      counted = λ _. omega arith;
      bounded = λ _. refl;
      in_words = omega (arith, Any-InDevice flash.regions address len dev i);
    }

pub regions-flash_erase :
    (flash : Flash) (address len : ℕ)
    → (flash_erase false flash address len).1.regions ≡ flash.regions
unfolding flash_erase
regions-flash_erase flash address len = ground arith

pub regions-flash_write :
    (flash : Flash) (address : ℕ) (bytes : List ℕ)
    → (flash_write false flash address bytes).1.regions ≡ flash.regions
unfolding flash_write
regions-flash_write flash address bytes = ground arith

-- Services 0x34 and 0x35 leave the session alone, or start one on a range that is valid.
request_download-at :
    (null : Bool) (x : Xfer) (flash : Flash) (fmt : ℕ) (bytes : List ℕ) (resp_size address len : ℕ)
    → parse_addr_len_fmt fmt bytes ≡ some (address, len)
    → ((request_download null x flash fmt bytes resp_size).1 ≡ x)
      ⊎ ((address_valid false flash address len ≡ true)
          × ((request_download null x flash fmt bytes resp_size).1
              ≡ start xfer_download address len))
unfolding request_download
request_download-at null x flash fmt bytes resp_size address len good = ground arith

request_download-cases :
    (null : Bool) (x : Xfer) (flash : Flash) (fmt : ℕ) (bytes : List ℕ) (resp_size : ℕ)
    → ((request_download null x flash fmt bytes resp_size).1 ≡ x)
      ⊎ ((address : ℕ) × (len : ℕ) × (address_valid false flash address len ≡ true)
          × ((request_download null x flash fmt bytes resp_size).1
              ≡ start xfer_download address len))
unfolding request_download
request_download-cases null x flash fmt bytes resp_size =
    elim (Option-cases (parse_addr_len_fmt fmt bytes)) [
      | inl bad ↦ inl (ground (arith, bad))
      | inr ((address, len), good) ↦
          elim (request_download-at null x flash fmt bytes resp_size address len good) [
            | inl same ↦ inl same
            | inr (valid, new) ↦ inr (address, len, valid, new)
          ]
    ]

request_upload-at :
    (null : Bool) (x : Xfer) (flash : Flash) (fmt : ℕ) (bytes : List ℕ) (resp_size address len : ℕ)
    → parse_addr_len_fmt fmt bytes ≡ some (address, len)
    → ((request_upload null x flash fmt bytes resp_size).1 ≡ x)
      ⊎ ((address_valid false flash address len ≡ true)
          × ((request_upload null x flash fmt bytes resp_size).1 ≡ start xfer_upload address len))
unfolding request_upload
request_upload-at null x flash fmt bytes resp_size address len good = ground arith

request_upload-cases :
    (null : Bool) (x : Xfer) (flash : Flash) (fmt : ℕ) (bytes : List ℕ) (resp_size : ℕ)
    → ((request_upload null x flash fmt bytes resp_size).1 ≡ x)
      ⊎ ((address : ℕ) × (len : ℕ) × (address_valid false flash address len ≡ true)
          × ((request_upload null x flash fmt bytes resp_size).1 ≡ start xfer_upload address len))
unfolding request_upload
request_upload-cases null x flash fmt bytes resp_size =
    elim (Option-cases (parse_addr_len_fmt fmt bytes)) [
      | inl bad ↦ inl (ground (arith, bad))
      | inr ((address, len), good) ↦
          elim (request_upload-at null x flash fmt bytes resp_size address len good) [
            | inl same ↦ inl same
            | inr (valid, new) ↦ inr (address, len, valid, new)
          ]
    ]

-- Service 0x34 keeps the invariant.
pub request_download-IsValid :
    (null : Bool) (x : Xfer) (flash : Flash) (fmt : ℕ) (bytes : List ℕ) (resp_size : ℕ)
    → All InDevice flash.regions
    → IsValid flash.regions x
    → IsValid flash.regions (request_download null x flash fmt bytes resp_size).1
request_download-IsValid null x flash fmt bytes resp_size dev v =
    elim (request_download-cases null x flash fmt bytes resp_size) [
      | inl same ↦ rw same v
      | inr (address, len, valid, new) ↦
          rw new (start-IsValid xfer_download flash address len dev valid)
    ]

-- Service 0x35 keeps the invariant.
pub request_upload-IsValid :
    (null : Bool) (x : Xfer) (flash : Flash) (fmt : ℕ) (bytes : List ℕ) (resp_size : ℕ)
    → All InDevice flash.regions
    → IsValid flash.regions x
    → IsValid flash.regions (request_upload null x flash fmt bytes resp_size).1
request_upload-IsValid null x flash fmt bytes resp_size dev v =
    elim (request_upload-cases null x flash fmt bytes resp_size) [
      | inl same ↦ rw same v
      | inr (address, len, valid, new) ↦
          rw new (start-IsValid xfer_upload flash address len dev valid)
    ]
