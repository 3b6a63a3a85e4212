-- ===== src/Transfer/Download.antt =====
-- src/bootloader/flash_services.c: a whole download, service 0x34 and then one 0x36 for each block.
use uds.Base.{
  ℕ, ◌+◌, ◌≤◌, ◌<◌, ◌≡◌, ◌⊎◌, inl, inr, refl, sym, ap, ◌∙◌, true, false, some, List, [], ◌∷◌,
  length, All, Option-cases, arith,
}
use uds.Core.{Reply, positive}
use uds.Flash.{Flash, ok, find_region, address_valid, flash_erase, fill, peek}
use uds.Flash.Ranges.{InDevice, address_valid_iff, find_region-All, find_region-Any}
use uds.Transfer.{
  Xfer, xfer_idle, xfer_download, parse_addr_len_fmt, request_download, start, max_block_data,
}
use uds.Transfer.Blocks.{IsOpen, IsBlock, send_blocks, send_blocks-Loaded, joined, acknowledged}

flash_erase-open :
    (flash : Flash) (address len : ℕ)
    → All IsOpen flash.regions
    → address_valid false flash address len ≡ true
    → flash_erase false flash address len
      ≡ (ok, record flash { cells = fill flash.cells address len })
unfolding flash_erase
flash_erase-open flash address len open_all valid =
    let (pos, i) = (address_valid_iff flash address len).0 valid in
    elim (Option-cases (find_region flash.regions address len)) [
      | inl missing ↦ absurd ((find_region-Any flash.regions address len).1 i missing)
      | inr (r, found) ↦
          ground
            (arith, pos, found, find_region-All IsOpen flash.regions address len r open_all found)
    ]

request_download-open :
    (x : Xfer) (flash : Flash) (fmt : ℕ) (field : List ℕ) (resp_size address len : ℕ)
    → x.mode ≡ xfer_idle
    → All IsOpen flash.regions
    → parse_addr_len_fmt fmt field ≡ some (address, len)
    → address_valid false flash address len ≡ true
    → 4 ≤ resp_size
    → request_download false x flash fmt field resp_size ≡ (
      positive (0x74 ∷ 0x20 ∷ 0x00 ∷ max_block_data ∷ []),
      start xfer_download address len,
      record flash { cells = fill flash.cells address len },
    )
unfolding request_download
request_download-open x flash fmt field resp_size address len idle open_all good valid room =
    ground (arith, flash_erase-open flash address len open_all valid)

-- A download: the request, then the blocks with counters from 1 on.
unfoldable pub download :
    Xfer → Flash → ℕ → List ℕ → List (List ℕ) → ℕ → Reply × List Reply × Xfer × Flash
download x flash fmt field blocks resp_size =
    let (r, x', flash') = request_download false x flash fmt field resp_size in
    let (rs, y, dev) = send_blocks 0x01 blocks x' flash' resp_size in (r, rs, y, dev)

-- A download, from an idle session, into a valid range of a device that holds its regions and has none
-- protected, of blocks that are not empty and fit the range together, with a response buffer of 4
-- bytes: the request and every block are acknowledged, the bytes of the blocks stand one after the
-- other from the address on, the rest of the range is erased, no byte outside the range and no region has
-- changed, and the session still downloads.
pub download_lem :
    (x : Xfer) (flash : Flash) (fmt : ℕ) (field : List ℕ) (blocks : List (List ℕ))
    (resp_size address len : ℕ)
    → x.mode ≡ xfer_idle
    → All IsOpen flash.regions
    → All InDevice flash.regions
    → parse_addr_len_fmt fmt field ≡ some (address, len)
    → address_valid false flash address len ≡ true
    → All IsBlock blocks
    → length (joined blocks) ≤ len
    → 4 ≤ resp_size
    → let (r, rs, y, dev) = download x flash fmt field blocks resp_size in
      (r ≡ positive (0x74 ∷ 0x20 ∷ 0x00 ∷ 15 ∷ []))
      × (rs ≡ acknowledged 0x01 blocks)
      × (peek dev.cells address (length (joined blocks)) ≡ joined blocks)
      × ((a : ℕ) → address + length (joined blocks) ≤ a → a < address + len → dev.cells a ≡ 0xFF)
      × ((a : ℕ) → (a < address) ⊎ (address + len ≤ a) → dev.cells a ≡ flash.cells a)
      × (y.mode ≡ xfer_download)
      × (dev.regions ≡ flash.regions)
unfolding download
download_lem x flash fmt field blocks resp_size address len idle open_all in_all good valid full
      fits room =
    let e =
      request_download-open x flash fmt field resp_size address len idle open_all good valid room in
    let erased : Flash = record flash { cells = fill flash.cells address len } in
    let l =
      send_blocks-Loaded blocks (start xfer_download address len) erased resp_size
        (record {
          downloads = refl;
          all_open = open_all;
          all_in = in_all;
          ranged = ((address_valid_iff flash address len).0 valid).1;
        })
        full (omega arith) (omega arith) in
    let z : address + 0 ≡ address = omega arith in
    rw e (
      refl,
      l.replies,
      ap
            (λ c.
              peek
                (send_blocks 0x01 blocks (start xfer_download address len) erased resp_size).2.cells
                c (length (joined blocks)))
            (sym z)
          ∙ l.bytes,
      λ a lo hi. l.above a (omega arith) ∙ ground arith,
      λ a out. elim out [
        | inl lt ↦ l.below a (omega arith) ∙ ground arith
        | inr ge ↦ l.above a (omega arith) ∙ ground arith
      ],
      l.downloads,
      l.regions,
    )
