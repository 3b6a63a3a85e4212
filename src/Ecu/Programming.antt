-- ===== src/Ecu/Programming.antt =====
-- A flash programming over src/ecusim/ecusim.c: requests 0x34, 0x36 for each block, and 0x37.
use uds.Base.{
  ◌≢◌, ◌-◌, ◌&&◌, leb, ltb, get_or, get_or-default, if◌then◌else◌, Bool-cases, ℕ, ◌+◌, ◌≤◌, ◌<◌,
  ◌≡◌, ◌⊎◌, inl, inr, sym, ap, ◌∙◌, some, true, false, List, [], ◌∷◌, length, All, arith,
}
use uds.Core.{positive}
use uds.Flash.{Flash, address_valid, peek}
use uds.Flash.Memory.{get_or-peek}
use uds.Flash.Ranges.{InDevice}
use uds.Transfer.{
  Xfer, xfer_idle, xfer_download, xfer_init, parse_addr_len_fmt, request_download, transfer_data,
  transfer_exit, next_seq,
}
use uds.Transfer.Blocks.{IsOpen, IsBlock, send_blocks, joined, acknowledged}
use uds.Transfer.Download.{download, download_lem}
use uds.Ecu.{Ecu, Request, dispatch, handle, service_of, respond}
use uds.Ecu.Invariant.{serve_all}
use uds.Ecu.View.{responses}

-- The requests for the blocks, with counters from `seq` on, and the exit.
unfoldable pub transfers : ℕ → List (List ℕ) → List (List ℕ)
transfers seq [] = (0x37 ∷ []) ∷ []
transfers seq (b ∷ blocks) = (0x36 ∷ seq ∷ b) ∷ transfers (next_seq seq) blocks

-- Their responses when all goes well.
unfoldable pub accepted : ℕ → List (List ℕ) → List (List ℕ)
accepted seq [] = (0x77 ∷ []) ∷ []
accepted seq (b ∷ blocks) = (0x76 ∷ seq ∷ []) ∷ accepted (next_seq seq) blocks

-- The requests have these bytes, and the response buffer of `ecusim_run`.
unfoldable pub Asks : List Request → List (List ℕ) → Type 0
Asks [] [] = Unit
Asks (q ∷ queue) (m ∷ messages) = (q.bytes ≡ m) × (q.resp_size ≡ 4095) × Asks queue messages
Asks queue messages = ⊥

abbrev pub with_xfer : Ecu → Xfer → Flash → Ecu
with_xfer ecu x flash = record ecu { xfer = x; flash = flash }

dispatch-download :
    (ecu : Ecu) (q : Request) (format fmt : ℕ) (field : List ℕ)
    → q.bytes ≡ 0x34 ∷ format ∷ fmt ∷ field
    → q.resp_size ≡ 4095
    → let (r, x, flash) = request_download false ecu.xfer ecu.flash fmt field 4095 in
      dispatch ecu q ≡ (respond 0x34 r, with_xfer ecu x flash)
unfolding dispatch handle service_of
dispatch-download ecu q format fmt field is size = ground (arith, is, size)

pub dispatch-transfer :
    (ecu : Ecu) (q : Request) (seq : ℕ) (block : List ℕ)
    → q.bytes ≡ 0x36 ∷ seq ∷ block
    → q.resp_size ≡ 4095
    → let (r, x, flash) = transfer_data false ecu.xfer ecu.flash seq (some block) 4095 in
      dispatch ecu q ≡ (respond 0x36 r, with_xfer ecu x flash)
unfolding dispatch handle service_of
dispatch-transfer ecu q seq block is size = ground (arith, is, size)

pub dispatch-exit :
    (ecu : Ecu) (q : Request)
    → q.bytes ≡ 0x37 ∷ []
    → q.resp_size ≡ 4095
    → ecu.xfer.mode ≢ xfer_idle
    → dispatch ecu q ≡ (0x77 ∷ [], with_xfer ecu xfer_init ecu.flash)
unfolding dispatch handle service_of transfer_exit
dispatch-exit ecu q is size busy = ground (arith, is, size, busy)

-- The blocks and the exit, where the services acknowledge every block.
transfers_lem :
    (blocks : List (List ℕ)) (queue : List Request) (seq : ℕ) (ecu : Ecu)
    → Asks queue (transfers seq blocks)
    → (send_blocks seq blocks ecu.xfer ecu.flash 4095).0 ≡ acknowledged seq blocks
    → (send_blocks seq blocks ecu.xfer ecu.flash 4095).1.mode ≡ xfer_download
    → (serve_all queue ecu
        ≡ with_xfer ecu xfer_init (send_blocks seq blocks ecu.xfer ecu.flash 4095).2)
      × (responses queue ecu ≡ accepted seq blocks)
unfolding serve_all Asks transfers accepted send_blocks acknowledged
transfers_lem [] [] seq ecu asks acks downloads = absurd asks
transfers_lem [] (q ∷ q' ∷ queue) seq ecu asks acks downloads = absurd asks.2
transfers_lem [] (q ∷ []) seq ecu asks acks downloads =
    let step = dispatch-exit ecu q asks.0 asks.1 (λ idle. cc) in
    (ap (λ p. p.1) step, ap (λ p. p.0 ∷ []) step)
transfers_lem (b ∷ blocks) [] seq ecu asks acks downloads = absurd asks
transfers_lem (b ∷ blocks) (q ∷ queue) seq ecu asks acks downloads =
    let (r, x, flash) = transfer_data false ecu.xfer ecu.flash seq (some b) 4095 in
    let first : r ≡ positive (0x76 ∷ seq ∷ []) = cc in
    let others : (send_blocks (next_seq seq) blocks x flash 4095).0
        ≡ acknowledged (next_seq seq) blocks =
      cc in
    let step : dispatch ecu q ≡ (0x76 ∷ seq ∷ [], with_xfer ecu x flash) =
      dispatch-transfer ecu q seq b asks.0 asks.1
      ∙ ap (λ p. (respond 0x36 p, with_xfer ecu x flash)) first in
    let (after, all) =
      transfers_lem blocks queue (next_seq seq) (with_xfer ecu x flash) asks.2 others downloads in
    rw step (after, ap (λ l. (0x76 ∷ seq ∷ []) ∷ l) all)

-- The requests of a programming: 0x34 with the fields for address and length, the blocks, and the exit.
abbrev pub programming : ℕ → ℕ → List ℕ → List (List ℕ) → List (List ℕ)
programming format fmt field blocks = (0x34 ∷ format ∷ fmt ∷ field) ∷ transfers 0x01 blocks

-- The device with `bytes` at `address`, erased behind them up to `len`.
abbrev pub image : ℕ → ℕ → List ℕ → (ℕ → ℕ) → ℕ → ℕ
image address len bytes cells a =
    if leb address a && ltb a (address + len) then get_or bytes (a - address) 0xFF else cells a

image_lem :
    (address len : ℕ) (bytes : List ℕ) (cells out : ℕ → ℕ)
    → length bytes ≤ len
    → peek out address (length bytes) ≡ bytes
    → ((a : ℕ) → address + length bytes ≤ a → a < address + len → out a ≡ 0xFF)
    → ((a : ℕ) → (a < address) ⊎ (address + len ≤ a) → out a ≡ cells a)
    → (a : ℕ) → out a ≡ image address len bytes cells a
image_lem address len bytes cells out fits here erased outside a =
    elim (Bool-cases (leb address a && ltb a (address + len))) [
      | inr out_of ↦ rw out_of (outside a (ground (arith, out_of)))
      | inl within ↦
          let lo : address ≤ a = ground (arith, within) in
          let at : address + (a - address) ≡ a = omega arith in
          rw within (elim (Bool-cases (ltb (a - address) (length bytes))) [
            | inl covered ↦
                ap out (sym at)
                ∙ get_or-peek out bytes address (a - address) 0xFF here (ground (arith, covered))
            | inr behind ↦
                erased a (ground (arith, behind)) (ground (arith, within))
                ∙ sym (get_or-default bytes (a - address) 0xFF (ground (arith, behind)))
          ])
    ]

-- A programming of an idle simulator whose regions are not protected and lie in the device, with blocks
-- that are not empty and fit a valid range together: every response is the positive one, and the flash
-- holds the bytes of the blocks from the address on, is erased behind them up to the end of the range, and
-- is what it was elsewhere. The simulator is idle again, and the regions are the same.
pub serve_all-programming :
    (ecu : Ecu) (queue : List Request) (format fmt : ℕ) (field : List ℕ) (blocks : List (List ℕ))
    (address len : ℕ)
    → Asks queue (programming format fmt field blocks)
    → ecu.xfer.mode ≡ xfer_idle
    → All IsOpen ecu.flash.regions
    → All InDevice ecu.flash.regions
    → parse_addr_len_fmt fmt field ≡ some (address, len)
    → address_valid false ecu.flash address len ≡ true
    → All IsBlock blocks
    → length (joined blocks) ≤ len
    → let out = serve_all queue ecu in
      (responses queue ecu ≡ (0x74 ∷ 0x20 ∷ 0x00 ∷ 15 ∷ []) ∷ accepted 0x01 blocks)
      × ((a : ℕ) → out.flash.cells a ≡ image address len (joined blocks) ecu.flash.cells a)
      × (out.xfer ≡ xfer_init)
      × (out.flash.regions ≡ ecu.flash.regions)
unfolding Asks serve_all download
serve_all-programming ecu [] format fmt field blocks address len asks idle open_all in_all good
      valid full fits =
    absurd asks
serve_all-programming ecu (q ∷ queue) format fmt field blocks address len asks idle open_all in_all
      good valid full fits =
    let (r, x, flash) = request_download false ecu.xfer ecu.flash fmt field 4095 in
    let (positive_r, acks, here, erased, outside, downloads, regions) =
      download_lem ecu.xfer ecu.flash fmt field blocks 4095 address len idle open_all in_all good
        valid full fits (omega arith) in
    let step : dispatch ecu q ≡ (0x74 ∷ 0x20 ∷ 0x00 ∷ 15 ∷ [], with_xfer ecu x flash) =
      dispatch-download ecu q format fmt field asks.0 asks.1
      ∙ ap (λ p. (respond 0x34 p, with_xfer ecu x flash)) positive_r in
    let (after, all) =
      transfers_lem blocks queue 0x01 (with_xfer ecu x flash) asks.2 acks downloads in
    let reached = ap (λ p. serve_all queue p.1) step ∙ after in
    (
      ap (λ p. p.0 ∷ responses queue p.1) step ∙ ap (λ l. (0x74 ∷ 0x20 ∷ 0x00 ∷ 15 ∷ []) ∷ l) all,
      λ a.
          ap (λ e. e.flash.cells a) reached
          ∙ image_lem address len (joined blocks) ecu.flash.cells
              (send_blocks 0x01 blocks x flash 4095).2.cells fits here erased outside a,
      ap (λ e. e.xfer) reached,
      ap (λ e. e.flash.regions) reached ∙ regions,
    )
