-- ===== src/Ecu/Readback.antt =====
-- A flash range read over src/ecusim/ecusim.c: requests 0x35, 0x36 for each block, and 0x37; and a programming
-- that is read back.
use mathlib.Core.Path.{subst}
use uds.Base.{
  Any, ℕ, zero, suc, ◌+◌, ◌-◌, ◌*◌, ◌≤◌, ◌<◌, ◌≡◌, refl, sym, ap, ap₂, ◌∙◌, some, true, false, List,
  [], ◌∷◌, ◌++◌, length, drop, pad, All, arith,
}
use uds.Flash.{address_valid, peek}
use uds.Flash.Ranges.{IsInside, InDevice, address_valid_iff}
use uds.Flash.Memory.{peek-pad}
use uds.Transfer.{
  Xfer, xfer_idle, xfer_upload, xfer_init, parse_addr_len_fmt, request_upload, start, next_seq,
}
use uds.Transfer.Blocks.{IsOpen, IsBlock, joined}
use uds.Transfer.Reading.{IsReading, chunk, after, read_block_lem, transfer_data-upload, peek-chunk}
use uds.Transfer.Upload.{request_upload-valid}
use uds.Ecu.{Ecu, Request, dispatch, handle, service_of, respond}
use uds.Ecu.Invariant.{serve_all}
use uds.Ecu.View.{responses}
use uds.Ecu.Programming.{
  Asks, with_xfer, dispatch-transfer, dispatch-exit, programming, serve_all-programming,
}

-- The requests for `n` blocks, with counters from `seq` on, and the exit.
unfoldable pub fetches : ℕ → ℕ → List (List ℕ)
fetches seq zero = (0x37 ∷ []) ∷ []
fetches seq (suc n) = (0x36 ∷ seq ∷ []) ∷ fetches (next_seq seq) n

-- The requests that read a range in `n` blocks.
abbrev pub readout : ℕ → ℕ → List ℕ → ℕ → List (List ℕ)
readout format fmt field n = (0x35 ∷ format ∷ fmt ∷ field) ∷ fetches 0x01 n

-- What the responses carry behind the service byte and the counter.
unfoldable pub payloads : List (List ℕ) → List ℕ
payloads [] = []
payloads (r ∷ rest) = drop 2 r ++ payloads rest

dispatch-upload :
    (ecu : Ecu) (q : Request) (format fmt : ℕ) (field : List ℕ)
    → q.bytes ≡ 0x35 ∷ format ∷ fmt ∷ field
    → q.resp_size ≡ 4095
    → let (r, x) = request_upload false ecu.xfer ecu.flash fmt field 4095 in
      dispatch ecu q ≡ (respond 0x35 r, with_xfer ecu x ecu.flash)
unfolding dispatch handle service_of
dispatch-upload ecu q format fmt field is size = ground (arith, is, size)

fetches_lem :
    (n : ℕ) (queue : List Request) (ecu : Ecu)
    → IsReading ecu.xfer ecu.flash
    → Asks queue (fetches ecu.xfer.block_seq n)
    → ecu.xfer.total_length - ecu.xfer.transferred ≤ 15 * n
    → 15 * n < ecu.xfer.total_length - ecu.xfer.transferred + 15
    → (serve_all queue ecu ≡ with_xfer ecu xfer_init ecu.flash)
      × (payloads (responses queue ecu)
          ≡ peek ecu.flash.cells
              (ecu.xfer.address + ecu.xfer.transferred)
              (ecu.xfer.total_length - ecu.xfer.transferred))
unfolding serve_all Asks fetches payloads peek
fetches_lem zero [] ecu l asks enough tight = absurd asks
fetches_lem zero (q ∷ q' ∷ queue) ecu l asks enough tight = absurd asks.2
fetches_lem zero (q ∷ []) ecu l asks enough tight =
    let none_left : ecu.xfer.total_length - ecu.xfer.transferred ≡ 0 = omega arith in
    let uploads = l.uploads in
    let step = dispatch-exit ecu q asks.0 asks.1 (λ idle. cc) in
    rw none_left (ap (λ p. p.1) step, ap (λ p. drop 2 p.0 ++ []) step)
fetches_lem (suc n) [] ecu l asks enough tight = absurd asks
fetches_lem (suc n) (q ∷ queue) ecu l asks enough tight =
    let x = ecu.xfer in
    let lt : x.transferred < x.total_length = omega arith in
    let block : List ℕ = peek ecu.flash.cells (x.address + x.transferred) (chunk x) in
    let served =
      transfer_data-upload x ecu.flash (some []) 4095 l.uploads
      ∙ ap (λ out. (out.0, out.1, ecu.flash))
          (read_block_lem x ecu.flash 4095 l lt (omega arith)) in
    let step : dispatch ecu q ≡ (0x76 ∷ x.block_seq ∷ block, with_xfer ecu (after x) ecu.flash) =
      dispatch-transfer ecu q x.block_seq [] asks.0 asks.1
      ∙ ap (λ p. (respond 0x36 p.0, with_xfer ecu p.1 p.2)) served in
    let (end, bytes) =
      fetches_lem n queue (with_xfer ecu (after x) ecu.flash)
        (record {
          uploads = l.uploads;
          all_in = l.all_in;
          ranged = l.ranged;
          sized = l.sized;
          moved = ground arith;
        })
        asks.2 (ground arith) (ground arith) in
    rw step (end, ap (λ b. block ++ b) bytes ∙ peek-chunk x ecu.flash.cells lt)

-- An idle simulator whose regions lie in the device, asked to read a valid range in as many blocks of 15
-- bytes as it takes: the responses behind the first carry the bytes of the range in order, the simulator is
-- idle again, and nothing else has changed.
pub serve_all-readout :
    (ecu : Ecu) (queue : List Request) (format fmt : ℕ) (field : List ℕ) (n address len : ℕ)
    → Asks queue (readout format fmt field n)
    → ecu.xfer.mode ≡ xfer_idle
    → All InDevice ecu.flash.regions
    → parse_addr_len_fmt fmt field ≡ some (address, len)
    → address_valid false ecu.flash address len ≡ true
    → len ≤ 15 * n
    → 15 * n < len + 15
    → (payloads (drop 1 (responses queue ecu)) ≡ peek ecu.flash.cells address len)
      × (serve_all queue ecu ≡ with_xfer ecu xfer_init ecu.flash)
unfolding Asks serve_all
serve_all-readout ecu [] format fmt field n address len asks idle in_all good valid enough tight =
    absurd asks
serve_all-readout ecu (q ∷ queue) format fmt field n address len asks idle in_all good valid enough
      tight =
    let x : Xfer = start xfer_upload address len in
    let granted =
      request_upload-valid ecu.xfer ecu.flash fmt field 4095 address len idle good valid
        (omega arith) in
    let step : dispatch ecu q ≡ (0x75 ∷ 0x20 ∷ 0x00 ∷ 15 ∷ [], with_xfer ecu x ecu.flash) =
      dispatch-upload ecu q format fmt field asks.0 asks.1
      ∙ ap (λ p. (respond 0x35 p.0, with_xfer ecu p.1 ecu.flash)) granted in
    let (end, bytes) =
      fetches_lem n queue (with_xfer ecu x ecu.flash)
        (record {
          uploads = refl;
          all_in = in_all;
          ranged = ((address_valid_iff ecu.flash address len).0 valid).1;
          sized = refl;
          moved = omega arith;
        })
        asks.2 (omega arith) (omega arith) in
    let z : address + 0 ≡ address = omega arith in
    (
      ap (λ p. payloads (responses queue p.1)) step
          ∙ bytes
          ∙ ap₂ (peek ecu.flash.cells) z (omega arith),
      ap (λ p. serve_all queue p.1) step ∙ end,
    )

-- What is programmed is what is read back, with the response buffer of ecusim_run: of an idle simulator
-- whose regions are not protected and lie in the device, a valid range is programmed with blocks that are
-- not empty and fit it together, and then read in as many blocks of 15 bytes as it takes. The responses to
-- the reading, behind the first, carry the bytes of the programmed blocks, filled up with 0xFF to the
-- length of the range.
pub serve_all-readback :
    (ecu : Ecu) (queue queue' : List Request) (format format' fmt : ℕ) (field : List ℕ)
    (blocks : List (List ℕ)) (n address len : ℕ)
    → Asks queue (programming format fmt field blocks)
    → Asks queue' (readout format' fmt field n)
    → ecu.xfer.mode ≡ xfer_idle
    → All IsOpen ecu.flash.regions
    → All InDevice ecu.flash.regions
    → parse_addr_len_fmt fmt field ≡ some (address, len)
    → address_valid false ecu.flash address len ≡ true
    → All IsBlock blocks
    → length (joined blocks) ≤ len
    → len ≤ 15 * n
    → 15 * n < len + 15
    → payloads (drop 1 (responses queue' (serve_all queue ecu))) ≡ pad len 0xFF (joined blocks)
unfolding xfer_init
serve_all-readback ecu queue queue' format format' fmt field blocks n address len asks asks' idle
      open_all in_all good valid full fits enough tight =
    let (_, cells, ended, regions) =
      serve_all-programming ecu queue format fmt field blocks address len asks idle open_all in_all
        good valid full fits in
    let out : Ecu = serve_all queue ecu in
    let (pos, inside) = (address_valid_iff ecu.flash address len).0 valid in
    let valid' : address_valid false out.flash address len ≡ true =
      (address_valid_iff out.flash address len).1
        (pos, subst (λ r. Any (λ s. IsInside s address len) r) (sym regions) inside) in
    let (bytes, _) =
      serve_all-readout out queue' format' fmt field n address len asks' (ap (λ x. x.mode) ended)
        (subst (All InDevice) (sym regions) in_all) good valid' enough tight in
    bytes
    ∙ peek-pad out.flash.cells (joined blocks) address len 0xFF (λ i lt.
      let e : address + i - address ≡ i = omega arith in cells (address + i) ∙ rw e (ground arith))
