-- ===== src/Ecu/Firmware.antt =====
-- A flash programming over ISO-TP: the loop of src/ecusim/ecusim.c with a tester that programs the flash.
use mathlib.Core.Path.{subst}
use uds.Base.{
  ℕ, ◌≤◌, ◌<◌, ◌≡◌, refl, sym, ap, ap₂, ◌∙◌, some, true, false, List, [], ◌∷◌, ◌++◌, length, map,
  All,
}
use uds.Can.{CanFrame, Bus, Arrival}
use uds.Flash.{address_valid}
use uds.Flash.Ranges.{InDevice}
use uds.Tp.{TpConfig}
use uds.Tp.Segments.{segment, arriving}
use uds.Tp.Delivery.{answers}
use uds.Tp.Due.{IsDue}
use uds.Transfer.{xfer_idle, xfer_init, parse_addr_len_fmt}
use uds.Transfer.Blocks.{IsOpen, IsBlock, joined}
use uds.Ecu.{Ecu, dispatch}
use uds.Ecu.Loop.{tp_cfg}
use uds.Ecu.Run.{run}
use uds.Ecu.Dialogue.{Exchange, IsExchange, asks, asked, answered, replies, run-answers}
use uds.Ecu.Steady.{dispatch-resp_can_id}
use uds.Ecu.View.{responses}
use uds.Ecu.Programming.{Asks, programming, accepted, image, serve_all-programming}

-- The frames of a tester that sends these messages and receives these responses.
unfoldable pub script :
    ℕ → TpConfig → List (List ℕ) → List (List ℕ) → List (Arrival CanFrame) → List (Arrival CanFrame)
script can_id cfg (m ∷ messages) (r ∷ rest) later =
    arriving 16 (segment can_id m)
    ++ (arriving 16 (answers cfg can_id r) ++ script can_id cfg messages rest later)
script can_id cfg messages rest later = later

-- The frames of the simulator for the same messages and responses.
unfoldable pub transcript : ℕ → List (List ℕ) → List (List ℕ) → List CanFrame
transcript tx_id (m ∷ messages) (r ∷ rest) =
    answers tp_cfg tx_id m ++ (replies tx_id r ++ transcript tx_id messages rest)
transcript tx_id messages rest = []

asked-script :
    (exchanges : List Exchange) (ecu : Ecu) (can_id : ℕ) (cfg : TpConfig)
    (later : List (Arrival CanFrame))
    → asked can_id cfg exchanges ecu later
      ≡ script can_id cfg
          (map (λ x. x.message) exchanges)
          (responses (map asks exchanges) ecu)
          later
unfolding asked script
asked-script [] ecu can_id cfg later = refl
asked-script (x ∷ exchanges) ecu can_id cfg later =
    ap
      (λ l.
        arriving 16 (segment can_id x.message)
        ++ (arriving 16 (answers cfg can_id (dispatch ecu (asks x)).0) ++ l))
      (asked-script exchanges (dispatch ecu (asks x)).1 can_id cfg later)

answered-transcript :
    (exchanges : List Exchange) (ecu : Ecu)
    → answered exchanges ecu
      ≡ transcript ecu.resp_can_id
          (map (λ x. x.message) exchanges)
          (responses (map asks exchanges) ecu)
unfolding answered transcript
answered-transcript [] ecu = refl
answered-transcript (x ∷ exchanges) ecu =
    let (response, ecu') = dispatch ecu (asks x) in
    let messages = map (λ x. x.message) exchanges in
    let rest = responses (map asks exchanges) ecu' in
    let id : ecu'.resp_can_id ≡ ecu.resp_can_id = dispatch-resp_can_id ecu (asks x) in
    ap (λ l. answers tp_cfg ecu.resp_can_id x.message ++ (replies ecu'.resp_can_id response ++ l))
      (answered-transcript exchanges ecu')
    ∙ ap
        (λ i.
          answers tp_cfg ecu.resp_can_id x.message
          ++ (replies i response ++ transcript i messages rest))
        id

Asks-map : (exchanges : List Exchange) → Asks (map asks exchanges) (map (λ x. x.message) exchanges)
unfolding Asks
Asks-map [] = tt
Asks-map (x ∷ exchanges) = (refl, refl, Asks-map exchanges)

-- A tester that programs the flash of a running, idle simulator over ISO-TP, on a socket that works: its
-- regions are not protected and lie in the device, its block size is a byte, the blocks are not empty, fit
-- a valid range together and each fits a message, and nothing calls ecusim_stop. The tester sends the
-- frames of the requests, and the flow control for the positive responses. Then the simulator has sent the
-- flow control for the requests and the frames of the positive responses, and nothing else; the flash
-- holds the bytes of the blocks, is erased behind them up to the end of the range, and is what it was
-- elsewhere; the transfer session is idle again; and of what is due at the socket only what comes later is
-- left.
pub run-programming :
    (exchanges : List Exchange) (ecu : Ecu) (bus : Bus CanFrame) (can_id : ℕ) (cfg : TpConfig)
    (later : List (Arrival CanFrame)) (format fmt : ℕ) (field : List ℕ) (blocks : List (List ℕ))
    (address len : ℕ)
    → map (λ x. x.message) exchanges ≡ programming format fmt field blocks
    → All IsExchange exchanges
    → ecu.running ≡ true
    → ecu.xfer.max_block_size < 256
    → ecu.xfer.mode ≡ xfer_idle
    → All IsOpen ecu.flash.regions
    → All InDevice ecu.flash.regions
    → parse_addr_len_fmt fmt field ≡ some (address, len)
    → address_valid false ecu.flash address len ≡ true
    → All IsBlock blocks
    → length (joined blocks) ≤ len
    → IsDue
        (script can_id cfg
          (programming format fmt field blocks)
          ((0x74 ∷ 0x20 ∷ 0x00 ∷ 15 ∷ []) ∷ accepted 0x01 blocks)
          later)
        bus
    → let (out, bus') = run (map (λ x. x.turn) exchanges) ecu bus in
      ((a : ℕ) → out.flash.cells a ≡ image address len (joined blocks) ecu.flash.cells a)
      × (out.xfer ≡ xfer_init)
      × (bus'.sent
          ≡ bus.sent
            ++ transcript ecu.resp_can_id
                (programming format fmt field blocks)
                ((0x74 ∷ 0x20 ∷ 0x00 ∷ 15 ∷ []) ∷ accepted 0x01 blocks))
      × IsDue later bus'
run-programming exchanges ecu bus can_id cfg later format fmt field blocks address len is ok on
      small idle open_all in_all good valid full fits due =
    let queue = map asks exchanges in
    let messages = programming format fmt field blocks in
    let (all, cells, ended, _) =
      serve_all-programming ecu queue format fmt field blocks address len
        (subst (Asks queue) is (Asks-map exchanges)) idle open_all in_all good valid full fits in
    let due' =
      subst (λ l. IsDue l bus)
        (sym (
          asked-script exchanges ecu can_id cfg later
          ∙ ap₂ (λ m r. script can_id cfg m r later) is all))
        due in
    let (out, sent, end) = run-answers exchanges ecu bus can_id cfg later ok on small due' in
    (
      λ a. ap (λ e. e.flash.cells a) out ∙ cells a,
      ap (λ e. e.xfer) out ∙ ended,
      sent
          ∙ ap (λ l. bus.sent ++ l)
              (answered-transcript exchanges ecu ∙ ap₂ (transcript ecu.resp_can_id) is all),
      end,
    )
