-- ===== src/Ecu/Dialogue.antt =====
-- ecusim_run of src/ecusim/ecusim.c in a dialogue with a tester.
use uds.Base.{
  ℕ, ◌≤◌, ◌<◌, ◌≡◌, inl, inr, refl, sym, ap, ◌∙◌, true, false, List, [], ◌∷◌, ◌++◌, map, length,
  All, leb, ◌==◌, if◌then◌else◌, arith, Bool-cases, append-nil, append_assoc,
}
use uds.Can.{CanFrame, Bus, Arrival}
use uds.Tp.{TpConfig}
use uds.Tp.Segments.{segment, arriving}
use uds.Tp.Receive.{tp_recv}
use uds.Tp.Send.{tp_send}
use uds.Tp.Due.{IsDue}
use uds.Tp.Delivery.{tp_recv-frames, answers}
use uds.Tp.Plan.{tp_send-segment}
use uds.Tp.Progress.{tp_send-blocks, tp_send-short}
use uds.Ecu.{Ecu, Request, dispatch}
use uds.Ecu.Invariant.{serve_all}
use uds.Ecu.Shape.{dispatch-IsResponse}
use uds.Ecu.Steady.{dispatch-size, dispatch-running}
use uds.Ecu.Loop.{request_of, serve_next, tp_cfg}
use uds.Ecu.Run.{Turn, run, run-turn}

-- A request of the tester, and the turn in which it is served.
pub record Exchange : Type 0 where
  pub message : List ℕ
  pub turn : Turn

-- A request that ISO-TP can carry, in a turn without a call of ecusim_stop.
pub record IsExchange (x : Exchange) : Type 0 where
  pub some_bytes : 0 < length x.message
  pub fits : length x.message ≤ 4095
  pub goes_on : x.turn.stops ≡ false

abbrev pub asks : Exchange → Request
asks x = request_of x.message x.turn.resp x.turn.now x.turn.rand

-- The frames of a response, if there is one.
unfoldable pub replies : ℕ → List ℕ → List CanFrame
replies tx_id [] = []
replies tx_id (b ∷ bytes) = segment tx_id (b ∷ bytes)

-- All that the tester sends with the identifier `can_id`: the frames of each request, and the flow control
-- that its uds_tp_recv has for the response, whose block size and STmin `cfg` gives.
unfoldable pub asked :
    ℕ → TpConfig → List Exchange → Ecu → List (Arrival CanFrame) → List (Arrival CanFrame)
asked can_id cfg [] ecu later = later
asked can_id cfg (x ∷ exchanges) ecu later =
    arriving 16 (segment can_id x.message)
    ++ (arriving 16 (answers cfg can_id (dispatch ecu (asks x)).0)
        ++ asked can_id cfg exchanges (dispatch ecu (asks x)).1 later)

-- All that the simulator has to send: the flow control for each request, and the frames of the response.
unfoldable pub answered : List Exchange → Ecu → List CanFrame
answered [] ecu = []
answered (x ∷ exchanges) ecu =
    answers tp_cfg ecu.resp_can_id x.message
    ++ (replies (dispatch ecu (asks x)).1.resp_can_id (dispatch ecu (asks x)).0
        ++ answered exchanges (dispatch ecu (asks x)).1)

-- A response is sent in full.
reply_lem :
    (bus : Bus CanFrame) (tx_id can_id b : ℕ) (bytes : List ℕ) (cfg : TpConfig)
    (later : List (Arrival CanFrame))
    → length (b ∷ bytes) ≤ 4095
    → IsDue (arriving 16 (answers cfg can_id (b ∷ bytes)) ++ later) bus
    → let (_, bus') = tp_send bus tx_id (b ∷ bytes) tp_cfg in
      (bus'.sent ≡ bus.sent ++ segment tx_id (b ∷ bytes)) × IsDue later bus'
reply_lem bus tx_id can_id b bytes cfg later hi d =
    let message : List ℕ = b ∷ bytes in
    let pos : 0 < length message = omega arith in
    elim (Bool-cases (leb (length message) 7)) [
      | inl short ↦
          let (done, end) =
            tp_send-short bus tx_id message tp_cfg later pos (ground (arith, short)) (omega arith)
              (rw short at d) in
          (tp_send-segment bus tx_id message tp_cfg pos hi (omega arith) done, end)
      | inr long ↦
          let (_, all, end) =
            tp_send-blocks bus tx_id can_id 0 cfg.block_size cfg.st_min message tp_cfg later
              (ground (arith, long)) hi (omega arith) (omega arith) (rw long at d) in
          (all, end)
    ]

-- What is sent for a response, if there is one.
unfoldable respond_to : Ecu → List ℕ → Bus CanFrame → Ecu × Bus CanFrame
respond_to ecu response bus =
    if length response == 0
    then (ecu, bus)
    else let (_, bus') = tp_send bus ecu.resp_can_id response tp_cfg in (ecu, bus')

respond_to_lem :
    (ecu : Ecu) (response : List ℕ) (bus : Bus CanFrame) (can_id : ℕ) (cfg : TpConfig)
    (later : List (Arrival CanFrame))
    → length response ≤ 4095
    → IsDue (arriving 16 (answers cfg can_id response) ++ later) bus
    → let (out, bus') = respond_to ecu response bus in
      (out ≡ ecu) × (bus'.sent ≡ bus.sent ++ replies ecu.resp_can_id response) × IsDue later bus'
unfolding respond_to replies
respond_to_lem ecu [] bus can_id cfg later hi d = (refl, sym (append-nil bus.sent), d)
respond_to_lem ecu (b ∷ bytes) bus can_id cfg later hi d =
    let full : length (b ∷ bytes) == 0 ≡ false = ground arith in
    let (sent, end) = reply_lem bus ecu.resp_can_id can_id b bytes cfg later hi d in
    rw (respond_to, full) (refl, sent, end)

-- One turn of the dialogue.
serve_next-exchange :
    (ecu : Ecu) (bus : Bus CanFrame) (x : Exchange) (can_id : ℕ) (cfg : TpConfig)
    (later : List (Arrival CanFrame))
    → IsExchange x
    → ecu.xfer.max_block_size < 256
    → IsDue
        (arriving 16 (segment can_id x.message)
          ++ (arriving 16 (answers cfg can_id (dispatch ecu (asks x)).0) ++ later))
        bus
    → let (response, ecu') = dispatch ecu (asks x) in
      let (out, bus') = serve_next ecu bus x.turn.resp x.turn.now x.turn.rand in
      (out ≡ ecu')
      × (bus'.sent
          ≡ bus.sent
            ++ (answers tp_cfg ecu.resp_can_id x.message ++ replies ecu'.resp_can_id response))
      × IsDue later bus'
unfolding serve_next respond_to
serve_next-exchange ecu bus x can_id cfg later ok small d =
    let (got, due, sent) =
      tp_recv-frames bus ecu.resp_can_id can_id 4095 tp_cfg x.message
        (arriving 16 (answers cfg can_id (dispatch ecu (asks x)).0) ++ later) d ok.some_bytes
        ok.fits ok.fits (omega arith) in
    let (fits, _) = dispatch-IsResponse ecu (asks x) small (omega arith) in
    let answer = dispatch ecu (asks x) in
    let bus' : Bus CanFrame = (tp_recv bus ecu.resp_can_id 4095 tp_cfg).1 in
    let (same, all, end) = respond_to_lem answer.1 answer.0 bus' can_id cfg later fits due in
    let sent_by = replies answer.1.resp_can_id answer.0 in
    rw (serve_next, got)
      (
        same,
        all
            ∙ ap (λ s. s ++ sent_by) sent
            ∙ append_assoc bus.sent (answers tp_cfg ecu.resp_can_id x.message) sent_by,
        end,
      )

-- A tester that sends a sequence of requests of 1 to 4095 bytes, waits for each response, and grants its
-- frames with whatever block size and STmin, gets exactly the responses that the dispatcher gives to the
-- requests one after the other, on a socket that works, where ecusim_stop is not called and the
-- block size of the transfer session is a byte at first. The loop ends in the state that serving the
-- requests leads to, and takes all that the tester sent and nothing more.
pub run-answers :
    (exchanges : List Exchange) (ecu : Ecu) (bus : Bus CanFrame) (can_id : ℕ) (cfg : TpConfig)
    (later : List (Arrival CanFrame))
    → All IsExchange exchanges
    → ecu.running ≡ true
    → ecu.xfer.max_block_size < 256
    → IsDue (asked can_id cfg exchanges ecu later) bus
    → let (out, bus') = run (map (λ x. x.turn) exchanges) ecu bus in
      (out ≡ serve_all (map asks exchanges) ecu)
      × (bus'.sent ≡ bus.sent ++ answered exchanges ecu)
      × IsDue later bus'
unfolding run serve_all asked answered
run-answers [] ecu bus can_id cfg later ok on small d = (refl, sym (append-nil bus.sent), d)
run-answers (x ∷ exchanges) ecu bus can_id cfg later (ok, oks) on small d =
    let (response, ecu') = dispatch ecu (asks x) in
    let (same, sent, due) =
      serve_next-exchange ecu bus x can_id cfg (asked can_id cfg exchanges ecu' later) ok small d in
    let still_on = dispatch-running ecu (asks x) in
    let small' = dispatch-size ecu (asks x) small in
    let bus' : Bus CanFrame = (serve_next ecu bus x.turn.resp x.turn.now x.turn.rand).1 in
    let turns = map (λ x. x.turn) exchanges in
    let step : run (x.turn ∷ turns) ecu bus ≡ run turns ecu' bus' =
      run-turn x.turn turns ecu bus on ∙ rw (ok.goes_on, same) refl in
    let (out, all, end) =
      run-answers exchanges ecu' bus' can_id cfg later oks (still_on ∙ on) small' due in
    let here = answers tp_cfg ecu.resp_can_id x.message ++ replies ecu'.resp_can_id response in
    rw step (
      out,
      all
          ∙ ap (λ s. s ++ answered exchanges ecu') sent
          ∙ append_assoc bus.sent here (answered exchanges ecu')
          ∙ ap (λ s. bus.sent ++ s)
              (append_assoc (answers tp_cfg ecu.resp_can_id x.message)
                (replies ecu'.resp_can_id response) (answered exchanges ecu')),
      end,
    )
