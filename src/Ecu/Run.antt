-- ===== src/Ecu/Run.antt =====
-- The loop of ecusim_run in src/ecusim/ecusim.c over several turns, on whatever arrives.
use mathlib.Core.Path.{subst}
use uds.Base.{
  ℕ, suc, ◌≤◌, ◌<◌, ◌≡◌, ◌⊎◌, inl, inr, refl, sym, Bool, true, false, not, List, [], ◌∷◌, length,
  All, All-get_or, ◌==◌, if◌then◌else◌, arith, Bool-cases,
}
use uds.Core.{Timespec}
use uds.Base.Bits.{IsByte}
use uds.Can.{CanFrame, Bus}
use uds.Flash.Memory.{IsReadOnly}
use uds.Tp.Frame.{classic-IsLink}
use uds.Tp.Receive.{tp_recv}
use uds.Tp.Outcome.{TpResult-cases}
use uds.Tp.Reception.{Whole}
use uds.Tp.Limits.{tp_recv-Fits}
use uds.Tp.Arrivals.{tp_send-Whole}
use uds.Ecu.{Ecu, Request, dispatch, stop}
use uds.Ecu.Invariant.{IsValid, IsRequest, serve_all, serve_all-IsValid}
use uds.Ecu.Frames.{IsShort, serve_all-protects}
use uds.Ecu.Loop.{request_of, serve_next, tp_cfg}

-- One turn of the loop: what the response buffer holds, the clock, the random numbers, and whether
-- ecusim_stop is called during the turn.
pub record Turn : Type 0 where
  pub resp : List ℕ
  pub now : Timespec
  pub rand : ℕ → ℕ
  pub stops : Bool

-- `ecusim_run`, at most as many turns as are listed.
unfoldable pub run : List Turn → Ecu → Bus CanFrame → Ecu × Bus CanFrame
run [] ecu bus = (ecu, bus)
run (t ∷ turns) ecu bus =
    let (ecu', bus') = serve_next ecu bus t.resp t.now t.rand in
    let rest = run turns (if t.stops then stop ecu' else ecu') bus' in
    if not ecu.running then (ecu, bus) else rest

-- A request as the loop makes it.
pub record IsPdu (q : Request) : Type 0 where
  pub some_bytes : 0 < length q.bytes
  pub fits : length q.bytes ≤ 4095
  pub are_bytes : All IsByte q.bytes
  pub room : q.resp_size ≡ 4095

-- A turn serves one request or none.
abbrev Served : Ecu → Ecu → Type 0
Served ecu ecu' = (ecu' ≡ ecu) ⊎ ((q : Request) × IsPdu q × (ecu' ≡ (dispatch ecu q).1))

serve_next-Served :
    (ecu : Ecu) (bus : Bus CanFrame) (t : Turn)
    → Whole classic-IsLink bus.arrivals
    → let (ecu', bus') = serve_next ecu bus t.resp t.now t.rand in
      Served ecu ecu' × Whole classic-IsLink bus'.arrivals
unfolding serve_next
serve_next-Served ecu bus t whole =
    let (own, fits, _, whole') = tp_recv-Fits bus ecu.resp_can_id 4095 tp_cfg whole in
    let got = tp_recv bus ecu.resp_can_id 4095 tp_cfg in
    elim (TpResult-cases got.0) [
      | inr (e, failed) ↦ rw (serve_next, failed) (inl refl, whole')
      | inl (bytes, read) ↦
          let q = request_of bytes t.resp t.now t.rand in
          let (pos, _, most, are) = fits bytes read in
          let is_pdu : IsPdu q = record {
            some_bytes = pos;
            fits = most;
            are_bytes = are;
            room = refl;
          } in
          let out = dispatch ecu q in
          let served : Served ecu out.1 = inr (q, is_pdu, refl) in
          elim (Bool-cases (length out.0 == 0)) [
            | inl silent ↦ rw (serve_next, read, silent) (served, whole')
            | inr answer ↦
                rw (serve_next, read, answer)
                  (served, tp_send-Whole got.1 out.1.resp_can_id out.0 tp_cfg whole')
          ]
    ]

-- `running` aside once ecusim_stop was called.
abbrev Ends : Ecu → Ecu → Type 0
Ends ecu last = (last ≡ ecu) ⊎ (last ≡ stop ecu)

-- The state that the requests of `queue` lead to.
abbrev pub Serves : ℕ → Ecu → Ecu → Type 0
Serves most ecu ecu' =
    (queue : List Request) × All IsPdu queue
    × (length queue ≤ most)
    × Ends (serve_all queue ecu) ecu'

-- What a turn does before the rest of the loop.
Serves-after :
    {n : ℕ} {ecu ecu' last : Ecu} → Served ecu ecu' → Serves n ecu' last → Serves (suc n) ecu last
unfolding serve_all
Serves-after {last = last} (inl same) (queue, pdus, few, rest) =
    (queue, pdus, omega (arith, few), subst (λ e. Ends (serve_all queue e) last) same rest)
Serves-after {last = last} (inr (q, is_pdu, next)) (queue, pdus, few, rest) = (
  q ∷ queue,
  (is_pdu, pdus),
  omega (arith, few),
  subst (λ e. Ends (serve_all queue e) last) next rest,
)

pub run-turn :
    (t : Turn) (turns : List Turn) (ecu : Ecu) (bus : Bus CanFrame)
    → ecu.running ≡ true
    → let (ecu', bus') = serve_next ecu bus t.resp t.now t.rand in
      run (t ∷ turns) ecu bus ≡ run turns (if t.stops then stop ecu' else ecu') bus'
unfolding run
run-turn t turns ecu bus on = ground (arith, on)

run-idle :
    (turns : List Turn) (ecu : Ecu) (bus : Bus CanFrame)
    → ecu.running ≡ false
    → run turns ecu bus ≡ (ecu, bus)
unfolding run
run-idle [] ecu bus idle = refl
run-idle (t ∷ turns) ecu bus idle = ground (arith, idle)

-- Whatever frames arrive, and whenever ecusim_stop is called, the loop leaves the state that
-- serving a sequence of at most one request per turn leads to, but for `running`; each request has 1 to
-- 4095 bytes. A frame has the whole data array of bytes that it has in memory.
pub run-serve_all :
    (turns : List Turn) (ecu : Ecu) (bus : Bus CanFrame)
    → Whole classic-IsLink bus.arrivals
    → Serves (length turns) ecu (run turns ecu bus).0
unfolding run stop serve_all
run-serve_all [] ecu bus whole = ([], tt, omega arith, inl refl)
run-serve_all (t ∷ turns) ecu bus whole =
    let (served, whole') = serve_next-Served ecu bus t whole in
    let out = serve_next ecu bus t.resp t.now t.rand in
    let after : Ecu → Type 0 = Serves (length (t ∷ turns)) ecu in
    elim (Bool-cases ecu.running) [
      | inr idle ↦
          subst (λ e. after e.0) (sym (run-idle (t ∷ turns) ecu bus idle))
            ([], tt, omega arith, inl refl)
      | inl on ↦
          subst (λ e. after e.0) (sym (run-turn t turns ecu bus on))
            (elim (Bool-cases t.stops) [
              | inr goes ↦ rw goes (Serves-after served (run-serve_all turns out.0 out.1 whole'))
              | inl stops ↦
                  rw (stops, run-idle turns (stop out.0) out.1 refl)
                    (Serves-after {n = length turns} served ([], tt, omega arith, inr refl))
            ])
    ]

IsShort-pdus : (queue : List Request) → All IsPdu queue → All IsShort queue
IsShort-pdus [] pdus = tt
IsShort-pdus (q ∷ queue) (p, pdus) = (omega (arith, p.fits), IsShort-pdus queue pdus)

-- Whatever frames arrive, each with the whole data array of bytes that it has in memory, over any number
-- of turns: the loop changes neither the flash regions nor a flash byte that lies outside every region
-- that may be written.
pub run-protects :
    (turns : List Turn) (ecu : Ecu) (bus : Bus CanFrame) (a : ℕ)
    → Whole classic-IsLink bus.arrivals
    → IsReadOnly ecu.flash.regions a
    → let flash = (run turns ecu bus).0.flash in
      (flash.regions ≡ ecu.flash.regions) × (flash.cells a ≡ ecu.flash.cells a)
unfolding stop
run-protects turns ecu bus a whole ro =
    let (queue, pdus, _, ends) = run-serve_all turns ecu bus whole in
    let kept = serve_all-protects queue ecu a (IsShort-pdus queue pdus) ro in
    let Kept : Ecu → Type 0 =
      λ e. (e.flash.regions ≡ ecu.flash.regions) × (e.flash.cells a ≡ ecu.flash.cells a) in
    elim ends [
      | inl same ↦ subst Kept (sym same) kept
      | inr stopped ↦ subst Kept (sym stopped) kept
    ]

IsRequest-pdus : (queue : List Request) → All IsPdu queue → All IsRequest queue
IsRequest-pdus [] pdus = tt
IsRequest-pdus (q ∷ queue) (p, pdus) = (
  record { byte = λ i. All-get_or IsByte q.bytes i 0 p.are_bytes (omega arith) },
  IsRequest-pdus queue pdus,
)

-- Whatever frames arrive, each with the whole data array of bytes that it has in memory, over any number
-- of turns: the loop keeps a well-formed simulator well-formed. The security state, the transfer session
-- and the flash regions keep their invariants.
pub run-IsValid :
    (turns : List Turn) (ecu : Ecu) (bus : Bus CanFrame)
    → Whole classic-IsLink bus.arrivals
    → IsValid ecu
    → IsValid (run turns ecu bus).0
unfolding stop
run-IsValid turns ecu bus whole v =
    let (queue, pdus, _, ends) = run-serve_all turns ecu bus whole in
    let kept = serve_all-IsValid queue ecu (IsRequest-pdus queue pdus) v in
    let stopped : IsValid (stop (serve_all queue ecu)) = record {
      security = kept.security;
      xfer = kept.xfer;
      device = kept.device;
    } in
    elim ends [
      | inl same ↦ subst IsValid (sym same) kept
      | inr over ↦ subst IsValid (sym over) stopped
    ]
