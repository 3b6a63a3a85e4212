-- ===== src/Main/Process.antt =====
-- The process of src/ecusim/main.c: its loop, the handler of SIGTERM and SIGINT, and its end.
use mathlib.Core.Path.{subst}
use uds.Base.{
  ℕ, ◌<◌, ◌≡◌, ◌⊎◌, inl, inr, refl, sym, ◌∙◌, Bool, true, false, List, length, ◌==◌, if◌then◌else◌,
  Bool-cases, arith,
}
use uds.Core.{Timespec}
use uds.Can.{CanFrame, Bus}
use uds.Can.Socket.{System, CanSocket}
use uds.Tp.Receive.{tp_recv}
use uds.Tp.Outcome.{TpResult-cases}
use uds.Ecu.{Ecu, dispatch}
use uds.Ecu.Defaults.{init}
use uds.Ecu.Loop.{request_of, serve_next, tp_cfg}
use uds.Ecu.Run.{Turn}
use uds.Ecu.Steady.{dispatch-running}
use uds.Ecu.Socket.{init_socket, cleanup, Started, cleanup-init_socket}
use uds.Main.{Settings, codes}

-- Where the process is: at the test of the loop of `main`, in `ecusim_run`, or at its end.
pub data Place : Type 0 where
  main_loop serving : Place
  exited : ℕ → Place

pub record Process : Type 0 where
  pub place : Place
  pub g_stop : Bool
  pub ecu : Ecu
  pub bus : Bus CanFrame
  pub sock : CanSocket

-- `main` after `ecusim_init`, which returned 0 or did not.
abbrev opened : Bool → Ecu → Bus CanFrame → Bool × CanSocket → Process
opened g_stop ecu bus (ok, sock) = record {
  place = if ok then main_loop else exited 1;
  g_stop = g_stop;
  ecu = ecu;
  bus = bus;
  sock = sock;
}

-- `main` behind the command line: `g_stop` is set when a signal has arrived already.
unfoldable pub start : Settings → Timespec → System → CanSocket → Bus CanFrame → Bool → Process
start s now sys sock bus g_stop =
    let ecu = init s.ecu_id now in
    opened g_stop ecu bus (init_socket ecu.req_can_id (codes s.ifname) sys sock)

abbrev pub turned : Process → Turn → Process
turned p t =
    let (ecu, bus) = serve_next p.ecu p.bus t.resp t.now t.rand in record p { ecu = ecu; bus = bus }

abbrev is_running : Place → Bool
is_running (exited code) = false
is_running _ = true

-- The handler of SIGTERM and SIGINT.
abbrev pub handle_signal : Process → Process
handle_signal p = record p { g_stop = true }

-- A step of the process: the handler runs, which it can anywhere; `ecusim_run` is called, takes a turn or
-- returns; or the loop of `main` ends.
pub data Step (p q : Process) : Type 0 where
  signal : is_running p.place ≡ true → q ≡ handle_signal p → Step p q
  enter :
      p.place ≡ main_loop
      → p.g_stop ≡ false
      → p.ecu.running ≡ true
      → q ≡ record p { place = serving }
      → Step p q
  turn : p.place ≡ serving → p.ecu.running ≡ true → (t : Turn) → q ≡ turned p t → Step p q
  return : p.place ≡ serving → p.ecu.running ≡ false → q ≡ record p { place = main_loop } → Step p q
  leave :
      p.place ≡ main_loop
      → (p.g_stop ≡ true) ⊎ (p.ecu.running ≡ false)
      → q ≡ record p { place = exited 0; sock = cleanup p.sock }
      → Step p q

pub data Reach (p : Process) : Process → Type 0 where
  here : Reach p p
  next : {q r : Process} → Reach p q → Step q r → Reach p r

-- A turn leaves `running` alone.
serve_next-running :
    (ecu : Ecu) (bus : Bus CanFrame) (t : Turn)
    → (serve_next ecu bus t.resp t.now t.rand).0.running ≡ ecu.running
unfolding serve_next
serve_next-running ecu bus t =
    let got = tp_recv bus ecu.resp_can_id 4095 tp_cfg in
    elim (TpResult-cases got.0) [
      | inr (e, failed) ↦ rw (serve_next, failed) refl
      | inl (bytes, read) ↦
          let q = request_of bytes t.resp t.now t.rand in
          let out = dispatch ecu q in
          elim (Bool-cases (length out.0 == 0)) [
            | inl silent ↦ rw (serve_next, read, silent) (dispatch-running ecu q)
            | inr answer ↦ rw (serve_next, read, answer) (dispatch-running ecu q)
          ]
    ]

abbrev Serves : Process → Type 0
Serves p = (p.place ≡ serving) × (p.ecu.running ≡ true)

Step-Serves : {p q : Process} → Step p q → Serves p → Serves q
Step-Serves {p = p} (signal up e) (at, on) = subst Serves (sym e) (at, on)
Step-Serves {p = p} (enter at' quiet on' e) (at, on) = ground (arith, at, at')
Step-Serves {p = p} (turn at' on' t e) (at, on) =
    subst Serves (sym e) (at, serve_next-running p.ecu p.bus t ∙ on)
Step-Serves {p = p} (return at' off e) (at, on) = ground (arith, on, off)
Step-Serves {p = p} (leave at' ends e) (at, on) = ground (arith, at, at')

Reach-Serves : {p q : Process} → Reach p q → Serves p → Serves q
Reach-Serves here at = at
Reach-Serves (next r s) at = Step-Serves s (Reach-Serves r at)

-- Once `main` is in ecusim_run with a simulator that is running, it is there for ever: whatever frames
-- arrive and whatever signals, the process is in ecusim_run in every state that it reaches.
pub Reach-serving :
    {p q : Process} → Reach p q → p.place ≡ serving → p.ecu.running ≡ true → q.place ≡ serving
Reach-serving r at on = (Reach-Serves r (at, on)).0

-- A process that has ended holds no descriptor more than `before`, and has returned 0 after a signal, or
-- 1; one that has not would release its socket by `ecusim_cleanup`, and its simulator is running.
abbrev pub Settled : List ℕ → Place → Process → Type 0
Settled before (exited code) p =
    (p.sock.open_fds ≡ before) × (((code ≡ 0) × (p.g_stop ≡ true)) ⊎ (code ≡ 1))
Settled before place p = ((cleanup p.sock).open_fds ≡ before) × (p.ecu.running ≡ true)

abbrev IsSettled : List ℕ → Process → Type 0
IsSettled before p = Settled before p.place p

signal-Settled :
    (before : List ℕ) (place : Place) (p : Process)
    → is_running place ≡ true
    → Settled before place p
    → Settled before place (handle_signal p)
signal-Settled before main_loop p up h = h
signal-Settled before serving p up h = h
signal-Settled before (exited code) p up h = ground (arith, up)

Step-IsSettled :
    (before : List ℕ) {p q : Process} → Step p q → IsSettled before p → IsSettled before q
Step-IsSettled before {p = p} (signal up e) h =
    subst (IsSettled before) (sym e) (signal-Settled before p.place p up h)
Step-IsSettled before {p = p} (enter at quiet on e) h =
    subst (IsSettled before) (sym e) (subst (λ x. Settled before x p) at h)
Step-IsSettled before {p = p} (turn at on t e) h =
    let (released, _) = subst (λ x. Settled before x p) at h in
    subst (IsSettled before) (sym e) (
      subst (λ x. Settled before x (turned p t)) (sym at)
        (released, serve_next-running p.ecu p.bus t ∙ on))
Step-IsSettled before {p = p} (return at off e) h =
    let (_, on) = subst (λ x. Settled before x p) at h in ground (arith, on, off)
Step-IsSettled before {p = p} (leave at ends e) h =
    let (released, on) = subst (λ x. Settled before x p) at h in
    let stopped : p.g_stop ≡ true = elim ends [
      | inl set ↦ set
      | inr off ↦ ground (arith, on, off)
    ] in
    subst (IsSettled before) (sym e) (released, inl (refl, stopped))

Reach-IsSettled :
    (before : List ℕ) {p q : Process} → IsSettled before p → Reach p q → IsSettled before q
Reach-IsSettled before h here = h
Reach-IsSettled before h (next r s) = Step-IsSettled before s (Reach-IsSettled before h r)

opened-IsSettled :
    (g_stop : Bool) (ecu : Ecu) (bus : Bus CanFrame) (req_can_id : ℕ) (sys : System)
    (sock : CanSocket) (ok : Bool) (sock' : CanSocket)
    → ecu.running ≡ true
    → Started req_can_id sys sock ok sock'
    → (cleanup sock').open_fds ≡ sock.open_fds
    → IsSettled sock.open_fds (opened g_stop ecu bus (ok, sock'))
opened-IsSettled g_stop ecu bus req_can_id sys sock true sock' on started released = (released, on)
opened-IsSettled g_stop ecu bus req_can_id sys sock false sock' on started released =
    (started.2, inr refl)

init-running : (ecu_id : ℕ) (now : Timespec) → (init ecu_id now).running ≡ true
unfolding init
init-running ecu_id now = refl

-- From the command line on, with an interface that has a name, whatever the system calls return, whatever
-- frames and signals arrive: where the process has ended, no descriptor is open that was not before, and
-- it has returned 0 after a signal, or 1. Where it has not, its simulator is running, and ecusim_cleanup
-- would release what it opened.
pub Reach-Settled :
    (s : Settings) (now : Timespec) (sys : System) (sock : CanSocket) (bus : Bus CanFrame)
    (g_stop : Bool) {p : Process}
    → 0 < length (codes s.ifname)
    → Reach (start s now sys sock bus g_stop) p
    → Settled sock.open_fds p.place p
unfolding start
Reach-Settled s now sys sock bus g_stop named reached =
    let ecu = init s.ecu_id now in
    let out = init_socket ecu.req_can_id (codes s.ifname) sys sock in
    let (started, released) = cleanup-init_socket ecu.req_can_id (codes s.ifname) sys sock named in
    Reach-IsSettled sock.open_fds
      (opened-IsSettled g_stop ecu bus ecu.req_can_id sys sock out.0 out.1
        (init-running s.ecu_id now) started released)
      reached
