-- ===== src/Ecu/Modes.antt =====
-- The diagnostic session over any sequence of requests to src/ecusim/ecusim.c.
use uds.Base.{false, ℕ, ◌≡◌, ◌≢◌, inl, inr, refl, sym, ◌∙◌, List, [], ◌∷◌, All, Option-cases, arith}
use uds.Core.{Timespec}
use uds.Session.{Session, tester_present}
use uds.Ecu.{
  Ecu, Request, Service, session_control, tester_presence, security_access, read_data, write_data,
  reset_ecu, communication_control, clear_dtcs, read_dtcs, download, upload, transfer,
  exit_transfer, service_of, handle, dispatch, req_byte,
}
use uds.Ecu.Invariant.{serve_all}
use uds.Ecu.Answers.{sid_of, service_of-sid_of}

-- A request for neither DiagnosticSessionControl nor ECUReset.
abbrev pub KeepsSession : Request → Type 0
KeepsSession q = (req_byte q 0 ≢ 0x10) × (req_byte q 0 ≢ 0x11)

tester_present-type :
    (s : Session) (sub_fn size : ℕ) (now : Timespec)
    → (tester_present false s sub_fn size now).1.type ≡ s.type
unfolding tester_present
tester_present-type s sub_fn size now = ground arith

handle-type :
    (s : Service) (ecu : Ecu) (q : Request)
    → KeepsSession q
    → sid_of s ≡ req_byte q 0
    → (handle s ecu q).1.session.type ≡ ecu.session.type
unfolding handle
handle-type session_control ecu q keeps sid = absurd (keeps.0 (sym sid))
handle-type reset_ecu ecu q keeps sid = absurd (keeps.1 (sym sid))
handle-type tester_presence ecu q keeps sid =
    ground (arith, tester_present-type ecu.session (req_byte q 1) q.resp_size q.now)
handle-type security_access ecu q keeps sid = ground arith
handle-type read_data ecu q keeps sid = ground arith
handle-type write_data ecu q keeps sid = ground arith
handle-type communication_control ecu q keeps sid = ground arith
handle-type clear_dtcs ecu q keeps sid = ground arith
handle-type read_dtcs ecu q keeps sid = ground arith
handle-type download ecu q keeps sid = ground arith
handle-type upload ecu q keeps sid = ground arith
handle-type transfer ecu q keeps sid = ground arith
handle-type exit_transfer ecu q keeps sid = ground arith

dispatch-type :
    (ecu : Ecu) (q : Request) → KeepsSession q → (dispatch ecu q).1.session.type ≡ ecu.session.type
unfolding dispatch
dispatch-type ecu q keeps = elim (Option-cases (service_of (req_byte q 0))) [
  | inl missing ↦ ground (arith, missing)
  | inr (s, known) ↦
      ground (arith, known, handle-type s ecu q keeps (service_of-sid_of (req_byte q 0) s known))
]

-- The session lasts until a request for DiagnosticSessionControl (0x10) or ECUReset (0x11): no sequence of
-- other requests changes its type, whatever the clock says at each of them, so not after S3 either.
pub serve_all-session :
    (queue : List Request) (ecu : Ecu)
    → All KeepsSession queue
    → (serve_all queue ecu).session.type ≡ ecu.session.type
unfolding serve_all
serve_all-session [] ecu keeps = refl
serve_all-session (q ∷ queue) ecu keeps =
    serve_all-session queue (dispatch ecu q).1 keeps.1 ∙ dispatch-type ecu q keeps.0
