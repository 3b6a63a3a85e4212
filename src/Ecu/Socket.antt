-- ===== src/Ecu/Socket.antt =====
-- The socket of src/ecusim/ecusim.c: what ecusim_init opens and ecusim_cleanup closes.
use uds.Base.{
  ℕ, ◌<◌, ◌≡◌, ◌⊎◌, inl, inr, refl, Bool, true, false, Option, none, some, List, [], ◌∷◌, length,
  ◌==◌, arith, Bool-cases,
}
use uds.Can.{CanStatus, can_ok, exact}
use uds.Can.Socket.{System, CanSocket, can_open, can_close, set_filter, release-cons}

-- `sock` in `EcuSimulator` after `memset`: descriptor 0.
abbrev zeroed : CanSocket → CanSocket
zeroed sock = record sock { fd = some 0 }

-- The end of `ecusim_init`, given what `uds_can_open` came to: whether it returns 0.
unfoldable pub install_filter : ℕ → System → CanStatus × CanSocket → Bool × CanSocket
install_filter req_can_id sys (rc, opened) = elim rc [
  | can_ok ↦
      let (set, filtered) = set_filter (some (exact req_can_id ∷ [])) 1 sys opened in
      elim set [ can_ok ↦ (true, filtered) | _ ↦ (false, can_close filtered) ]
  | _ ↦ (false, opened)
]

-- `ecusim_init` from the opening of the socket on.
unfoldable pub init_socket : ℕ → List ℕ → System → CanSocket → Bool × CanSocket
init_socket req_can_id ifname sys sock =
    install_filter req_can_id sys (can_open false ifname sys (zeroed sock))

-- `ecusim_cleanup`
unfoldable pub cleanup : CanSocket → CanSocket
unfolding can_close
cleanup sock = can_close sock

-- A system call fails.
abbrev Refuses : System → Type 0
Refuses sys =
    (sys.socket ≡ none) ⊎ (sys.ifindex ≡ 0) ⊎ (sys.binds ≡ false) ⊎ (sys.sets_option ≡ false)

-- What `ecusim_init` comes to when it succeeds, and when it fails.
abbrev pub Started : ℕ → System → CanSocket → Bool → CanSocket → Type 0
Started req_can_id sys sock true sock' =
    (fd : ℕ) × (sys.socket ≡ some fd)
    × (sock'.fd ≡ some fd)
    × (sock'.open_fds ≡ fd ∷ sock.open_fds)
    × (sock'.filters ≡ some (exact req_can_id ∷ []))
Started req_can_id sys sock false sock' =
    Refuses sys × (sock'.fd ≡ none) × (sock'.open_fds ≡ sock.open_fds)

-- The outcome of `ecusim_init`, and of `ecusim_cleanup` after it, given that of `uds_can_open`.
abbrev Outcome : ℕ → System → CanSocket → CanStatus × CanSocket → Type 0
Outcome req_can_id sys sock p =
    let (ok, sock') = install_filter req_can_id sys p in
    Started req_can_id sys sock ok sock' × ((cleanup sock').open_fds ≡ sock.open_fds)

abbrev system : Option ℕ → ℕ → Bool → Bool → System
system socket ifindex binds sets_option = record {
  socket = socket;
  ifindex = ifindex;
  binds = binds;
  sets_option = sets_option;
}

-- The filter is set or refused.
bound-Outcome :
    (req fd ifindex : ℕ) (sets_option : Bool) (sock : CanSocket)
    → Outcome req (system (some fd) ifindex true sets_option) sock (
      can_ok,
      record { fd = some fd; open_fds = fd ∷ sock.open_fds; filters = none; fd_frames = false },
    )
unfolding install_filter set_filter can_close cleanup
bound-Outcome req fd ifindex false sock =
    let kept = release-cons fd sock.open_fds in ((inr (inr (inr refl)), refl, kept), kept)
bound-Outcome req fd ifindex true sock =
    ((fd, refl, refl, refl, refl), release-cons fd sock.open_fds)

system-Outcome :
    (req : ℕ) (ifname : List ℕ) (socket : Option ℕ) (ifindex : ℕ) (binds sets_option : Bool)
    (sock : CanSocket)
    → length ifname == 0 ≡ false
    → let sys = system socket ifindex binds sets_option in
      Outcome req sys sock (can_open false ifname sys (zeroed sock))
unfolding install_filter can_open can_close cleanup
system-Outcome req ifname none ifindex binds sets_option sock named =
    rw (can_open, named) ((inl refl, refl, refl), refl)
system-Outcome req ifname (some fd) ifindex false sets_option sock named =
    let kept = release-cons fd sock.open_fds in
    elim (Bool-cases (ifindex == 0)) [
      | inl unknown ↦
          rw (can_open, named, unknown) ((inr (inl (ground (arith, unknown))), refl, kept), kept)
      | inr known ↦ rw (can_open, named, known) ((inr (inr (inl refl)), refl, kept), kept)
    ]
system-Outcome req ifname (some fd) ifindex true sets_option sock named =
    let kept = release-cons fd sock.open_fds in
    elim (Bool-cases (ifindex == 0)) [
      | inl unknown ↦
          rw (can_open, named, unknown) ((inr (inl (ground (arith, unknown))), refl, kept), kept)
      | inr known ↦ rw (can_open, named, known) (bound-Outcome req fd ifindex sets_option sock)
    ]

pub cleanup-init_socket :
    (req_can_id : ℕ) (ifname : List ℕ) (sys : System) (sock : CanSocket)
    → 0 < length ifname
    → let (ok, sock') = init_socket req_can_id ifname sys sock in
      Started req_can_id sys sock ok sock' × ((cleanup sock').open_fds ≡ sock.open_fds)
unfolding init_socket install_filter
cleanup-init_socket req_can_id ifname sys sock named =
    system-Outcome req_can_id ifname sys.socket sys.ifindex sys.binds sys.sets_option sock
      (ground arith)
