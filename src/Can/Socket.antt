-- ===== src/Can/Socket.antt =====
-- src/can/can_socket.c: opening, closing and filtering a socket, over what the system calls return.
use uds.Base.{
  ℕ, ◌≡◌, Bool, true, false, not, ◌||◌, Option, none, some, List, [], ◌∷◌, length, ltb, ◌==◌,
  if◌then◌else◌, arith,
}
use uds.Can.{
  CanStatus, can_ok, can_err_param, can_err_socket, can_err_bind, can_err_ifindex, can_err_filter,
  CanFilter,
}

-- What the system calls return: the descriptor of `socket`, none for a negative number; the result of
-- `if_nametoindex`; and whether `bind` and `setsockopt` succeed.
pub record System : Type 0 where
  pub socket : Option ℕ
  pub ifindex : ℕ
  pub binds : Bool
  pub sets_option : Bool

-- `UdsCanSocket`, whose `fd` is none where it is negative, with its surroundings: the descriptors that
-- are open, and the options CAN_RAW_FILTER and CAN_RAW_FD_FRAMES as they were last set, if they were.
pub record CanSocket : Type 0 where
  pub fd : Option ℕ
  pub open_fds : List ℕ
  pub filters : Option (List CanFilter)
  pub fd_frames : Bool

-- The open descriptors, with one passed to `close`.
unfoldable pub release : ℕ → List ℕ → List ℕ
release fd [] = []
release fd (other ∷ open_fds) =
    let rest = release fd open_fds in if fd == other then open_fds else other ∷ rest

-- `uds_can_open`; `null` is the test for a null pointer.
unfoldable pub can_open : Bool → List ℕ → System → CanSocket → CanStatus × CanSocket
can_open null ifname sys sock =
    if null || length ifname == 0 then (can_err_param, sock) else elim sys.socket [
      | none ↦ (can_err_socket, record sock { fd = none })
      | some fd ↦
          let opened : List ℕ = fd ∷ sock.open_fds in
          let released : CanSocket = record sock { fd = none; open_fds = release fd opened } in
          if sys.ifindex == 0
          then (can_err_ifindex, released)
          else if not sys.binds
          then (can_err_bind, released)
          else (
            can_ok,
            record { fd = some fd; open_fds = opened; filters = none; fd_frames = false },
          )
    ]

-- `uds_can_close`
unfoldable pub can_close : CanSocket → CanSocket
can_close sock = elim sock.fd [
  | none ↦ sock
  | some fd ↦ record sock { fd = none; open_fds = release fd sock.open_fds }
]

abbrev max_filters : ℕ
max_filters = 32

-- `uds_can_set_filter`: `filters` is none for a null pointer, and `count` the number of its entries.
unfoldable pub set_filter : Option (List CanFilter) → ℕ → System → CanSocket → CanStatus × CanSocket
set_filter filters count sys sock = elim sock.fd [
  | none ↦ (can_err_param, sock)
  | some fd ↦
      if ltb max_filters count
      then (can_err_param, sock)
      else if count == 0
      then (if not sys.sets_option
          then (can_err_filter, sock)
          else (can_ok, record sock { filters = some [] }))
      else elim filters [
        | none ↦ (can_err_param, sock)
        | some list ↦
            if not sys.sets_option
            then (can_err_filter, sock)
            else (can_ok, record sock { filters = some list })
      ]
]

-- `uds_can_enable_fd`
unfoldable pub enable_fd : System → CanSocket → CanStatus × CanSocket
enable_fd sys sock = elim sock.fd [
  | none ↦ (can_err_param, sock)
  | some fd ↦
      if not sys.sets_option
      then (can_err_filter, sock)
      else (can_ok, record sock { fd_frames = true })
]

pub release-cons : (fd : ℕ) (open_fds : List ℕ) → release fd (fd ∷ open_fds) ≡ open_fds
unfolding release
release-cons fd open_fds = ground arith
