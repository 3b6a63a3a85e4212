-- ===== src/Can.antt =====
-- src/can/can_socket.c: the CAN identifiers, and uds_can_send and uds_can_recv over what the system
-- calls return. A positive timeout is passed to uds_can_recv, as its callers do.
pub mod Ids
pub mod Socket
mod Tests
use uds.Base.{
  ℕ, zero, suc, ◌+◌, ◌-◌, ◌%◌, Bool, true, false, not, ◌&&◌, ◌||◌, Option, none, some, List, [],
  ◌∷◌, ◌++◌, ltb, leb, ◌==◌, ◌!=◌, if◌then◌else◌,
}

-- `struct can_frame`: the data array has 8 bytes.
pub record CanFrame : Type 0 where
  pub can_id : ℕ
  pub can_dlc : ℕ
  pub bytes : List ℕ

-- `sizeof(struct can_frame)`
abbrev pub frame_size : ℕ
frame_size = 16

-- `struct canfd_frame` without its flags: the data array has 64 bytes.
pub record CanfdFrame : Type 0 where
  pub can_id : ℕ
  pub len : ℕ
  pub bytes : List ℕ

-- `sizeof(struct canfd_frame)`
abbrev pub canfd_frame_size : ℕ
canfd_frame_size = 72

-- What `select` and then `read` come to: `read` gives the number of bytes and the frame.
pub data Arrival (F : Type 0) : Type 0 where
  select_fails no_frame read_fails : Arrival F
  reads : ℕ → F → Arrival F

-- A socket with its surroundings: what the next waits come to, and after these no frame arrives; what
-- the next calls of `write` return, `none` for a negative number, and after these each writes a whole
-- frame; the frames sent so far; and the sleeps between them, in nanoseconds.
pub record Bus (F : Type 0) : Type 0 where
  pub is_open : Bool
  pub arrivals : List (Arrival F)
  pub writes : List (Option ℕ)
  pub sent : List F
  pub slept : List ℕ

-- `UdsCanError`
pub data CanStatus : Type 0 where
  can_ok can_err_param can_err_socket can_err_bind can_err_ifindex can_err_filter : CanStatus
  can_err_send can_err_recv can_err_timeout can_err_trunc : CanStatus

-- The functions for classic CAN and for CAN FD differ in the type of the frame, and so in its size
-- `sizeof(*frame)`, which is an argument here.
module _ {F : Type 0} where
  abbrev pub sending : Bus F → F → Bus F
  sending bus frame = record bus { sent = bus.sent ++ (frame ∷ []) }

  -- `uds_can_send`, and with `canfd_frame_size` `uds_can_send_fd`.
  unfoldable pub can_send : ℕ → Bus F → F → CanStatus × Bus F
  can_send size bus frame = if not bus.is_open then (can_err_param, bus) else elim bus.writes [
    | [] ↦ (can_ok, sending bus frame)
    | none ∷ later ↦ (can_err_send, record bus { writes = later })
    | some written ∷ later ↦
        if written != size
        then (can_err_send, record bus { writes = later })
        else (can_ok, sending (record bus { writes = later }) frame)
  ]

  -- `uds_can_recv`, and with `canfd_frame_size` `uds_can_recv_fd`: the status, and the frame where it
  -- is `can_ok`.
  unfoldable pub can_recv : ℕ → Bus F → CanStatus × Option F × Bus F
  can_recv size bus = if not bus.is_open then (can_err_param, none, bus) else elim bus.arrivals [
    | [] ↦ (can_err_timeout, none, bus)
    | a ∷ later ↦
        let bus' = record bus { arrivals = later } in
        elim a [
          | select_fails ↦ (can_err_recv, none, bus')
          | no_frame ↦ (can_err_timeout, none, bus')
          | read_fails ↦ (can_err_recv, none, bus')
          | reads nbytes frame ↦
              if ltb nbytes size then (can_err_trunc, none, bus') else (can_ok, some frame, bus')
        ]
  ]

-- `uds_can_send_fd`
unfoldable pub can_send_fd : Bus CanfdFrame → CanfdFrame → CanStatus × Bus CanfdFrame
unfolding can_send
can_send_fd = can_send canfd_frame_size

-- `uds_can_recv_fd`
unfoldable pub can_recv_fd : Bus CanfdFrame → CanStatus × Option CanfdFrame × Bus CanfdFrame
unfolding can_recv
can_recv_fd = can_recv canfd_frame_size

abbrev pub req_base : ℕ
req_base = 0x600

abbrev pub resp_base : ℕ
resp_base = 0x680

abbrev is_ecu_id : ℕ → Bool
is_ecu_id ecu_id = leb 0x01 ecu_id && leb ecu_id 0x7F

-- `uds_can_req_id`
unfoldable pub req_id : ℕ → ℕ
req_id ecu_id = if not (is_ecu_id ecu_id) then 0 else req_base + ecu_id

-- `uds_can_resp_id`
unfoldable pub resp_id : ℕ → ℕ
resp_id ecu_id = if not (is_ecu_id ecu_id) then 0 else resp_base + ecu_id

-- `uds_can_ecu_id_from_resp`
unfoldable pub ecu_id_from_resp : ℕ → ℕ
ecu_id_from_resp id =
    if leb id resp_base then 0 else if not (is_ecu_id (id - resp_base)) then 0 else id - resp_base

-- `UdsCanFilter`
pub record CanFilter : Type 0 where
  pub can_id : ℕ
  pub can_mask : ℕ

abbrev pub functional_id : ℕ
functional_id = 0x7DF

abbrev pub exact : ℕ → CanFilter
exact id = record { can_id = id; can_mask = 0x7FF }

-- `uds_can_ecu_filters`: the filters that it writes.
unfoldable pub ecu_filters : ℕ → List CanFilter
ecu_filters ecu_id =
    if not (is_ecu_id ecu_id)
    then []
    else exact (req_base + ecu_id) ∷ exact functional_id ∷ exact (resp_base + ecu_id) ∷ []
