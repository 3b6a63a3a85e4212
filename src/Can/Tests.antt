-- ===== src/Can/Tests.antt =====
-- The CAN identifiers of src/can/can_socket.c for one ECU.
use uds.Base.{◌≡◌, refl, true, some, [], ◌∷◌}
use uds.Can.{CanfdFrame, Bus, reads, can_err_send, can_err_trunc, can_send_fd, can_recv_fd}

-- A write that comes short is an error over CAN FD too, and a frame that is read short is dropped.
abbrev fd_frame : CanfdFrame
fd_frame = record { can_id = 0x601; len = 3; bytes = 2 ∷ 0x3E ∷ 0 ∷ [] }

abbrev fd_bus : Bus CanfdFrame
fd_bus = record {
  is_open = true;
  arrivals = reads 16 fd_frame ∷ [];
  writes = some 16 ∷ [];
  sent = [];
  slept = [];
}

short_write : (can_send_fd fd_bus fd_frame).0 ≡ can_err_send
unfolding can_send_fd
short_write = refl

short_read : (can_recv_fd fd_bus).0 ≡ can_err_trunc
unfolding can_recv_fd
short_read = refl
