-- ===== src/Lib.antt =====
-- A UDS (ISO 14229-1) server over ISO-TP (ISO 15765-2) on CAN, and the ECU simulator built from it. The
-- simulator receives a request over ISO-TP, dispatches it on its service byte to a service of the session,
-- security, data, trouble code or bootloader part, and sends the response over ISO-TP.
--
-- The modules and the code they model:
--   Core       src/include/uds_nrc.h, src/core/nrc.c, the return codes of src/include/uds_core.h
--   Can        src/can/can_socket.c: uds_can_send and uds_can_recv with their CAN FD twins (the size of a
--              frame is an argument), the identifiers (req_id, resp_id, ecu_id_from_resp) and the filters
--              of an ECU (ecu_filters); Can/Ids how these fit together; Can/Socket opening, closing and
--              filtering a socket over the results of the system calls
--   Tp         src/tp/iso_tp.c for classic CAN: frame_type, encode_sf to decode_fc, stmin_ns
--   Tp/Fd      its CAN FD half: frame_type_fd, encode_sf_fd to decode_fc_fd
--   Tp/Link    the functions on frames that the transfers call, as a record: `classic` for uds_tp_send and
--              uds_tp_recv, `fd` for uds_tp_send_fd and uds_tp_recv_fd; and `IsLink`, what the proofs rely
--              on, which Tp/Frame and Tp/Fd/Frame provide; Tp/Fd/Cells has the frames of CAN FD, and
--              Tp/Fd/First their first frames
--   Tp/Send    the loops of uds_tp_send and uds_tp_send_fd over a `Link`, and tp_send, which is uds_tp_send
--   Tp/Receive the loops of uds_tp_recv and uds_tp_recv_fd over a `Link`, tp_recv and rx_init
--   Tp/Fd/Transfer   tp_send_fd and tp_recv_fd
--   The proofs on transfers over any `Link`: Tp/Segments the frames of a message and the flow control due for
--   it, Tp/Due sockets that work, Tp/Reassembly and Tp/Reception the receiver, given the frames of a message
--   and given whatever, Tp/Bounded how it ends, Tp/Outcome and Tp/Loops the sender on whatever socket,
--   Tp/Arrivals what it leaves unread, Tp/Grants, Tp/Runs and Tp/Ends the sender on one that works,
--   Tp/Gap frames that are lost. For classic CAN: Tp/Delivery, Limits, Plan, Progress, Conversation, Lost; for
--   CAN FD: Tp/Fd/Delivery, Decoded, Limits, Sending, Conversation, Lost
--   Session    src/core/session.c (dsc is uds_core_dsc); Session/Control, Session/Timing
--   Security   src/core/security.c (request_seed, send_key); Security/Keys, Access, Invariant, Lockout
--   Data       src/core/data.c (read_did, write_did, ecu_reset, comm_control); Data/Registry, Read,
--              Write, View
--   Routine    src/core/routine_control.c; Routine/Control
--   Dtc        src/core/dtc.c (clear_dtc, read_dtc); Dtc/Clear, Dtc/Report
--   Flash      src/bootloader/flash.c; Flash/Ranges, Flash/Memory
--   Transfer   src/bootloader/flash_services.c (request_download, request_upload, transfer_data,
--              transfer_exit); Transfer/Format, Requests, Invariant, Blocks, Download, Reading, Upload
--   Ecu        src/ecusim/ecusim.c: `dispatch` is ecusim_dispatch, `handle` its switch, with the state
--              and the longer cases in Ecu/Services; Ecu/Defaults is the state after ecusim_init,
--              Ecu/Socket its socket part and ecusim_cleanup, Ecu/Loop one turn of ecusim_run, Ecu/Run
--              any number of them on whatever arrives, Ecu/Dialogue these against a tester,
--              Ecu/Programming the requests of a flash programming, Ecu/Readback those that read it,
--              Ecu/Firmware a programming over ISO-TP, and Ecu/Unlock those of a write behind the
--              security level. Ecu/Answers, Shape, Invariant, Guard, Frames, Steady, Modes, View and
--              Reset have the proofs on the dispatcher
--   Main       src/ecusim/main.c: `parse_args` is the loop over the command line, with the strtol of the C
--              library in Main/Strtol and its theorems in Main/Args; Main/Process is the rest of `main`, with
--              the signal handler, as a step relation
--   Texts      uds_core_strerror, uds_can_strerror and uds_tp_strerror
--   Base       names, list functions, bit operations and tests that the others share
-- Each Tests module has the theorems at concrete inputs.
--
-- How the state corresponds. A struct is a record with the same fields; a pointer with its length is a list;
-- a registry is the list of its entries. A service takes the state and gives its reply and the new state: the
-- reply is `positive` with the response bytes for UDS_CORE_OK, `negative` with the code for UDS_CORE_ERR_NRC,
-- `err_param` and `err_buf` for the other two. The argument `null` is the test whether one of the pointers is
-- NULL. The clock and the random numbers are arguments; one clock value serves a call. Numbers are natural,
-- and a conversion or a sum that the code does in 8, 16 or 32 bits has its remainder written out. The flash
-- array is a function of the address. A response buffer is a size, and for service 0x22, which can leave
-- bytes of it unwritten, its contents.
--
-- A socket is a `Bus`: what the next calls of select with read and of write return, and the frames sent and
-- the sleeps made so far. What the operating system returns is an argument, so a statement about every `Bus`
-- is one about every behaviour of the system. For classic CAN its frames are `CanFrame`, for CAN FD
-- `CanfdFrame`. Before it is open it is a `CanSocket`, with the descriptors that are open around it, and the
-- results of the system calls are a `System`.
--
-- Fuel. Tp.Send.send_block and send_rest have as fuel the number of bytes that are left, since every turn
-- sends at least one; wait_cts the wait frames still allowed; Tp.Receive.recv_rest the number of bytes of the
-- message, since every turn receives at least one. Without fuel send_rest and recv_rest return
-- UDS_TP_ERR_INPROGRESS, which neither function of the code returns. Ecu.Run.run takes the turns of the loop
-- as a list, so that its theorems are on every finite number of them.
--
-- Not modelled: what the simulator prints, and the Python tools.
pub mod Base
pub mod Core
pub mod Can
pub mod Tp
pub mod Session
pub mod Security
pub mod Data
pub mod Routine
pub mod Dtc
pub mod Flash
pub mod Transfer
pub mod Ecu
pub mod Main
pub mod Texts
