-- ===== src/Tp/Fd/Conversation.antt =====
-- Both ends of a transfer over CAN FD of src/tp/iso_tp.c: uds_tp_recv_fd gets the frames that
-- uds_tp_send_fd sends, and uds_tp_send_fd the flow control frames that uds_tp_recv_fd sends.
