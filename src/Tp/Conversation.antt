-- ===== src/Tp/Conversation.antt =====
-- Both ends of a transfer of src/tp/iso_tp.c: uds_tp_recv gets the frames that uds_tp_send sends, and
-- uds_tp_send the flow control frames that uds_tp_recv sends.
use uds.Base.{
  ◌%◌, ◌^◌, inl, inr, ℕ, ◌≤◌, ◌<◌, ◌≡◌, ◌∙◌, ap, true, List, [], ◌++◌, length, leb, arith,
  Bool-cases,
}
use uds.Can.{CanFrame, Bus, Arrival}
use uds.Tp.{tp_ok, TpConfig}
use uds.Tp.Segments.{segment, arriving}
use uds.Tp.Send.{tp_send}
use uds.Tp.Receive.{tp_recv}
use uds.Tp.Due.{IsDue}
use uds.Tp.Delivery.{tp_recv-frames, answers}
use uds.Tp.Plan.{tp_send-segment}
use uds.Tp.Progress.{tp_send-blocks, tp_send-short}

-- Sender and receiver of a message of 1 to 4095 bytes agree, on sockets that work, with positive timeouts
-- and a receive buffer whose size, cut to 32 bits as uds_tp_recv does, holds the message, whatever the
-- block size and STmin of the receiver, which has sent nothing before: where the frames of the message are
-- due at the receiver, and what the receiver sends is due at the sender, the sender returns success and
-- has sent exactly these frames, the receiver returns the message, and both have taken all of them and
-- nothing more.
pub tp_send-tp_recv :
    (receiver sender : Bus CanFrame) (tx_id rx_id buf_size : ℕ) (message : List ℕ)
    (cfg cfg' : TpConfig) (later later' : List (Arrival CanFrame))
    → 0 < length message
    → length message ≤ 4095
    → length message ≤ buf_size % 2 ^ 32
    → 0 < cfg.timeout_ms
    → 0 < cfg'.timeout_ms
    → receiver.sent ≡ []
    → IsDue (arriving 16 (segment tx_id message) ++ later) receiver
    → IsDue (arriving 16 (tp_recv receiver rx_id buf_size cfg).1.sent ++ later') sender
    → let (r, receiver') = tp_recv receiver rx_id buf_size cfg in
      let (s, sender') = tp_send sender tx_id message cfg' in
      (r ≡ tp_ok message)
      × (s ≡ tp_ok true)
      × (sender'.sent ≡ sender.sent ++ segment tx_id message)
      × IsDue later receiver'
      × IsDue later' sender'
tp_send-tp_recv receiver sender tx_id rx_id buf_size message cfg cfg' later later' pos hi room time
      time' none_sent due due' =
    let (got, end, sent) =
      tp_recv-frames receiver rx_id tx_id buf_size cfg message later due pos hi room time in
    let reply = sent ∙ ap (λ s. s ++ answers cfg rx_id message) none_sent in
    let replies = rw reply at due' in
    elim (Bool-cases (leb (length message) 7)) [
      | inl short ↦
          let (done, end') =
            tp_send-short sender tx_id message cfg' later' pos (ground (arith, short)) time'
              (rw short at replies) in
          (got, done, tp_send-segment sender tx_id message cfg' pos hi time' done, end, end')
      | inr long ↦
          let (done, all, end') =
            tp_send-blocks sender tx_id rx_id 0 cfg.block_size cfg.st_min message cfg' later'
              (ground (arith, long)) hi time' (omega arith) (rw long at replies) in
          (got, done, all, end, end')
    ]
