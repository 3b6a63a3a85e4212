-- ===== src/Tp/Tests.antt =====
-- Messages of 10 and of 70 bytes over the transfers of src/tp/iso_tp.c.
use uds.Base.{ℕ, ◌≡◌, refl, true, List, [], ◌∷◌, ◌++◌, length, replicate, arith}
use uds.Can.{CanFrame, CanfdFrame, Bus, Arrival, reads}
use uds.Tp.{tp_ok, tp_err, err_wait_limit, err_sequence, TpConfig}
use uds.Tp.Frame.{classic-IsLink, ff_frame, fc_frame}
use uds.Tp.Segments.{segment, arriving, cf_frames}
use uds.Tp.Send.{tp_send}
use uds.Tp.Receive.{tp_recv}
use uds.Tp.Due.{IsDue}
use uds.Tp.Outcome.{SendDone}
use uds.Tp.Reception.{Whole, Grants}
use uds.Tp.Limits.{Outcome, tp_recv-Outcome}
use uds.Tp.Plan.{tp_send-SendDone}
use uds.Tp.Progress.{schedule, tp_send-wait_limit}
use uds.Tp.Conversation.{tp_send-tp_recv}
use uds.Tp.Gap.{without}
use uds.Tp.Lost.{tp_recv-gap}
use uds.Tp.Fd.{fd_data}
use uds.Tp.Fd.Transfer.{tp_send_fd, tp_recv_fd}
use uds.Tp.Fd.Delivery.{segment_fd}
use uds.Tp.Fd.Sending.{tp_send_fd-SendDone}
use uds.Tp.Fd.Limits.{OutcomeFd, tp_recv_fd-Outcome}
use uds.Tp.Fd.Lost.{tp_recv_fd-gap}
use uds.Tp.Fd.Frame.{fd-IsLink}

abbrev cfg : TpConfig
cfg = record { timeout_ms = 100; block_size = 1; st_min = 0 }

abbrev long_message : List ℕ
long_message = 1 ∷ 2 ∷ 3 ∷ 4 ∷ 5 ∷ 6 ∷ 7 ∷ 8 ∷ 9 ∷ 10 ∷ []

abbrev bus_of : {F : Type 0} → List (Arrival F) → Bus F
bus_of arrivals = record { is_open = true; arrivals = arrivals; writes = []; sent = []; slept = [] }

abbrev frames_due : List (Arrival CanFrame)
frames_due = arriving 16 (segment 0x601 long_message) ++ []

tp_send-SendDone_example :
    SendDone
      ([] ++ segment 0x681 long_message)
      (tp_send (bus_of []) 0x681 long_message cfg).0
      (tp_send (bus_of []) 0x681 long_message cfg).1
tp_send-SendDone_example =
    tp_send-SendDone (bus_of []) 0x681 long_message cfg (omega arith) (omega arith) (omega arith)

frames_due-Whole : Whole classic-IsLink frames_due
unfolding segment cf_frames
frames_due-Whole = ((refl, omega arith), ((refl, omega arith), tt))

tp_recv-Outcome_example :
    Outcome 64 (tp_recv (bus_of frames_due) 0x681 64 cfg).0
    × Grants classic-IsLink cfg 0x681
        (bus_of frames_due)
        (tp_recv (bus_of frames_due) 0x681 64 cfg).1
tp_recv-Outcome_example = tp_recv-Outcome (bus_of frames_due) 0x681 64 cfg frames_due-Whole

-- Two wait frames, and then blocks of two frames.
abbrev blocks_due : List (Arrival CanFrame)
blocks_due = schedule 2 0x601 2 10 long_message []

abbrev waits_due : List (Arrival CanFrame)
waits_due = replicate 11 (reads 16 (fc_frame 0x601 1 0 0)) ++ []

tp_send-wait_limit_example :
    ((tp_send (bus_of waits_due) 0x681 long_message cfg).0 ≡ tp_err err_wait_limit)
    × ((tp_send (bus_of waits_due) 0x681 long_message cfg).1.sent
        ≡ [] ++ (ff_frame 0x681 long_message 10 ∷ []))
tp_send-wait_limit_example =
    tp_send-wait_limit (bus_of waits_due) 0x681 0x601 0 0 long_message cfg [] (omega arith)
      (omega arith) (omega arith) (record { works = refl; writable = refl; due = refl })

abbrev receiver : Bus CanFrame
receiver = bus_of frames_due

abbrev sender : Bus CanFrame
sender = bus_of (arriving 16 (tp_recv receiver 0x681 64 cfg).1.sent ++ [])

tp_send-tp_recv_example :
    ((tp_recv receiver 0x681 64 cfg).0 ≡ tp_ok long_message)
    × ((tp_send sender 0x601 long_message cfg).0 ≡ tp_ok true)
    × ((tp_send sender 0x601 long_message cfg).1.sent ≡ [] ++ segment 0x601 long_message)
    × IsDue [] (tp_recv receiver 0x681 64 cfg).1
    × IsDue [] (tp_send sender 0x601 long_message cfg).1
tp_send-tp_recv_example =
    tp_send-tp_recv receiver sender 0x601 0x681 64 long_message cfg cfg [] [] (omega arith)
      (omega arith) (omega arith) (omega arith) (omega arith) refl
      (record { works = refl; writable = refl; due = refl })
      (record { works = refl; writable = refl; due = refl })

abbrev longer_message : List ℕ
longer_message = replicate 70 0x5A

abbrev receiver_fd : Bus CanfdFrame
receiver_fd = bus_of (arriving 72 (segment_fd 0x601 longer_message) ++ [])

abbrev sender_fd : Bus CanfdFrame
sender_fd = bus_of (arriving 72 (tp_recv_fd receiver_fd 0x681 128 cfg).1.sent ++ [])

tp_send_fd-SendDone_example :
    SendDone
      ([] ++ segment_fd 0x601 longer_message)
      (tp_send_fd (bus_of []) 0x601 longer_message cfg).0
      (tp_send_fd (bus_of []) 0x601 longer_message cfg).1
tp_send_fd-SendDone_example =
    tp_send_fd-SendDone (bus_of []) 0x601 longer_message cfg (omega arith) (omega arith)
      (omega arith)

frames_fd-Whole : Whole fd-IsLink receiver_fd.arrivals
unfolding segment_fd cf_frames fd_data
frames_fd-Whole = ((refl, omega arith), ((refl, omega arith), tt))

tp_recv_fd-Outcome_example :
    OutcomeFd 128 (tp_recv_fd receiver_fd 0x681 128 cfg).0
    × Grants fd-IsLink cfg 0x681 receiver_fd (tp_recv_fd receiver_fd 0x681 128 cfg).1
tp_recv_fd-Outcome_example = tp_recv_fd-Outcome receiver_fd 0x681 128 cfg frames_fd-Whole

abbrev gap_message : List ℕ
gap_message = replicate 30 0x33

abbrev gap_frames : List (Arrival CanFrame)
gap_frames = arriving 16 (without 2 1 (segment 0x601 gap_message))

gap_message-length : length (segment 0x601 gap_message) ≡ 5
unfolding segment cf_frames
gap_message-length = refl

tp_recv-gap_example : (tp_recv (bus_of (gap_frames ++ [])) 0x681 64 cfg).0 ≡ tp_err err_sequence
tp_recv-gap_example =
    tp_recv-gap (bus_of (gap_frames ++ [])) 0x681 0x601 64 2 1 cfg gap_message []
      (record { works = refl; writable = refl; due = refl }) (omega arith) (omega arith)
      (omega arith) (omega (arith, gap_message-length)) (omega arith) (omega arith) (omega arith)

abbrev gap_message_fd : List ℕ
gap_message_fd = replicate 200 0x33

abbrev gap_frames_fd : List (Arrival CanfdFrame)
gap_frames_fd = arriving 72 (without 2 1 (segment_fd 0x601 gap_message_fd))

gap_message_fd-length : length (segment_fd 0x601 gap_message_fd) ≡ 4
unfolding segment_fd cf_frames
gap_message_fd-length = refl

tp_recv_fd-gap_example :
    (tp_recv_fd (bus_of (gap_frames_fd ++ [])) 0x681 256 cfg).0 ≡ tp_err err_sequence
tp_recv_fd-gap_example =
    tp_recv_fd-gap (bus_of (gap_frames_fd ++ [])) 0x681 0x601 256 2 1 cfg gap_message_fd []
      (record { works = refl; writable = refl; due = refl }) (omega arith) (omega arith)
      (omega arith) (omega (arith, gap_message_fd-length)) (omega arith) (omega arith)
