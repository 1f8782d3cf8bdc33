-- ===== src/Tests/Ackhandler.antt =====
-- internal/ackhandler: a tracker that received two packets.
use gt_bbr.Prelude.{
  ℕ, ◌≤◌, ◌≡◌, refl, ◌↔◌, inl, Bool, true, false, Option, none, some, List, [], ◌∷◌, arith,
}
use gt_bbr.Wire.AckFrame.{AckFrame, validate_ack_ranges}
use gt_bbr.Wire.AckFrame.Acks.{acks_packet, largest_acked}
use gt_bbr.Ackhandler.PacketHistory
use gt_bbr.Ackhandler.PacketHistory.{
  insert_packet, merge_prev, get_highest_ack_range, new_received_packet_history, get_ack_ranges,
}
use gt_bbr.Ackhandler.Tracker.{
  ReceivedPacketTracker, new_received_packet_tracker, received_packet, accepted, get_ack_frame,
  is_missing, missing_in_ack, record_packet, observe, accept, maybe_queue_ack, queue_next_ack,
  has_new_missing_packets, new_missing_since, count_ack_eliciting, queue_or_arm, shorten_alarm,
  cancel_alarm,
}
use gt_bbr.Wire.FrameParser.{initial, handshake}
use gt_bbr.Ackhandler.Received.{
  ReceivedPacketHandler, new_received_packet_handler, handler_received_packet, received_on,
  put_back, drop_received, handler_get_ack_frame, ack_on, without_delay,
}
use gt_bbr.Ackhandler.Received.Spaces.{spaces_are_separate}
use gt_bbr.Ackhandler.Received.Calls.{
  Op, receive, drop_keys, acknowledge, run, call, handler_of, tracker_at, replay, reported,
}
use gt_bbr.Ackhandler.Tracker.Acked.{Logged, Reach, start, next, get_ack_frame_exact}
use gt_bbr.Ackhandler.Tracker.Acked
use gt_bbr.Ackhandler.Tracker.Queue.{still, ack_within_max_delay}

-- A tracker that received the packets from 3 up to `last`.
abbrev tracker : ℕ → ℕ → ℕ → Bool → ℕ → Option AckFrame → ReceivedPacketTracker
tracker last time count queued alarm ack = record {
  largest_observed = last;
  ignore_below = 0;
  largest_observed_received_time = time;
  packet_history = record { ranges = record { start = 3; end = last } ∷ []; lowest = 0 };
  packets_received_since_last_ack = 1;
  ack_eliciting_packets_received_since_last_ack = count;
  ack_queued = queued;
  ack_alarm = alarm;
  last_ack = ack;
}

abbrev frame_of_3 : AckFrame
frame_of_3 = record { ack_ranges = record { smallest = 3; largest = 3 } ∷ []; delay_time = 1000 }

abbrev after_first : ReceivedPacketTracker
after_first = tracker 3 1000 0 true 0 none

-- The first packet, with number 3, queues an ACK.
receives_first : received_packet 400 3 1000 true new_received_packet_tracker ≡ accepted after_first
unfolding received_packet new_received_packet_tracker new_received_packet_history is_missing
    missing_in_ack record_packet observe accept PacketHistory.received_packet insert_packet
    maybe_queue_ack
receives_first = refl

first_frame : (get_ack_frame 2000 after_first).1 ≡ some frame_of_3
unfolding get_ack_frame get_ack_ranges
first_frame = refl

Reach-first : Reach (record { tracker = after_first; log = 3 ∷ [] })
unfolding new_received_packet_tracker
Reach-first = next start (Acked.receive 400 3 1000 true _ _ [] receives_first)

get_ack_frame_exact_example :
    (validate_ack_ranges frame_of_3.ack_ranges ≡ true)
    × ((acks_packet frame_of_3 3 ≡ true) ↔ (Logged 3 (3 ∷ []) × (0 ≤ 3)))
get_ack_frame_exact_example =
    get_ack_frame_exact (record { tracker = after_first; log = 3 ∷ [] }) 2000 3 3 frame_of_3
      Reach-first (inl refl) (omega arith) first_frame

abbrev acked_first : ReceivedPacketTracker
acked_first = tracker 3 1000 0 false 0 (some frame_of_3)

-- The next packet sets the short timer, an eighth of the round-trip time of 400.
abbrev after_second : ReceivedPacketTracker
after_second = record (tracker 4 5000 1 false 5050 (some frame_of_3)) {
  packets_received_since_last_ack = 2;
}

receives_second : received_packet 400 4 5000 true acked_first ≡ accepted after_second
unfolding received_packet is_missing missing_in_ack record_packet observe accept
    PacketHistory.received_packet insert_packet merge_prev maybe_queue_ack queue_next_ack
    has_new_missing_packets new_missing_since get_highest_ack_range count_ack_eliciting queue_or_arm
    shorten_alarm cancel_alarm largest_acked acks_packet
receives_second = refl

ack_within_max_delay_example : (f : AckFrame) × ((get_ack_frame 25005000 after_second).1 ≡ some f)
ack_within_max_delay_example =
    ack_within_max_delay 400 4 5000 25005000 acked_first after_second after_second (omega arith)
      (omega arith) (omega arith) receives_second still (omega arith)

abbrev received_ops : List Op
received_ops = receive 400 3 initial 1000 true ∷ drop_keys handshake ∷ acknowledge 2000 initial ∷ []

abbrev or_new : Option ReceivedPacketHandler → ReceivedPacketHandler
or_new none = new_received_packet_handler
or_new (some h) = h

abbrev after_ops : ReceivedPacketHandler
after_ops = or_new (run received_ops new_received_packet_handler)

ops_run : run received_ops new_received_packet_handler ≡ some after_ops
unfolding run call handler_of handler_received_packet received_on put_back drop_received
    handler_get_ack_frame ack_on without_delay get_ack_frame new_received_packet_handler
    received_packet new_received_packet_tracker new_received_packet_history is_missing
    missing_in_ack record_packet observe accept PacketHistory.received_packet insert_packet
    maybe_queue_ack
ops_run = refl

spaces_are_separate_example :
    (tracker_at initial after_ops
      ≡ replay initial received_ops (tracker_at initial new_received_packet_handler))
    × ((handler_get_ack_frame 3000 initial after_ops).1
        ≡ reported initial 3000
            (replay initial received_ops (tracker_at initial new_received_packet_handler)))
spaces_are_separate_example =
    spaces_are_separate initial received_ops 3000 new_received_packet_handler after_ops ops_run
