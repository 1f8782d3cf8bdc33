-- ===== src/Ackhandler/Tracker/Recording.antt =====
-- internal/ackhandler/received_packet_tracker.go: what `ReceivedPacket` does to the history.
use gt_bbr.Prelude.{ℕ, ◌+◌, ◌≤◌, ◌<◌, ◌≡◌, inl, inr, Bool, some, arith, Option-cases}
use gt_bbr.Ackhandler.PacketHistory
use gt_bbr.Ackhandler.PacketHistory.{ReceivedPacketHistory, insert_packet}
use gt_bbr.Ackhandler.Tracker.{
  ReceivedPacketTracker, received_packet, accepted, too_many_ranges, record_packet, maybe_queue_ack,
  queue_next_ack, count_ack_eliciting, queue_or_arm, shorten_alarm, cancel_alarm, accept, observe,
  is_missing,
}

-- Two trackers with the same history and limit.
abbrev pub SameHistory : ReceivedPacketTracker → ReceivedPacketTracker → Type 0
SameHistory t t' = (t'.packet_history ≡ t.packet_history) × (t'.ignore_below ≡ t.ignore_below)

finish-SameHistory :
    (m : Bool) (a : ℕ) (t : ReceivedPacketTracker)
    → SameHistory t (cancel_alarm (shorten_alarm m a t))
unfolding cancel_alarm shorten_alarm
finish-SameHistory m a t = ground arith

count_ack_eliciting-SameHistory :
    (r p rcv : ℕ) (t : ReceivedPacketTracker) → SameHistory t (count_ack_eliciting r p rcv t)
unfolding count_ack_eliciting queue_or_arm
count_ack_eliciting-SameHistory r p rcv t = ground arith

queue_next_ack-SameHistory :
    (r p rcv : ℕ) (i m : Bool) (t t' : ReceivedPacketTracker)
    → queue_next_ack r p rcv i m t ≡ some t'
    → SameHistory t t'
unfolding queue_next_ack cancel_alarm shorten_alarm count_ack_eliciting queue_or_arm
queue_next_ack-SameHistory r p rcv i m t t' e = ground arith

maybe_queue_ack-SameHistory :
    (r p rcv : ℕ) (i m : Bool) (t t' : ReceivedPacketTracker)
    → maybe_queue_ack r p rcv i m t ≡ some t'
    → SameHistory t t'
unfolding maybe_queue_ack
maybe_queue_ack-SameHistory r p rcv i m t t' e = ground (
  arith,
  queue_next_ack-SameHistory r p rcv i m
      (record t { packets_received_since_last_ack = t.packets_received_since_last_ack + 1 }) t',
)

-- What `ReceivedPacket` does to the history when it returns.
abbrev pub Recorded : ℕ → ReceivedPacketTracker → ReceivedPacketTracker → Type 0
Recorded p t t' =
    (t'.packet_history.ranges ≡ insert_packet p t.packet_history.ranges)
    × (t'.packet_history.lowest ≡ t.packet_history.lowest)
    × (t'.ignore_below ≡ t.ignore_below)

record_packet-Recorded :
    (r p rcv : ℕ) (i m : Bool) (t t' : ReceivedPacketTracker)
    → record_packet r p rcv i m t ≡ accepted t'
    → Recorded p t t'
unfolding record_packet observe accept PacketHistory.received_packet
record_packet-Recorded r p rcv i m t t' e =
    let history : ReceivedPacketHistory = record t.packet_history {
      ranges = insert_packet p t.packet_history.ranges;
    } in
    ground (
      arith,
      maybe_queue_ack-SameHistory r p rcv i m
          (record (observe p rcv t) { packet_history = history }) t',
    )

record_packet-SameHistory :
    (r p rcv : ℕ) (i m : Bool) (t t' : ReceivedPacketTracker)
    → record_packet r p rcv i m t ≡ too_many_ranges t'
    → SameHistory t t'
unfolding record_packet observe accept
record_packet-SameHistory r p rcv i m t t' e = ground arith

pub accepted-Recorded :
    (r p rcv : ℕ) (i : Bool) (t t' : ReceivedPacketTracker)
    → received_packet r p rcv i t ≡ accepted t'
    → t.ignore_below ≤ p
    → Recorded p t t'
unfolding received_packet
accepted-Recorded r p rcv i t t' e le = elim (Option-cases (is_missing p t)) [
  | inl h ↦ ground arith
  | inr (m, h) ↦ record_packet-Recorded r p rcv i m t t' (ground arith)
]

pub accepted-ignored :
    (r p rcv : ℕ) (i : Bool) (t t' : ReceivedPacketTracker)
    → received_packet r p rcv i t ≡ accepted t'
    → p < t.ignore_below
    → SameHistory t t'
unfolding received_packet
accepted-ignored r p rcv i t t' e lt = ground arith

pub refused-SameHistory :
    (r p rcv : ℕ) (i : Bool) (t t' : ReceivedPacketTracker)
    → received_packet r p rcv i t ≡ too_many_ranges t'
    → SameHistory t t'
unfolding received_packet
refused-SameHistory r p rcv i t t' e = elim (Option-cases (is_missing p t)) [
  | inl h ↦ ground arith
  | inr (m, h) ↦ record_packet-SameHistory r p rcv i m t t' (ground arith)
]
