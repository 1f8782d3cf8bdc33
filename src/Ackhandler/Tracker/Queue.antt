-- ===== src/Ackhandler/Tracker/Queue.antt =====
-- internal/ackhandler/received_packet_tracker.go: an ACK is queued or the alarm is set, so that no
-- ack-eliciting packet waits longer than the maximum delay.
use gt_bbr.Prelude.{
  ℕ, ◌+◌, ◌≤◌, ◌<◌, ◌≡◌, refl, ◌⊎◌, inl, inr, Bool, true, none, some, arith, ltb, Bool-cases,
  Option-cases,
}
use gt_bbr.Wire.AckFrame.{AckFrame}
use gt_bbr.Ackhandler.PacketHistory
use gt_bbr.Ackhandler.Tracker.{
  ReceivedPacketTracker, max_ack_delay, received_packet, accepted, too_many_ranges,
  ignore_below_packet, get_ack_frame, record_packet, maybe_queue_ack, queue_next_ack,
  count_ack_eliciting, queue_or_arm, shorten_alarm, cancel_alarm, accept, observe, is_missing,
}

-- An ACK is due by the time `deadline`.
abbrev pub Due : ℕ → ReceivedPacketTracker → Type 0
Due deadline t = (t.ack_queued ≡ true) ⊎ ((0 < t.ack_alarm) × (t.ack_alarm ≤ deadline))

-- The conditions under which an ACK is due after `maybeQueueAck`.
abbrev Before : ℕ → ℕ → Bool → ReceivedPacketTracker → Type 0
Before deadline rcv i t =
    Due deadline t ⊎ ((i ≡ true) × (rcv + max_ack_delay ≤ deadline) × (t.ack_alarm ≤ deadline))

queue_next_ack-Due :
    (d r p rcv : ℕ) (i m : Bool) (t t' : ReceivedPacketTracker)
    → 0 < rcv
    → Before d rcv i t
    → queue_next_ack r p rcv i m t ≡ some t'
    → Due d t'
unfolding queue_next_ack cancel_alarm shorten_alarm count_ack_eliciting queue_or_arm
queue_next_ack-Due d r p rcv i m t t' h b e = ground arith

maybe_queue_ack-Due :
    (d r p rcv : ℕ) (i m : Bool) (t t' : ReceivedPacketTracker)
    → 0 < rcv
    → Before d rcv i t
    → maybe_queue_ack r p rcv i m t ≡ some t'
    → Due d t'
unfolding maybe_queue_ack
maybe_queue_ack-Due d r p rcv i m t t' h b e = ground (
  arith,
  queue_next_ack-Due d r p rcv i m
      (record t { packets_received_since_last_ack = t.packets_received_since_last_ack + 1 }) t' h,
)

record_packet-Due :
    (d r p rcv : ℕ) (i m : Bool) (t t' : ReceivedPacketTracker)
    → 0 < rcv
    → Before d rcv i t
    → record_packet r p rcv i m t ≡ accepted t'
    → Due d t'
unfolding record_packet observe accept
record_packet-Due d r p rcv i m t t' h b e =
    let (history, overflow) = PacketHistory.received_packet p t.packet_history in
    ground (
      arith,
      maybe_queue_ack-Due d r p rcv i m (record (observe p rcv t) { packet_history = history }) t'
          h,
    )

-- What a tracker does on a packet that it does not ignore.
received_packet-Due :
    (d r p rcv : ℕ) (i : Bool) (t t' : ReceivedPacketTracker)
    → 0 < rcv
    → t.ignore_below ≤ p
    → Before d rcv i t
    → received_packet r p rcv i t ≡ accepted t'
    → Due d t'
unfolding received_packet
received_packet-Due d r p rcv i t t' h le b e = elim (Option-cases (is_missing p t)) [
  | inl n ↦ ground arith
  | inr (m, n) ↦ record_packet-Due d r p rcv i m t t' h b (ground arith)
]

received_packet-keeps-Due :
    (d r p rcv : ℕ) (i : Bool) (t t' : ReceivedPacketTracker)
    → 0 < rcv
    → Due d t
    → received_packet r p rcv i t ≡ accepted t'
    → Due d t'
received_packet-keeps-Due d r p rcv i t t' h b e = elim (Bool-cases (ltb p t.ignore_below)) [
  | inl lt ↦ unfold received_packet in ground arith
  | inr le ↦ received_packet-Due d r p rcv i t t' h (ground arith) (inl b) e
]

refused-keeps-Due :
    (d r p rcv : ℕ) (i : Bool) (t t' : ReceivedPacketTracker)
    → Due d t
    → received_packet r p rcv i t ≡ too_many_ranges t'
    → Due d t'
unfolding received_packet record_packet observe accept
refused-keeps-Due d r p rcv i t t' b e = ground arith

-- Calls on a tracker between two frames: `GetAckFrame` may be called, but returns nil.
pub data Waits (t : ReceivedPacketTracker) : ReceivedPacketTracker → Type 0 where
  still : Waits t t
  receive :
      {u : ReceivedPacketTracker} (v : ReceivedPacketTracker) (min_rtt p rcv_time : ℕ)
      (should_instigate_ack : Bool)
      → Waits t u
      → 0 < rcv_time
      → received_packet min_rtt p rcv_time should_instigate_ack u ≡ accepted v
      → Waits t v
  refuse :
      {u : ReceivedPacketTracker} (v : ReceivedPacketTracker) (min_rtt p rcv_time : ℕ)
      (should_instigate_ack : Bool)
      → Waits t u
      → received_packet min_rtt p rcv_time should_instigate_ack u ≡ too_many_ranges v
      → Waits t v
  ignore : {u : ReceivedPacketTracker} (p : ℕ) → Waits t u → Waits t (ignore_below_packet p u)
  ask :
      {u : ReceivedPacketTracker} (time : ℕ)
      → Waits t u
      → (get_ack_frame time u).1 ≡ none
      → Waits t (get_ack_frame time u).0

Waits-Due : (d : ℕ) (t u : ReceivedPacketTracker) → Waits t u → Due d t → Due d u
unfolding ignore_below_packet get_ack_frame
Waits-Due d t u still b = b
Waits-Due d t v (receive {u = u} _ r p rcv i w h e) b =
    received_packet-keeps-Due d r p rcv i u v h (Waits-Due d t u w b) e
Waits-Due d t v (refuse {u = u} _ r p rcv i w e) b =
    refused-keeps-Due d r p rcv i u v (Waits-Due d t u w b) e
Waits-Due d t v (ignore {u = u} p w) b = ground (arith, Waits-Due d t u w b)
Waits-Due d t v (ask {u = u} time w e) b = ground (arith, Waits-Due d t u w b)

Due-fires :
    (d now : ℕ) (t : ReceivedPacketTracker)
    → Due d t
    → d ≤ now
    → (f : AckFrame) × ((get_ack_frame now t).1 ≡ some f)
unfolding get_ack_frame
Due-fires d now t b h = elim (Option-cases (get_ack_frame now t).1) [
  | inl e ↦ absurd (ground arith)
  | inr r ↦ r
]

-- After an ack-eliciting packet at or above the limit of `IgnoreBelow` was received, at a time that is
-- not zero and with no alarm later than the maximum delay after it: as long as no frame was
-- returned, whatever other calls are made, `GetAckFrame` returns a frame from the maximum delay
-- after the receipt on.
pub ack_within_max_delay :
    (min_rtt p rcv_time time : ℕ) (t t' u : ReceivedPacketTracker)
    → 0 < rcv_time
    → t.ignore_below ≤ p
    → t.ack_alarm ≤ rcv_time + max_ack_delay
    → received_packet min_rtt p rcv_time true t ≡ accepted t'
    → Waits t' u
    → rcv_time + max_ack_delay ≤ time
    → (f : AckFrame) × ((get_ack_frame time u).1 ≡ some f)
ack_within_max_delay r p rcv time t t' u h le a e w h' =
    let d = rcv + max_ack_delay in
    let due = received_packet-Due d r p rcv true t t' h le (inr (refl, omega arith, a)) e in
    Due-fires d time u (Waits-Due d t' u w due) h'
