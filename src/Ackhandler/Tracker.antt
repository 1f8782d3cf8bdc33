-- ===== src/Ackhandler/Tracker.antt =====
-- internal/ackhandler/received_packet_tracker.go: which packets of a packet number space are
-- acknowledged, and when. A `time.Time` or `time.Duration` is in nanoseconds, the zero time is 0, and
-- the clock does not run backwards. `rttStats.MinRTT()` is an argument; a quarter and an eighth of
-- it are exact in `float64` below 2 ^ 53.
pub mod Recording
pub mod Queue
pub mod Acked
use gt_bbr.Prelude.{
  ℕ, ◌+◌, ◌-◌, ◌*◌, ◌/◌, min, Bool, true, false, not, ◌&&◌, ◌||◌, Option, none, some, ltb, leb,
  ◌==◌, if◌then◌else◌, length,
}
use gt_bbr.Wire.AckFrame.{AckFrame, AckRange, length_ack_range}
use gt_bbr.Wire.AckFrame.Acks.{largest_acked, acks_packet}
use gt_bbr.Ackhandler.PacketHistory
use gt_bbr.Ackhandler.PacketHistory.{
  ReceivedPacketHistory, new_received_packet_history, delete_below, get_ack_ranges,
  get_highest_ack_range,
}

pub record ReceivedPacketTracker : Type 0 where
  pub largest_observed : ℕ
  pub ignore_below : ℕ
  pub largest_observed_received_time : ℕ
  pub packet_history : ReceivedPacketHistory
  pub packets_received_since_last_ack : ℕ
  pub ack_eliciting_packets_received_since_last_ack : ℕ
  pub ack_queued : Bool
  pub ack_alarm : ℕ
  pub last_ack : Option AckFrame

abbrev pub max_ack_delay : ℕ
max_ack_delay = 25 * 1000000

abbrev pub initial_ack_eliciting_packets_before_ack : ℕ
initial_ack_eliciting_packets_before_ack = 2

abbrev pub ack_eliciting_packets_before_ack : ℕ
ack_eliciting_packets_before_ack = 10

abbrev pub min_received_before_ack_decimation : ℕ
min_received_before_ack_decimation = 100

abbrev pub max_packets_after_new_missing : ℕ
max_packets_after_new_missing = 4

unfoldable pub new_received_packet_tracker : ReceivedPacketTracker
new_received_packet_tracker = record {
  largest_observed = 0;
  ignore_below = 0;
  largest_observed_received_time = 0;
  packet_history = new_received_packet_history;
  packets_received_since_last_ack = 0;
  ack_eliciting_packets_received_since_last_ack = 0;
  ack_queued = false;
  ack_alarm = 0;
  last_ack = none;
}

unfoldable pub ignore_below_packet : ℕ → ReceivedPacketTracker → ReceivedPacketTracker
ignore_below_packet p t =
    if leb p t.ignore_below
    then t
    else record t { ignore_below = p; packet_history = delete_below p t.packet_history }

-- `LargestAcked` of a frame without ranges is an index out of range, which is `none`.
unfoldable pub missing_in_ack : ℕ → Option AckFrame → Option Bool
missing_in_ack p none = some false
missing_in_ack p (some f) =
    if length f.ack_ranges == 0
    then none
    else some (ltb p (largest_acked f) && not (acks_packet f p))

-- `isMissing`; `none` is a panic.
unfoldable pub is_missing : ℕ → ReceivedPacketTracker → Option Bool
is_missing p t = if ltb p t.ignore_below then some false else missing_in_ack p t.last_ack

unfoldable pub new_missing_since : AckRange → Option AckFrame → Option Bool
new_missing_since highest none = some false
new_missing_since highest (some f) =
    if length f.ack_ranges == 0
    then none
    else some (
        leb (largest_acked f) highest.smallest
        && leb (length_ack_range highest) max_packets_after_new_missing)

-- `hasNewMissingPackets`; `none` is a panic.
unfoldable pub has_new_missing_packets : ReceivedPacketTracker → Option Bool
has_new_missing_packets t = new_missing_since (get_highest_ack_range t.packet_history) t.last_ack

-- Enough packets queue an ACK; else the alarm is set, if it is not set yet.
unfoldable pub queue_or_arm : ℕ → ℕ → ReceivedPacketTracker → ReceivedPacketTracker
queue_or_arm threshold alarm t =
    if leb threshold t.ack_eliciting_packets_received_since_last_ack
    then record t { ack_queued = true }
    else if t.ack_alarm == 0
    then record t { ack_alarm = alarm }
    else t

unfoldable pub count_ack_eliciting : ℕ → ℕ → ℕ → ReceivedPacketTracker → ReceivedPacketTracker
count_ack_eliciting min_rtt packet_number rcv_time t =
    let counted = record t {
      ack_eliciting_packets_received_since_last_ack =
          t.ack_eliciting_packets_received_since_last_ack + 1;
    } in
    if ltb min_received_before_ack_decimation packet_number
    then queue_or_arm ack_eliciting_packets_before_ack (rcv_time + min max_ack_delay (min_rtt / 4))
        counted
    else queue_or_arm initial_ack_eliciting_packets_before_ack (rcv_time + max_ack_delay) counted

-- The short timer for new missing packets.
unfoldable pub shorten_alarm : Bool → ℕ → ReceivedPacketTracker → ReceivedPacketTracker
shorten_alarm new_missing ack_time t =
    if new_missing && (t.ack_alarm == 0 || ltb ack_time t.ack_alarm)
    then record t { ack_alarm = ack_time }
    else t

unfoldable pub cancel_alarm : ReceivedPacketTracker → ReceivedPacketTracker
cancel_alarm t = if t.ack_queued then record t { ack_alarm = 0 } else t

-- `maybeQueueAck` once there was an ACK before.
unfoldable pub queue_next_ack :
    ℕ → ℕ → ℕ → Bool → Bool → ReceivedPacketTracker → Option ReceivedPacketTracker
queue_next_ack min_rtt packet_number rcv_time should_instigate_ack was_missing t =
    let t1 = if was_missing then record t { ack_queued = true } else t in
    if not t1.ack_queued && should_instigate_ack
    then elim (has_new_missing_packets t) [
      | none ↦ none
      | some new_missing ↦
          let t2 = count_ack_eliciting min_rtt packet_number rcv_time t1 in
          some (cancel_alarm (shorten_alarm new_missing (rcv_time + min_rtt / 8) t2))
    ]
    else some (cancel_alarm t1)

-- `maybeQueueAck`; `none` is a panic.
unfoldable pub maybe_queue_ack :
    ℕ → ℕ → ℕ → Bool → Bool → ReceivedPacketTracker → Option ReceivedPacketTracker
maybe_queue_ack min_rtt packet_number rcv_time should_instigate_ack was_missing t =
    let counted = record t {
      packets_received_since_last_ack = t.packets_received_since_last_ack + 1;
    } in
    elim t.last_ack [
      | none ↦ some (record counted { ack_queued = true })
      | some f ↦
          queue_next_ack min_rtt packet_number rcv_time should_instigate_ack was_missing counted
    ]

-- What `ReceivedPacket` does: it returns nil or the error of too many ranges, with the tracker after
-- it, or it panics.
pub data Received : Type 0 where
  accepted : ReceivedPacketTracker → Received
  too_many_ranges : ReceivedPacketTracker → Received
  panicked : Received

unfoldable pub observe : ℕ → ℕ → ReceivedPacketTracker → ReceivedPacketTracker
observe packet_number rcv_time t =
    if leb t.largest_observed packet_number
    then record t { largest_observed = packet_number; largest_observed_received_time = rcv_time }
    else t

unfoldable pub accept : Option ReceivedPacketTracker → Received
accept none = panicked
accept (some t) = accepted t

-- `ReceivedPacket` once it is known whether the packet was reported missing.
unfoldable pub record_packet : ℕ → ℕ → ℕ → Bool → Bool → ReceivedPacketTracker → Received
record_packet min_rtt packet_number rcv_time should_instigate_ack was_missing t =
    let t1 = observe packet_number rcv_time t in
    let (history, overflow) = PacketHistory.received_packet packet_number t1.packet_history in
    if overflow
    then too_many_ranges t1
    else accept (
        maybe_queue_ack min_rtt packet_number rcv_time should_instigate_ack was_missing
          (record t1 { packet_history = history }))

unfoldable pub received_packet : ℕ → ℕ → ℕ → Bool → ReceivedPacketTracker → Received
received_packet min_rtt packet_number rcv_time should_instigate_ack t =
    if ltb packet_number t.ignore_below then accepted t else elim (is_missing packet_number t) [
      | none ↦ panicked
      | some was_missing ↦
          record_packet min_rtt packet_number rcv_time should_instigate_ack was_missing t
    ]

unfoldable pub get_ack_frame : ℕ → ReceivedPacketTracker → ReceivedPacketTracker × Option AckFrame
get_ack_frame now t =
    if not t.ack_queued && (t.ack_alarm == 0 || ltb now t.ack_alarm)
    then (t, none)
    else let ack : AckFrame = record {
      ack_ranges = get_ack_ranges t.packet_history;
      delay_time = now - t.largest_observed_received_time;
    } in
      (
        record t {
          last_ack = some ack;
          ack_alarm = 0;
          ack_queued = false;
          packets_received_since_last_ack = 0;
          ack_eliciting_packets_received_since_last_ack = 0;
        },
        some ack,
      )
