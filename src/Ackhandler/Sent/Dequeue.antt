-- ===== src/Ackhandler/Sent/Dequeue.antt =====
-- internal/ackhandler/sent_packet_handler.go, send_mode.go: what is sent next; keys are dropped; the
-- first packets are sent again after a Retry.
use gt_bbr.Prelude.{
  ℕ, ◌+◌, ◌-◌, ◌*◌, ◌/◌, not, ◌||◌, Option, none, some, List, [], ◌∷◌, ◌++◌, ltb, leb, ◌==◌,
  if◌then◌else◌, length,
}
use gt_bbr.Prelude.Reader.{◌>>=◌, Result, ok, err, panic, no_outstanding_packets}
use gt_bbr.Wire.FrameParser.{EncryptionLevel, unspecified, initial, handshake, one_rtt, is_level}
use gt_bbr.Ackhandler.SentHistory.{Packet, history_len, first_outstanding_packet, collect}
use gt_bbr.Ackhandler.Sent.{
  sub_word, PacketNumberSpace, SentPacketHandler, Outside, inputs, get_packet_number_space,
  set_packet_number_space, update_loss_detection_alarm, present, new_packet_number_space,
}
use gt_bbr.Ackhandler.Sent.Loss.{queue_packet_for_retransmission, retransmittable}
use gt_bbr.Ackhandler.Sent.Sending.{time_until_send}
use gt_bbr.Ackhandler.Generator
use gt_bbr.Congestion.Bbr.Queries.{can_send}
use gt_bbr.Protocol.PacketNumber.{get_packet_number_length_for_header}

-- The packet is the head of the queue.
unfoldable pub dequeue_packet_for_retransmission :
    SentPacketHandler → SentPacketHandler × Option Packet
dequeue_packet_for_retransmission h = elim h.retransmission_queue [
  | [] ↦ (h, none)
  | p ∷ rest ↦ (record h { retransmission_queue = rest }, some p)
]

abbrev pub queue_first_outstanding : SentPacketHandler → Result SentPacketHandler
queue_first_outstanding h = elim (first_outstanding_packet h.one_rtt_packets.history) [
  | none ↦ err no_outstanding_packets
  | some p ↦ queue_packet_for_retransmission one_rtt p h
]

unfoldable pub dequeue_probe_packet : SentPacketHandler → Result (SentPacketHandler × Option Packet)
unfolding dequeue_packet_for_retransmission first_outstanding_packet queue_packet_for_retransmission
dequeue_probe_packet h = do
  h1 ← if length h.retransmission_queue == 0 then queue_first_outstanding h else ok h
  ok (dequeue_packet_for_retransmission h1)

abbrev pub lowest_unacked : PacketNumberSpace → ℕ
lowest_unacked s = elim (first_outstanding_packet s.history) [
  | some p ↦ p.packet_number
  | none ↦ elim s.largest_acked [ none ↦ 0 | some n ↦ n + 1 ]
]

-- The next packet number and the length of its encoding.
unfoldable pub peek_packet_number : EncryptionLevel → SentPacketHandler → Result (ℕ × ℕ)
unfolding get_packet_number_space first_outstanding_packet
peek_packet_number level h = do
  s ← get_packet_number_space level h
  ok (s.pns.next, get_packet_number_length_for_header s.pns.next (lowest_unacked s))

unfoldable pub pop_packet_number :
    ℕ → EncryptionLevel → SentPacketHandler → Result (SentPacketHandler × ℕ)
unfolding get_packet_number_space set_packet_number_space
pop_packet_number random level h = do
  s ← get_packet_number_space level h
  ok (
    set_packet_number_space level (record s { pns = (Generator.pop random s.pns).0 }) h,
    (Generator.pop random s.pns).1,
  )

pub data SendMode : Type 0 where
  send_none : SendMode
  send_ack : SendMode
  send_retransmission : SendMode
  send_pto : SendMode
  send_any : SendMode

abbrev pub max_outstanding_sent_packets : ℕ
max_outstanding_sent_packets = 2 * 1000

abbrev pub max_tracked_sent_packets : ℕ
max_tracked_sent_packets = max_outstanding_sent_packets * 5 / 4

abbrev pub space_len : Option PacketNumberSpace → ℕ
space_len none = 0
space_len (some s) = history_len s.history

unfoldable pub num_tracked_packets : SentPacketHandler → ℕ
unfolding history_len
num_tracked_packets h =
    length h.retransmission_queue
    + history_len h.one_rtt_packets.history
    + space_len h.initial_packets
    + space_len h.handshake_packets

unfoldable pub send_mode : Outside → SentPacketHandler → SendMode
unfolding num_tracked_packets inputs can_send
send_mode o h =
    if leb max_tracked_sent_packets (num_tracked_packets h)
    then send_none
    else if ltb 0 h.num_probes_to_send
    then send_pto
    else if not (can_send (inputs o h) h.bytes_in_flight h.congestion)
    then send_ack
    else if not (length h.retransmission_queue == 0)
    then send_retransmission
    else if leb max_outstanding_sent_packets (num_tracked_packets h)
    then send_ack
    else send_any

-- 100 microseconds
abbrev pub min_pacing_delay : ℕ
min_pacing_delay = 100 * 1000

-- The quotient is rounded up.
unfoldable pub should_send_num_packets : SentPacketHandler → ℕ
should_send_num_packets h =
    if ltb 0 h.num_probes_to_send
    then h.num_probes_to_send
    else if time_until_send == 0 || ltb min_pacing_delay time_until_send
    then 1
    else (min_pacing_delay + time_until_send - 1) / time_until_send

-- The bytes in flight without the packets of a space that count.
abbrev pub subtract_packets : List Packet → ℕ → ℕ
subtract_packets [] n = n
subtract_packets (p ∷ ps) n =
    if p.included_in_bytes_in_flight
    then subtract_packets ps (sub_word n p.length)
    else subtract_packets ps n

-- The space of a level becomes nil; only the first two levels can be dropped.
abbrev pub drop_space : EncryptionLevel → SentPacketHandler → Result SentPacketHandler
drop_space initial h = ok (record h { initial_packets = none })
drop_space handshake h = ok (record h { handshake_packets = none })
drop_space one_rtt h = err panic
drop_space unspecified h = err panic

unfoldable pub drop_packets : EncryptionLevel → SentPacketHandler → Result SentPacketHandler
unfolding get_packet_number_space
drop_packets level h = do
  s ← get_packet_number_space level h
  drop_space level (record h {
    bytes_in_flight = subtract_packets s.history.packet_list h.bytes_in_flight;
    retransmission_queue =
        collect (λ p. not (is_level p.encryption_level level)) h.retransmission_queue;
  })

unfoldable pub reset_for_retry : ℕ → SentPacketHandler → Result SentPacketHandler
unfolding new_packet_number_space update_loss_detection_alarm
reset_for_retry random h = do
  s ← present h.initial_packets
  ok (
      update_loss_detection_alarm (record h {
        crypto_count = 0;
        bytes_in_flight = 0;
        retransmission_queue = h.retransmission_queue ++ retransmittable s.history;
        initial_packets = some (new_packet_number_space random (Generator.pop random s.pns).1);
      }))
