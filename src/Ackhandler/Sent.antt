-- ===== src/Ackhandler/Sent.antt =====
-- internal/ackhandler/sent_packet_handler.go, send_mode.go: the packets that were sent in the three
-- packet number spaces. Times are in nanoseconds, the zero time is 0. The congestion controller is
-- the BBR sender, which `NewSentPacketHandler` makes. A space whose keys were dropped is `none`, and
-- its use is a panic; after an error the connection is closed, so that no state is kept.
pub mod Sending
pub mod Acks
pub mod Loss
pub mod Acked
pub mod Received
pub mod Dequeue
pub mod Bytes
pub mod Accounting
pub mod Calls
pub mod Untouched
pub mod Unrecovered
use gt_bbr.Prelude.{
  ℕ, ◌+◌, ◌-◌, ◌*◌, ◌^◌, max, Bool, true, false, not, ◌||◌, Option, none, some, List, [], ◌==◌,
  if◌then◌else◌, length,
}
use gt_bbr.Prelude.Reader.{Result, ok, err, panic}
use gt_bbr.Utils.VarInt.{u64}
use gt_bbr.Wire.FrameParser.{EncryptionLevel, unspecified, initial, handshake, one_rtt}
use gt_bbr.Ackhandler.SentHistory.{
  Packet, SentPacketHistory, new_sent_packet_history, has_outstanding_packets,
}
use gt_bbr.Ackhandler.Generator.{PacketNumberGenerator, new_packet_number_generator}
use gt_bbr.Congestion.Bbr.State.{BbrSender, Inputs, Gain, new_bbr_sender}
use gt_bbr.Congestion.Bbr.Model
use gt_bbr.Congestion.RttStats.{RttStats, Weights, smoothed_or_initial_rtt, new_rtt_stats}

-- `none` is `InvalidPacketNumber`.
pub record PacketNumberSpace : Type 0 where
  pub history : SentPacketHistory
  pub pns : PacketNumberGenerator
  pub largest_acked : Option ℕ
  pub largest_sent : Option ℕ

pub record SentPacketHandler : Type 0 where
  pub last_sent_ack_eliciting_packet_time : ℕ
  pub last_sent_crypto_packet_time : ℕ
  pub next_send_time : ℕ
  pub initial_packets : Option PacketNumberSpace
  pub handshake_packets : Option PacketNumberSpace
  pub one_rtt_packets : PacketNumberSpace
  pub lowest_not_confirmed_acked : ℕ
  pub retransmission_queue : List Packet
  pub bytes_in_flight : ℕ
  pub congestion : BbrSender
  pub rtt_stats : RttStats
  pub max_ack_delay : ℕ
  pub crypto_count : ℕ
  pub pto_count : ℕ
  pub num_probes_to_send : ℕ
  pub loss_time : ℕ
  pub alarm : ℕ

-- The random numbers and the floating-point products; `loss_delay` is `timeThreshold` times a
-- duration.
pub record Outside : Type 0 where
  pub random : ℕ
  pub scale : Gain → ℕ → ℕ
  pub reduced_rate : ℕ → ℕ → ℕ → ℕ → ℕ
  pub weights : Weights
  pub loss_delay : ℕ → ℕ

-- `GetBytesInFlight` of the sender is the field of the handler.
unfoldable pub inputs : Outside → SentPacketHandler → Inputs
inputs o h = record {
  bytes_in_flight = h.bytes_in_flight;
  random = o.random;
  stats_min_rtt = h.rtt_stats.min_rtt;
  scale = o.scale;
  reduced_rate = o.reduced_rate;
}

abbrev pub skip_packet_average_period_length : ℕ
skip_packet_average_period_length = 500

-- 1 millisecond
abbrev pub timer_granularity : ℕ
timer_granularity = 10 ^ 6

unfoldable pub new_packet_number_space : ℕ → ℕ → PacketNumberSpace
new_packet_number_space random initial_pn = record {
  history = new_sent_packet_history;
  pns = new_packet_number_generator random initial_pn skip_packet_average_period_length;
  largest_sent = none;
  largest_acked = none;
}

-- 32 and 2000 segments
unfoldable pub new_sent_packet_handler : ℕ → ℕ → SentPacketHandler
unfolding new_packet_number_space
new_sent_packet_handler random initial_packet_number = record {
  last_sent_ack_eliciting_packet_time = 0;
  last_sent_crypto_packet_time = 0;
  next_send_time = 0;
  initial_packets = some (new_packet_number_space random initial_packet_number);
  handshake_packets = some (new_packet_number_space random 0);
  one_rtt_packets = new_packet_number_space random 0;
  lowest_not_confirmed_acked = 0;
  retransmission_queue = [];
  bytes_in_flight = 0;
  congestion = new_bbr_sender (32 * 1460) (2000 * 1460);
  rtt_stats = new_rtt_stats;
  max_ack_delay = 0;
  crypto_count = 0;
  pto_count = 0;
  num_probes_to_send = 0;
  loss_time = 0;
  alarm = 0;
}

abbrev pub present : Option PacketNumberSpace → Result PacketNumberSpace
present none = err panic
present (some s) = ok s

-- `getPacketNumberSpace`, and a use of what it returns.
unfoldable pub get_packet_number_space :
    EncryptionLevel → SentPacketHandler → Result PacketNumberSpace
get_packet_number_space unspecified h = err panic
get_packet_number_space initial h = present h.initial_packets
get_packet_number_space handshake h = present h.handshake_packets
get_packet_number_space one_rtt h = ok h.one_rtt_packets

-- A change of a space, through the pointer to it.
unfoldable pub set_packet_number_space :
    EncryptionLevel → PacketNumberSpace → SentPacketHandler → SentPacketHandler
set_packet_number_space unspecified s h = h
set_packet_number_space initial s h = record h { initial_packets = some s }
set_packet_number_space handshake s h = record h { handshake_packets = some s }
set_packet_number_space one_rtt s h = record h { one_rtt_packets = s }

abbrev pub is_one_rtt : EncryptionLevel → Bool
is_one_rtt one_rtt = true
is_one_rtt _ = false

abbrev pub space_has_outstanding : Option PacketNumberSpace → Bool
space_has_outstanding none = false
space_has_outstanding (some s) = has_outstanding_packets s.history

unfoldable pub has_outstanding_crypto_packets : SentPacketHandler → Bool
has_outstanding_crypto_packets h =
    space_has_outstanding h.initial_packets || space_has_outstanding h.handshake_packets

unfoldable pub handler_has_outstanding_packets : SentPacketHandler → Bool
unfolding has_outstanding_crypto_packets
handler_has_outstanding_packets h =
    has_outstanding_packets h.one_rtt_packets.history || has_outstanding_crypto_packets h

-- The shifts stay below 64 bits: each one doubles the time until the alarm.
unfoldable pub compute_crypto_timeout : SentPacketHandler → ℕ
compute_crypto_timeout h =
    max (2 * smoothed_or_initial_rtt h.rtt_stats) timer_granularity * 2 ^ h.crypto_count

unfoldable pub compute_pto_timeout : SentPacketHandler → ℕ
compute_pto_timeout h =
    (smoothed_or_initial_rtt h.rtt_stats
      + max (4 * h.rtt_stats.mean_deviation) timer_granularity
      + h.max_ack_delay)
    * 2 ^ h.pto_count

unfoldable pub update_loss_detection_alarm : SentPacketHandler → SentPacketHandler
unfolding handler_has_outstanding_packets compute_crypto_timeout compute_pto_timeout
update_loss_detection_alarm h =
    if not (handler_has_outstanding_packets h)
    then record h { alarm = 0 }
    else if has_outstanding_crypto_packets h
    then record h { alarm = h.last_sent_crypto_packet_time + compute_crypto_timeout h }
    else if not (h.loss_time == 0)
    then record h { alarm = h.loss_time }
    else record h { alarm = h.last_sent_ack_eliciting_packet_time + compute_pto_timeout h }

unfoldable pub set_max_ack_delay : ℕ → SentPacketHandler → SentPacketHandler
set_max_ack_delay max_ack_delay h = record h { max_ack_delay = max_ack_delay }

-- `a - b` on 64-bit words.
abbrev pub sub_word : ℕ → ℕ → ℕ
sub_word a b = u64 (a + (2 ^ 64 - u64 b))

-- `ToPacket`
unfoldable pub to_packet : Packet → Model.Packet
to_packet p = record { packet_number = p.packet_number; length = p.length }
