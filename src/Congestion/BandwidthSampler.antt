-- ===== src/Congestion/BandwidthSampler.antt =====
-- internal/congestion/bandwidth_sampler.go, bandwidth.go: the bandwidth is estimated from the bytes
-- that were sent and acknowledged between two packets. A time is the number of nanoseconds since the
-- zero time, which is 0; the map of sent packets is an association list; the time never runs
-- backwards by more than a subtraction of natural numbers shows, since each difference is guarded by
-- a comparison.
pub mod Accounting
pub mod AppLimited
use gt_bbr.Prelude.{
  ℕ, ◌+◌, ◌-◌, ◌*◌, ◌/◌, ◌^◌, min, Bool, true, false, not, ◌&&◌, Option, none, some, List, [], ◌∷◌,
  ltb, ◌==◌, if◌then◌else◌,
}
use gt_bbr.Utils.VarInt.{u64}

abbrev pub max_int64 : ℕ
max_int64 = 2 ^ 63 - 1

abbrev pub infinite_bandwidth : ℕ
infinite_bandwidth = 2 ^ 64 - 1

abbrev pub infinite_rtt : ℕ
infinite_rtt = max_int64

-- `Time.Sub` saturates at the largest duration.
unfoldable pub time_sub : ℕ → ℕ → ℕ
time_sub a b = min (a - b) max_int64

-- Bits per second, in 64-bit arithmetic. Both callers pass a positive delta.
unfoldable pub bandwidth_from_delta : ℕ → ℕ → ℕ
bandwidth_from_delta bytes delta = u64 (u64 (bytes * 10 ^ 9) / delta * 8)

unfoldable pub min_bandwidth : ℕ → ℕ → ℕ
min_bandwidth a b = if ltb a b then a else b

pub record SendTimeState : Type 0 where
  pub is_valid : Bool
  pub is_app_limited : Bool
  pub total_bytes_sent : ℕ
  pub total_bytes_acked : ℕ
  pub total_bytes_lost : ℕ

pub record ConnectionStateOnSentPacket : Type 0 where
  pub packet_number : ℕ
  pub send_time : ℕ
  pub size : ℕ
  pub total_bytes_sent_at_last_acked_packet : ℕ
  pub last_acked_packet_sent_time : ℕ
  pub last_acked_packet_ack_time : ℕ
  pub send_time_state : SendTimeState

pub record BandwidthSample : Type 0 where
  pub bandwidth : ℕ
  pub rtt : ℕ
  pub state_at_send : SendTimeState

pub record BandwidthSampler : Type 0 where
  pub total_bytes_sent : ℕ
  pub total_bytes_acked : ℕ
  pub total_bytes_lost : ℕ
  pub total_bytes_sent_at_last_acked_packet : ℕ
  pub last_acked_packet_sent_time : ℕ
  pub last_acked_packet_ack_time : ℕ
  pub last_send_packet : ℕ
  pub is_app_limited : Bool
  pub end_of_app_limited_phase : ℕ
  pub connection_stats : List ConnectionStateOnSentPacket

unfoldable pub invalid_state : Bool → SendTimeState
invalid_state is_valid = record {
  is_valid = is_valid;
  is_app_limited = false;
  total_bytes_sent = 0;
  total_bytes_acked = 0;
  total_bytes_lost = 0;
}

unfoldable pub new_bandwidth_sample : BandwidthSample
new_bandwidth_sample = record {
  bandwidth = 0;
  rtt = infinite_rtt;
  state_at_send = invalid_state false;
}

unfoldable pub new_bandwidth_sampler : BandwidthSampler
new_bandwidth_sampler = record {
  total_bytes_sent = 0;
  total_bytes_acked = 0;
  total_bytes_lost = 0;
  total_bytes_sent_at_last_acked_packet = 0;
  last_acked_packet_sent_time = 0;
  last_acked_packet_ack_time = 0;
  last_send_packet = 0;
  is_app_limited = false;
  end_of_app_limited_phase = 0;
  connection_stats = [];
}

-- `ConnectionStates.Get`
unfoldable pub get_state : ℕ → List ConnectionStateOnSentPacket → Option ConnectionStateOnSentPacket
get_state p [] = none
get_state p (c ∷ cs) =
    let further = get_state p cs in if c.packet_number == p then some c else further

-- `ConnectionStates.Remove`: what is left; the state itself is what `Get` returns.
unfoldable pub remove_state :
    ℕ → List ConnectionStateOnSentPacket → List ConnectionStateOnSentPacket
remove_state p [] = []
remove_state p (c ∷ cs) =
    let further = remove_state p cs in if c.packet_number == p then cs else c ∷ further

unfoldable pub new_connection_state_on_sent_packet :
    ℕ → ℕ → ℕ → BandwidthSampler → ConnectionStateOnSentPacket
new_connection_state_on_sent_packet packet_number sent_time bytes s = record {
  packet_number = packet_number;
  send_time = sent_time;
  size = bytes;
  total_bytes_sent_at_last_acked_packet = s.total_bytes_sent_at_last_acked_packet;
  last_acked_packet_sent_time = s.last_acked_packet_sent_time;
  last_acked_packet_ack_time = s.last_acked_packet_ack_time;
  send_time_state = record {
    is_valid = true;
    is_app_limited = s.is_app_limited;
    total_bytes_sent = s.total_bytes_sent;
    total_bytes_acked = s.total_bytes_acked;
    total_bytes_lost = s.total_bytes_lost;
  };
}

-- `ConnectionStates.Insert`: a number that is there already is not replaced.
unfoldable pub insert_state : ℕ → ℕ → ℕ → BandwidthSampler → BandwidthSampler
insert_state p sent_time bytes s = elim (get_state p s.connection_stats) [
  | some c ↦ s
  | none ↦ record s {
    connection_stats = new_connection_state_on_sent_packet p sent_time bytes s ∷ s.connection_stats;
  }
]

unfoldable pub count_sent : ℕ → ℕ → ℕ → BandwidthSampler → BandwidthSampler
count_sent sent_time sent_bytes bytes_in_flight s =
    let total = u64 (s.total_bytes_sent + sent_bytes) in
    if bytes_in_flight == 0
    then record s {
      total_bytes_sent = total;
      last_acked_packet_ack_time = sent_time;
      total_bytes_sent_at_last_acked_packet = total;
      last_acked_packet_sent_time = sent_time;
    }
    else record s { total_bytes_sent = total }

unfoldable pub on_packet_sent : ℕ → ℕ → ℕ → ℕ → Bool → BandwidthSampler → BandwidthSampler
unfolding count_sent insert_state
on_packet_sent sent_time p sent_bytes bytes_in_flight has_retransmittable_data s =
    let s1 : BandwidthSampler = record s { last_send_packet = p } in
    if not has_retransmittable_data
    then s1
    else insert_state p sent_time sent_bytes (count_sent sent_time sent_bytes bytes_in_flight s1)

-- What `onPacketAckedInner` does to the sampler.
unfoldable pub count_acked :
    ℕ → ℕ → ConnectionStateOnSentPacket → BandwidthSampler → BandwidthSampler
count_acked ack_time p c s = record s {
  total_bytes_acked = u64 (s.total_bytes_acked + c.size);
  total_bytes_sent_at_last_acked_packet = c.send_time_state.total_bytes_sent;
  last_acked_packet_sent_time = c.send_time;
  last_acked_packet_ack_time = ack_time;
  is_app_limited = s.is_app_limited && not (ltb s.end_of_app_limited_phase p);
}

unfoldable pub send_rate : ConnectionStateOnSentPacket → ℕ
send_rate c =
    if ltb c.last_acked_packet_sent_time c.send_time
    then bandwidth_from_delta
        (u64
          (c.send_time_state.total_bytes_sent + 2 ^ 64 - c.total_bytes_sent_at_last_acked_packet))
        (time_sub c.send_time c.last_acked_packet_sent_time)
    else infinite_bandwidth

unfoldable pub ack_rate : ℕ → ConnectionStateOnSentPacket → BandwidthSampler → ℕ
ack_rate ack_time c s =
    bandwidth_from_delta (u64 (s.total_bytes_acked + 2 ^ 64 - c.send_time_state.total_bytes_acked))
      (time_sub ack_time c.last_acked_packet_ack_time)

-- The sample that `onPacketAckedInner` returns; `s` has counted the packet already.
unfoldable pub take_sample : ℕ → ConnectionStateOnSentPacket → BandwidthSampler → BandwidthSample
unfolding send_rate ack_rate new_bandwidth_sample
take_sample ack_time c s =
    if c.last_acked_packet_sent_time == 0
    then new_bandwidth_sample
    else if not (ltb c.last_acked_packet_ack_time ack_time)
    then new_bandwidth_sample
    else record {
      bandwidth = min_bandwidth (send_rate c) (ack_rate ack_time c s);
      rtt = time_sub ack_time c.send_time;
      state_at_send = record c.send_time_state { is_valid = true };
    }

unfoldable pub on_packet_acked : ℕ → ℕ → BandwidthSampler → BandwidthSampler × BandwidthSample
unfolding take_sample count_acked
on_packet_acked ack_time p s = elim (get_state p s.connection_stats) [
  | none ↦ (s, new_bandwidth_sample)
  | some c ↦
      let s1 = count_acked ack_time p c s in
      (
        record s1 { connection_stats = remove_state p s1.connection_stats },
        take_sample ack_time c s1,
      )
]

unfoldable pub on_packet_lost : ℕ → BandwidthSampler → BandwidthSampler × SendTimeState
on_packet_lost p s = elim (get_state p s.connection_stats) [
  | none ↦ (s, invalid_state false)
  | some c ↦ (
    record s {
      connection_stats = remove_state p s.connection_stats;
      total_bytes_lost = u64 (s.total_bytes_lost + c.size);
    },
    record c.send_time_state { is_valid = true },
  )
]

unfoldable pub on_app_limited : BandwidthSampler → BandwidthSampler
on_app_limited s = record s { is_app_limited = true; end_of_app_limited_phase = s.last_send_packet }
