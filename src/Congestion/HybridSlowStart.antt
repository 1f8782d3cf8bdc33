-- ===== src/Congestion/HybridSlowStart.antt =====
-- internal/congestion/hybrid_slow_start.go: slow start ends when the round-trip times of a round are
-- longer than the shortest of the session. Durations are in nanoseconds. The counter of samples is a
-- word of 32 bits.
pub mod Rounds
use gt_bbr.Prelude.{
  ℕ, ◌+◌, ◌*◌, ◌/◌, ◌%◌, ◌^◌, min, max, Bool, true, false, ◌&&◌, ◌||◌, ltb, leb, ◌==◌,
  if◌then◌else◌,
}

pub record HybridSlowStart : Type 0 where
  pub end_packet_number : ℕ
  pub last_sent_packet_number : ℕ
  pub started : Bool
  pub current_min_rtt : ℕ
  pub rtt_sample_count : ℕ
  pub hystart_found : Bool

abbrev pub hybrid_start_low_window : ℕ
hybrid_start_low_window = 16

abbrev pub hybrid_start_min_samples : ℕ
hybrid_start_min_samples = 8

abbrev pub hybrid_start_delay_min_threshold_us : ℕ
hybrid_start_delay_min_threshold_us = 4000

abbrev pub hybrid_start_delay_max_threshold_us : ℕ
hybrid_start_delay_max_threshold_us = 16000

unfoldable pub start_receive_round : ℕ → HybridSlowStart → HybridSlowStart
start_receive_round last_sent s = record s {
  end_packet_number = last_sent;
  current_min_rtt = 0;
  rtt_sample_count = 0;
  started = true;
}

unfoldable pub is_end_of_round : ℕ → HybridSlowStart → Bool
is_end_of_round ack s = ltb s.end_packet_number ack

-- An eighth of the shortest round-trip time, in whole microseconds, between 4 and 16 milliseconds.
unfoldable pub increase_threshold : ℕ → ℕ
increase_threshold min_rtt =
    max (min (min_rtt / 1000 / 2 ^ 3) hybrid_start_delay_max_threshold_us)
      hybrid_start_delay_min_threshold_us
    * 1000

-- A sample is counted, and the first 8 give the shortest time of the round.
unfoldable pub take_sample : ℕ → HybridSlowStart → HybridSlowStart
take_sample latest_rtt s =
    let s1 = record s { rtt_sample_count = (s.rtt_sample_count + 1) % 2 ^ 32 } in
    if leb s1.rtt_sample_count hybrid_start_min_samples
      && (s1.current_min_rtt == 0 || ltb latest_rtt s1.current_min_rtt)
    then record s1 { current_min_rtt = latest_rtt }
    else s1

-- The check at the eighth sample of a round.
unfoldable pub detect_increase : ℕ → HybridSlowStart → HybridSlowStart
unfolding increase_threshold
detect_increase min_rtt s =
    if s.rtt_sample_count == hybrid_start_min_samples
      && ltb (min_rtt + increase_threshold min_rtt) s.current_min_rtt
    then record s { hystart_found = true }
    else s

unfoldable pub ensure_started : HybridSlowStart → HybridSlowStart
unfolding start_receive_round
ensure_started s = if s.started then s else start_receive_round s.last_sent_packet_number s

unfoldable pub should_exit_slow_start : ℕ → ℕ → ℕ → HybridSlowStart → HybridSlowStart × Bool
unfolding ensure_started take_sample detect_increase
should_exit_slow_start latest_rtt min_rtt congestion_window s =
    let s1 = ensure_started s in
    let s2 = detect_increase min_rtt (take_sample latest_rtt s1) in
    if s1.hystart_found
    then (s1, true)
    else (s2, leb hybrid_start_low_window congestion_window && s2.hystart_found)

unfoldable pub on_packet_sent : ℕ → HybridSlowStart → HybridSlowStart
on_packet_sent packet_number s = record s { last_sent_packet_number = packet_number }

unfoldable pub on_packet_acked : ℕ → HybridSlowStart → HybridSlowStart
unfolding is_end_of_round
on_packet_acked acked s = if is_end_of_round acked s then record s { started = false } else s

unfoldable pub restart : HybridSlowStart → HybridSlowStart
restart s = record s { started = false; hystart_found = false }
