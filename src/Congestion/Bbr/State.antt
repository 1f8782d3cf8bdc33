-- ===== src/Congestion/Bbr/State.antt =====
-- internal/congestion/bbr_sender.go: the constants, the state of a sender, and a new sender.
use gt_bbr.Prelude.{ℕ, ◌+◌, ◌*◌, ◌^◌, Bool, false, ltb, ◌==◌, if◌then◌else◌}
use gt_bbr.Congestion.BandwidthSampler.{BandwidthSampler, infinite_rtt, new_bandwidth_sampler}
use gt_bbr.Congestion.WindowedFilter.{WindowedFilter, new_windowed_filter}

pub data Mode : Type 0 where
  startup : Mode
  drain : Mode
  probe_bw : Mode
  probe_rtt : Mode

pub data RecoveryState : Type 0 where
  not_in_recovery : RecoveryState
  conservation : RecoveryState
  growth : RecoveryState

-- A float64 constant, as a fraction.
pub record Gain : Type 0 where
  pub num : ℕ
  pub den : ℕ

abbrev pub unit_gain : Gain
unit_gain = record { num = 1; den = 1 }

abbrev pub default_high_gain : Gain
default_high_gain = record { num = 2885; den = 1000 }

abbrev pub startup_after_loss_gain : Gain
startup_after_loss_gain = record { num = 3; den = 2 }

abbrev pub startup_growth_target : Gain
startup_growth_target = record { num = 5; den = 4 }

abbrev pub moderate_probe_rtt_multiplier : Gain
moderate_probe_rtt_multiplier = record { num = 3; den = 4 }

abbrev pub similar_min_rtt_threshold : Gain
similar_min_rtt_threshold = record { num = 9; den = 8 }

abbrev pub default_congestion_window_gain_const : Gain
default_congestion_window_gain_const = record { num = 2; den = 1 }

-- `PacingGain`
abbrev pub gain_cycle : ℕ → Gain
gain_cycle i =
    if i == 0
    then record { num = 5; den = 4 }
    else if i == 1
    then record { num = 3; den = 4 }
    else unit_gain

abbrev pub gain_cycle_length : ℕ
gain_cycle_length = 8

abbrev pub bandwidth_window_size : ℕ
bandwidth_window_size = gain_cycle_length + 2

abbrev pub max_outgoing_packet_size : ℕ
max_outgoing_packet_size = 1452

abbrev pub max_segment_size : ℕ
max_segment_size = 1460

abbrev pub default_minimum_congestion_window : ℕ
default_minimum_congestion_window = 4 * max_segment_size

-- 100 milliseconds
abbrev pub initial_rtt : ℕ
initial_rtt = 100 * 10 ^ 6

-- 10 seconds
abbrev pub min_rtt_expiry : ℕ
min_rtt_expiry = 10 * 10 ^ 9

-- 200 milliseconds
abbrev pub probe_rtt_time : ℕ
probe_rtt_time = 200 * 10 ^ 6

unfoldable pub is_above_one : Gain → Bool
is_above_one g = ltb g.den g.num

unfoldable pub is_below_one : Gain → Bool
is_below_one g = ltb g.num g.den

unfoldable pub is_one : Gain → Bool
is_one g = g.num == g.den

unfoldable pub max_byte_count : ℕ → ℕ → ℕ
max_byte_count a b = if ltb b a then a else b

unfoldable pub min_byte_count : ℕ → ℕ → ℕ
min_byte_count a b = if ltb a b then a else b

unfoldable pub max_bandwidth_of : ℕ → ℕ → ℕ
max_bandwidth_of a b = if ltb b a then a else b

unfoldable pub min_rtt_of : ℕ → ℕ → ℕ
min_rtt_of a b = if ltb a b then a else b

-- `scale g n` is `uint64(g * float64(n))`; `reduced_rate lost multiplier window rate` is the pacing
-- rate less the share of the window that was lost.
pub record Inputs : Type 0 where
  pub bytes_in_flight : ℕ
  pub random : ℕ
  pub stats_min_rtt : ℕ
  pub scale : Gain → ℕ → ℕ
  pub reduced_rate : ℕ → ℕ → ℕ → ℕ → ℕ

-- The fields of `bbrSender` that are set when it is made, or never.
pub record Config : Type 0 where
  pub initial_congestion_window : ℕ
  pub max_congestion_window : ℕ
  pub min_congestion_window : ℕ
  pub high_gain : Gain
  pub high_cwnd_gain : Gain
  pub drain_gain : Gain
  pub congestion_window_gain_const : Gain
  pub num_startup_rtts : ℕ
  pub exit_startup_on_loss : Bool
  pub flexible_app_limited : Bool
  pub slower_startup : Bool
  pub rate_based_startup : Bool
  pub startup_rate_reduction_multiplier : ℕ
  pub enable_ack_aggregation_during_startup : Bool
  pub expire_ack_aggregation_in_startup : Bool
  pub drain_to_target : Bool
  pub probe_rtt_based_on_bdp : Bool
  pub probe_rtt_skipped_if_similar_rtt : Bool
  pub probe_rtt_disabled_if_app_limited : Bool
  pub always_get_bw_sample_when_acked : Bool

-- `bbrSender`
pub record BbrSender : Type 0 where
  pub config : Config
  pub mode : Mode
  pub sampler : BandwidthSampler
  pub round_trip_count : ℕ
  pub last_send_packet : ℕ
  pub current_round_trip_end : ℕ
  pub max_bandwidth : WindowedFilter
  pub max_ack_height : WindowedFilter
  pub aggregation_epoch_start_time : ℕ
  pub aggregation_epoch_bytes : ℕ
  pub min_rtt : ℕ
  pub min_rtt_timestamp : ℕ
  pub congestion_window : ℕ
  pub pacing_rate : ℕ
  pub pacing_gain : Gain
  pub congestion_window_gain : Gain
  pub cycle_current_offset : ℕ
  pub last_cycle_start : ℕ
  pub is_at_full_bandwidth : Bool
  pub rounds_without_bandwidth_gain : ℕ
  pub bandwidth_at_last_round : ℕ
  pub exiting_quiescence : Bool
  pub exit_probe_rtt_at : ℕ
  pub probe_rtt_round_passed : Bool
  pub last_sample_is_app_limited : Bool
  pub has_no_app_limited_sample : Bool
  pub recovery_state : RecoveryState
  pub end_recovery_at : ℕ
  pub recovery_window : ℕ
  pub is_app_limited_recovery : Bool
  pub startup_bytes_lost : ℕ
  pub app_limited_since_last_probe_rtt : Bool
  pub min_rtt_since_last_probe_rtt : ℕ

unfoldable pub new_config : ℕ → ℕ → Config
new_config initial_congestion_window max_congestion_window = record {
  initial_congestion_window = initial_congestion_window;
  max_congestion_window = max_congestion_window;
  min_congestion_window = default_minimum_congestion_window;
  high_gain = default_high_gain;
  high_cwnd_gain = default_high_gain;
  drain_gain = record { num = 1000; den = 2885 };
  congestion_window_gain_const = default_congestion_window_gain_const;
  num_startup_rtts = 3;
  exit_startup_on_loss = false;
  flexible_app_limited = false;
  slower_startup = false;
  rate_based_startup = false;
  startup_rate_reduction_multiplier = 0;
  enable_ack_aggregation_during_startup = false;
  expire_ack_aggregation_in_startup = false;
  drain_to_target = false;
  probe_rtt_based_on_bdp = false;
  probe_rtt_skipped_if_similar_rtt = false;
  probe_rtt_disabled_if_app_limited = false;
  always_get_bw_sample_when_acked = false;
}

unfoldable pub new_bbr_sender : ℕ → ℕ → BbrSender
unfolding new_config
new_bbr_sender initial_congestion_window max_congestion_window = record {
  config = new_config initial_congestion_window max_congestion_window;
  mode = startup;
  sampler = new_bandwidth_sampler;
  round_trip_count = 0;
  last_send_packet = 0;
  current_round_trip_end = 0;
  max_bandwidth = new_windowed_filter bandwidth_window_size;
  max_ack_height = new_windowed_filter bandwidth_window_size;
  aggregation_epoch_start_time = 0;
  aggregation_epoch_bytes = 0;
  min_rtt = 0;
  min_rtt_timestamp = 0;
  congestion_window = initial_congestion_window;
  pacing_rate = 0;
  pacing_gain = unit_gain;
  congestion_window_gain = unit_gain;
  cycle_current_offset = 0;
  last_cycle_start = 0;
  is_at_full_bandwidth = false;
  rounds_without_bandwidth_gain = 0;
  bandwidth_at_last_round = 0;
  exiting_quiescence = false;
  exit_probe_rtt_at = 0;
  probe_rtt_round_passed = false;
  last_sample_is_app_limited = false;
  has_no_app_limited_sample = false;
  recovery_state = not_in_recovery;
  end_recovery_at = 0;
  recovery_window = max_congestion_window;
  is_app_limited_recovery = false;
  startup_bytes_lost = 0;
  app_limited_since_last_probe_rtt = false;
  min_rtt_since_last_probe_rtt = infinite_rtt;
}
