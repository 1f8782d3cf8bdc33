-- ===== src/Congestion/Bbr/Windows.antt =====
-- internal/congestion/bbr_sender.go: the pacing rate, the congestion window and the recovery window
-- after an event.
use gt_bbr.Congestion.WindowedFilter.{get_best}
use gt_bbr.Congestion.BandwidthSampler.{bandwidth_from_delta}
use gt_bbr.Prelude.{ℕ, ◌+◌, ◌-◌, not, ◌&&◌, ◌||◌, ltb, leb, ◌==◌, if◌then◌else◌}
use gt_bbr.Utils.VarInt.{u64}
use gt_bbr.Congestion.Bbr.State.{
  growth, Inputs, BbrSender, max_byte_count, min_byte_count, max_bandwidth_of, max_segment_size,
  startup_after_loss_gain, startup_growth_target,
}
use gt_bbr.Congestion.Bbr.Queries.{
  is_startup, is_probe_rtt, is_recovering, bandwidth_estimate, get_target_congestion_window,
}

-- The rate of a sender that is not yet at the full bandwidth.
unfoldable pub startup_pacing_rate : Inputs → ℕ → BbrSender → ℕ
unfolding bandwidth_estimate max_bandwidth_of
startup_pacing_rate i target_rate b =
    let has_lost = ltb 0 b.end_recovery_at && b.has_no_app_limited_sample in
    if b.pacing_rate == 0 && ltb 0 i.stats_min_rtt
    then bandwidth_from_delta b.config.initial_congestion_window i.stats_min_rtt
    else if b.config.slower_startup && has_lost
    then i.scale startup_after_loss_gain (bandwidth_estimate b)
    else if not (b.config.startup_rate_reduction_multiplier == 0) && has_lost
    then max_bandwidth_of
        (i.reduced_rate b.startup_bytes_lost b.config.startup_rate_reduction_multiplier
          b.congestion_window target_rate)
        (i.scale startup_growth_target (bandwidth_estimate b))
    else max_bandwidth_of b.pacing_rate target_rate

unfoldable pub calculate_pacing_rate : Inputs → BbrSender → BbrSender
unfolding startup_pacing_rate
calculate_pacing_rate i b =
    let target_rate = i.scale b.pacing_gain (bandwidth_estimate b) in
    if bandwidth_estimate b == 0
    then b
    else if b.is_at_full_bandwidth
    then record b { pacing_rate = target_rate }
    else record b { pacing_rate = startup_pacing_rate i target_rate b }

-- The window that the congestion window grows towards.
unfoldable pub target_window : Inputs → ℕ → BbrSender → ℕ
unfolding get_target_congestion_window get_best
target_window i excess_acked b =
    let target = get_target_congestion_window i b.congestion_window_gain b in
    if b.is_at_full_bandwidth
    then u64 (target + get_best b.max_ack_height)
    else if b.config.enable_ack_aggregation_during_startup
    then u64 (target + excess_acked)
    else target

unfoldable pub grow_window : Inputs → ℕ → ℕ → BbrSender → ℕ
unfolding target_window min_byte_count
grow_window i acked_bytes excess_acked b =
    let target = target_window i excess_acked b in
    if b.is_at_full_bandwidth
    then min_byte_count target (u64 (b.congestion_window + acked_bytes))
    else if ltb b.congestion_window target
        || ltb b.sampler.total_bytes_acked b.config.initial_congestion_window
    then u64 (b.congestion_window + acked_bytes)
    else b.congestion_window

unfoldable pub calculate_congestion_window : Inputs → ℕ → ℕ → BbrSender → BbrSender
unfolding grow_window min_byte_count max_byte_count
calculate_congestion_window i acked_bytes excess_acked b =
    if is_probe_rtt b.mode then b else record b {
      congestion_window =
          min_byte_count
            (max_byte_count (grow_window i acked_bytes excess_acked b)
              b.config.min_congestion_window)
            b.config.max_congestion_window;
    }

-- The recovery window without the lost bytes, and with the acknowledged ones in GROWTH.
unfoldable pub adjust_recovery_window : ℕ → ℕ → BbrSender → ℕ
adjust_recovery_window acked_bytes lost_bytes b =
    let window =
      if leb lost_bytes b.recovery_window
      then b.recovery_window - lost_bytes
      else max_segment_size in
    elim b.recovery_state [ growth ↦ u64 (window + acked_bytes) | _ ↦ window ]

unfoldable pub calculate_recovery_window : Inputs → ℕ → ℕ → BbrSender → BbrSender
unfolding adjust_recovery_window max_byte_count
calculate_recovery_window i acked_bytes lost_bytes b =
    let flight = u64 (i.bytes_in_flight + acked_bytes) in
    if b.config.rate_based_startup && is_startup b.mode
    then b
    else if not (is_recovering b.recovery_state)
    then b
    else if b.recovery_window == 0
    then record b { recovery_window = max_byte_count flight b.config.min_congestion_window }
    else record b {
      recovery_window =
          max_byte_count (max_byte_count (adjust_recovery_window acked_bytes lost_bytes b) flight)
            b.config.min_congestion_window;
    }
