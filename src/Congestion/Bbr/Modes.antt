-- ===== src/Congestion/Bbr/Modes.antt =====
-- internal/congestion/bbr_sender.go: the modes of the sender and the cycle of pacing gains.
use gt_bbr.Congestion.BandwidthSampler.{on_app_limited}
use gt_bbr.Prelude.{
  ℕ, ◌+◌, ◌-◌, ◌%◌, Bool, true, false, not, ◌&&◌, ◌||◌, ltb, leb, ◌==◌, if◌then◌else◌,
}
use gt_bbr.Utils.VarInt.{u64}
use gt_bbr.Congestion.Bbr.State.{
  startup, drain, probe_bw, probe_rtt, Inputs, BbrSender, unit_gain, gain_cycle, gain_cycle_length,
  is_above_one, is_below_one, is_one, startup_growth_target, max_outgoing_packet_size,
  probe_rtt_time,
}
use gt_bbr.Congestion.Bbr.Queries.{
  is_startup, is_drain, is_probe_rtt, bandwidth_estimate, in_recovery, get_min_rtt,
  get_target_congestion_window, probe_rtt_congestion_window,
}
use gt_bbr.Congestion.WindowedFilter

unfoldable pub should_advance_gain_cycling : Inputs → ℕ → ℕ → Bool → BbrSender → Bool
unfolding get_min_rtt get_target_congestion_window is_above_one is_below_one
should_advance_gain_cycling i now prior_in_flight has_losses b =
    let passed = ltb (get_min_rtt b) (now - b.last_cycle_start) in
    let probing =
      is_above_one b.pacing_gain
      && not has_losses
      && ltb prior_in_flight (get_target_congestion_window i b.pacing_gain b) in
    let drained =
      is_below_one b.pacing_gain
      && leb i.bytes_in_flight (get_target_congestion_window i unit_gain b) in
    drained || (passed && not probing)

unfoldable pub advance_gain_cycle : Inputs → ℕ → BbrSender → BbrSender
unfolding get_target_congestion_window is_below_one is_one
advance_gain_cycle i now b =
    let offset = (b.cycle_current_offset + 1) % gain_cycle_length in
    let b1 : BbrSender = record b { cycle_current_offset = offset; last_cycle_start = now } in
    if b.config.drain_to_target
      && is_below_one b.pacing_gain
      && is_one (gain_cycle offset)
      && ltb (get_target_congestion_window i unit_gain b) i.bytes_in_flight
    then b1
    else record b1 { pacing_gain = gain_cycle offset }

unfoldable pub update_gain_cycle_phase : Inputs → ℕ → ℕ → Bool → BbrSender → BbrSender
unfolding should_advance_gain_cycling advance_gain_cycle
update_gain_cycle_phase i now prior_in_flight has_losses b =
    if should_advance_gain_cycling i now prior_in_flight has_losses b
    then advance_gain_cycle i now b
    else b

-- A round without enough growth.
unfoldable pub count_round_without_gain : BbrSender → BbrSender
unfolding in_recovery
count_round_without_gain b =
    let rounds = b.rounds_without_bandwidth_gain + 1 in
    if leb b.config.num_startup_rtts rounds || (b.config.exit_startup_on_loss && in_recovery b)
    then record b { rounds_without_bandwidth_gain = rounds; is_at_full_bandwidth = true }
    else record b { rounds_without_bandwidth_gain = rounds }

unfoldable pub note_growth : BbrSender → BbrSender
unfolding bandwidth_estimate
note_growth b =
    let b1 : BbrSender = record b {
      bandwidth_at_last_round = bandwidth_estimate b;
      rounds_without_bandwidth_gain = 0;
    } in
    if b.config.expire_ack_aggregation_in_startup
    then record b1 {
      max_ack_height =
          WindowedFilter.reset (record { sample = 0; time = b.round_trip_count }) b.max_ack_height;
    }
    else b1

unfoldable pub check_if_full_bandwidth_reached : Inputs → BbrSender → BbrSender
unfolding count_round_without_gain note_growth
check_if_full_bandwidth_reached i b =
    if b.last_sample_is_app_limited
    then b
    else if leb (i.scale startup_growth_target b.bandwidth_at_last_round) (bandwidth_estimate b)
    then note_growth b
    else count_round_without_gain b

-- One of the offsets 0 and 2 to 7.
unfoldable pub pick_offset : ℕ → ℕ
pick_offset random =
    let offset = random % (gain_cycle_length - 1) in if leb 1 offset then offset + 1 else offset

unfoldable pub enter_probe_bandwidth_mode : Inputs → ℕ → BbrSender → BbrSender
unfolding pick_offset
enter_probe_bandwidth_mode i now b =
    let offset = pick_offset i.random in
    record b {
      mode = probe_bw;
      congestion_window_gain = b.config.congestion_window_gain_const;
      cycle_current_offset = offset;
      last_cycle_start = now;
      pacing_gain = gain_cycle offset;
    }

unfoldable pub enter_startup_mode : BbrSender → BbrSender
enter_startup_mode b = record b {
  mode = startup;
  pacing_gain = b.config.high_gain;
  congestion_window_gain = b.config.high_cwnd_gain;
}

-- The first half of `MaybeExitStartupOrDrain`.
unfoldable pub maybe_exit_startup : BbrSender → BbrSender
maybe_exit_startup b =
    if is_startup b.mode && b.is_at_full_bandwidth
    then record b {
      mode = drain;
      pacing_gain = b.config.drain_gain;
      congestion_window_gain = b.config.high_cwnd_gain;
    }
    else b

unfoldable pub maybe_exit_drain : Inputs → ℕ → BbrSender → BbrSender
unfolding get_target_congestion_window enter_probe_bandwidth_mode
maybe_exit_drain i now b =
    if is_drain b.mode && leb i.bytes_in_flight (get_target_congestion_window i unit_gain b)
    then enter_probe_bandwidth_mode i now b
    else b

unfoldable pub maybe_exit_startup_or_drain : Inputs → ℕ → BbrSender → BbrSender
unfolding maybe_exit_startup maybe_exit_drain
maybe_exit_startup_or_drain i now b = maybe_exit_drain i now (maybe_exit_startup b)

unfoldable pub maybe_enter_probe_rtt : Bool → BbrSender → BbrSender
maybe_enter_probe_rtt min_rtt_expired b =
    if min_rtt_expired && not b.exiting_quiescence && not (is_probe_rtt b.mode)
    then record b { mode = probe_rtt; pacing_gain = unit_gain; exit_probe_rtt_at = 0 }
    else b

unfoldable pub leave_probe_rtt : Inputs → ℕ → BbrSender → BbrSender
unfolding enter_startup_mode enter_probe_bandwidth_mode
leave_probe_rtt i now b =
    if not b.is_at_full_bandwidth then enter_startup_mode b else enter_probe_bandwidth_mode i now b

-- What is done in PROBE_RTT: the time to leave it is set once few bytes are in flight; it is left at
-- that time, when a round trip has passed.
unfoldable pub stay_in_probe_rtt : Inputs → ℕ → Bool → BbrSender → BbrSender
unfolding leave_probe_rtt probe_rtt_congestion_window
stay_in_probe_rtt i now is_round_start b =
    let passed = b.probe_rtt_round_passed || is_round_start in
    if b.exit_probe_rtt_at == 0
    then if ltb i.bytes_in_flight (u64 (probe_rtt_congestion_window i b + max_outgoing_packet_size))
      then record b { exit_probe_rtt_at = now + probe_rtt_time; probe_rtt_round_passed = false }
      else b
    else if leb b.exit_probe_rtt_at now && passed
    then leave_probe_rtt i now (record b { probe_rtt_round_passed = true; min_rtt_timestamp = now })
    else record b { probe_rtt_round_passed = passed }

unfoldable pub maybe_enter_or_exit_probe_rtt : Inputs → ℕ → Bool → Bool → BbrSender → BbrSender
unfolding maybe_enter_probe_rtt stay_in_probe_rtt
maybe_enter_or_exit_probe_rtt i now is_round_start min_rtt_expired b0 =
    let b = maybe_enter_probe_rtt min_rtt_expired b0 in
    let b1 =
      if is_probe_rtt b.mode
      then stay_in_probe_rtt i now is_round_start (record b { sampler = on_app_limited b.sampler })
      else b in
    record b1 { exiting_quiescence = false }
