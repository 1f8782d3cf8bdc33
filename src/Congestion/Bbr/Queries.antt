-- ===== src/Congestion/Bbr/Queries.antt =====
-- internal/congestion/bbr_sender.go: what is read off the state of a sender.
use gt_bbr.Congestion.Bbr.State.{
  Mode, startup, drain, probe_bw, probe_rtt, RecoveryState, not_in_recovery, Gain, Inputs,
  BbrSender, max_byte_count, min_byte_count, is_above_one, initial_rtt,
  moderate_probe_rtt_multiplier,
}
use gt_bbr.Prelude.{ℕ, ◌*◌, Bool, true, false, not, ◌&&◌, ltb, leb, ◌==◌, if◌then◌else◌}
use gt_bbr.Utils.VarInt.{u64}
use gt_bbr.Congestion.WindowedFilter.{get_best}

abbrev pub is_startup : Mode → Bool
is_startup startup = true
is_startup _ = false

abbrev pub is_drain : Mode → Bool
is_drain drain = true
is_drain _ = false

abbrev pub is_probe_bw : Mode → Bool
is_probe_bw probe_bw = true
is_probe_bw _ = false

abbrev pub is_probe_rtt : Mode → Bool
is_probe_rtt probe_rtt = true
is_probe_rtt _ = false

abbrev pub is_recovering : RecoveryState → Bool
is_recovering not_in_recovery = false
is_recovering _ = true

unfoldable pub bandwidth_estimate : BbrSender → ℕ
bandwidth_estimate b = get_best b.max_bandwidth

unfoldable pub in_recovery : BbrSender → Bool
in_recovery b = is_recovering b.recovery_state

unfoldable pub in_slow_start : BbrSender → Bool
in_slow_start b = is_startup b.mode

unfoldable pub get_min_rtt : BbrSender → ℕ
get_min_rtt b = if ltb 0 b.min_rtt then b.min_rtt else initial_rtt

-- The first window of `GetTargetCongestionWindow`: the product of the round-trip time in nanoseconds
-- and the bandwidth in bits per second.
unfoldable pub bandwidth_delay_product : BbrSender → ℕ
unfolding get_min_rtt bandwidth_estimate
bandwidth_delay_product b = u64 (get_min_rtt b * bandwidth_estimate b)

unfoldable pub get_target_congestion_window : Inputs → Gain → BbrSender → ℕ
unfolding bandwidth_delay_product max_byte_count
get_target_congestion_window i gain b =
    let congestion_window = i.scale gain (bandwidth_delay_product b) in
    max_byte_count
      (if congestion_window == 0
        then i.scale gain b.config.initial_congestion_window
        else congestion_window)
      b.config.min_congestion_window

unfoldable pub probe_rtt_congestion_window : Inputs → BbrSender → ℕ
unfolding get_target_congestion_window
probe_rtt_congestion_window i b =
    if b.config.probe_rtt_based_on_bdp
    then get_target_congestion_window i moderate_probe_rtt_multiplier b
    else b.config.min_congestion_window

unfoldable pub get_congestion_window : Inputs → BbrSender → ℕ
unfolding probe_rtt_congestion_window min_byte_count in_recovery
get_congestion_window i b =
    if is_probe_rtt b.mode
    then probe_rtt_congestion_window i b
    else if in_recovery b && not (b.config.rate_based_startup && is_startup b.mode)
    then min_byte_count b.congestion_window b.recovery_window
    else b.congestion_window

unfoldable pub can_send : Inputs → ℕ → BbrSender → Bool
unfolding get_congestion_window
can_send i bytes_in_flight b = ltb bytes_in_flight (get_congestion_window i b)

unfoldable pub is_pipe_sufficiently_full : Inputs → BbrSender → Bool
unfolding get_target_congestion_window
is_pipe_sufficiently_full i b =
    if is_startup b.mode
    then leb (get_target_congestion_window i (record { num = 3; den = 2 }) b) i.bytes_in_flight
    else if is_above_one b.pacing_gain
    then leb (get_target_congestion_window i b.pacing_gain b) i.bytes_in_flight
    else leb (get_target_congestion_window i (record { num = 11; den = 10 }) b) i.bytes_in_flight

unfoldable pub should_send_probing_packet : Inputs → BbrSender → Bool
unfolding is_pipe_sufficiently_full
should_send_probing_packet i b =
    if not (is_above_one b.pacing_gain)
    then false
    else if b.config.flexible_app_limited
    then not (is_pipe_sufficiently_full i b)
    else true
