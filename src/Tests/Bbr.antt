-- ===== src/Tests/Bbr.antt =====
-- internal/congestion/bbr_sender.go, bandwidth_sampler.go: a new sender, with the windows of the
-- handler, that sends, is told of acknowledgements, and loses packets.
use gt_bbr.Congestion.WindowedFilter.{
  new_windowed_filter, get_best, reset, improve, promote, refresh, update,
}
use gt_bbr.Congestion.Bbr.State.{
  is_above_one, is_below_one, is_one, max_byte_count, min_byte_count, max_bandwidth_of, min_rtt_of,
  new_config, new_bbr_sender, growth, not_in_recovery, Inputs, BbrSender,
}
use gt_bbr.Congestion.Bbr.Queries.{
  bandwidth_estimate, in_recovery, get_min_rtt, bandwidth_delay_product,
  get_target_congestion_window, probe_rtt_congestion_window, can_send, in_slow_start,
}
use gt_bbr.Congestion.Bbr.Model.{
  update_round_trip_counter, update_bandwidth, use_sample, sample_packet, sample_packets,
  should_extend_min_rtt_expiry, set_min_rtt, update_min_rtt, update_bandwidth_and_min_rtt,
  discard_lost_packet, discard_lost_packets, enter_conservation, maybe_exit_recovery,
  switch_recovery_state, update_recovery_state, update_ack_aggregation_bytes, Packet,
}
use gt_bbr.Congestion.Bbr.Modes.{
  should_advance_gain_cycling, advance_gain_cycle, update_gain_cycle_phase,
  count_round_without_gain, note_growth, check_if_full_bandwidth_reached, pick_offset,
  enter_probe_bandwidth_mode, enter_startup_mode, maybe_exit_startup, maybe_exit_drain,
  maybe_exit_startup_or_drain, maybe_enter_probe_rtt, leave_probe_rtt, stay_in_probe_rtt,
  maybe_enter_or_exit_probe_rtt,
}
use gt_bbr.Congestion.Bbr.Windows.{
  startup_pacing_rate, calculate_pacing_rate, target_window, grow_window,
  calculate_congestion_window, adjust_recovery_window, calculate_recovery_window,
}
use gt_bbr.Congestion.Bbr.Event.{
  bbr_on_packet_sent, input_acked_packets, update_modes, recalculate, on_congestion_event,
}
use gt_bbr.Congestion.BandwidthSampler.{
  time_sub, bandwidth_from_delta, min_bandwidth, invalid_state, new_bandwidth_sample,
  new_bandwidth_sampler, get_state, remove_state, new_connection_state_on_sent_packet, insert_state,
  count_sent, on_packet_sent, count_acked, send_rate, ack_rate, take_sample, on_packet_acked,
  on_packet_lost, on_app_limited, BandwidthSampler, ConnectionStateOnSentPacket,
}
use gt_bbr.Prelude.{ℕ, ◌+◌, ◌≤◌, ◌≡◌, ◌⊎◌, refl, true, false, [], ◌∷◌, arith}
use gt_bbr.Congestion.BandwidthSampler
use gt_bbr.Congestion.BandwidthSampler.Accounting
use gt_bbr.Congestion.BandwidthSampler.Accounting.{sampler_accounting, IsAccounted}
use gt_bbr.Congestion.BandwidthSampler.AppLimited
use gt_bbr.Congestion.BandwidthSampler.AppLimited.{Phase-marks_packets}
use gt_bbr.Congestion.Bbr.Recovery.{Reach, here, send, event, recovery_is_never_left, recovery_rank}
use gt_bbr.Congestion.Bbr.Bounds.{window_within_limits}
use gt_bbr.Congestion.Bbr.Phases.{IsCruising, IsStarted, modes_follow_bandwidth}
use gt_bbr.Congestion.Bbr.FullBandwidth.{full_bandwidth_is_kept}

-- Products that are larger than they should be, so that the bandwidth never grows enough.
abbrev inputs : Inputs
inputs = record {
  bytes_in_flight = 3000;
  random = 3;
  stats_min_rtt = 0;
  scale = λ g n. n + 1;
  reduced_rate = λ lost multiplier window rate. rate;
}

abbrev sender : BbrSender
sender = new_bbr_sender 46720 2920000

abbrev packet : ℕ → Packet
packet n = record { packet_number = n; length = 1200 }

-- One packet is sent; the event acknowledges it and loses another.
abbrev after_event : BbrSender
after_event =
    on_congestion_event inputs 2400 50 (packet 1 ∷ []) (packet 2 ∷ [])
      (bbr_on_packet_sent 10 1200 1 1200 true sender)

after_event-Reach : Reach sender after_event
after_event-Reach =
    event inputs 2400 50 (packet 1 ∷ []) (packet 2 ∷ []) (send 10 1200 1 1200 true here)

window_within_limits_example :
    (5840 ≤ after_event.congestion_window)
    × (after_event.congestion_window ≤ 2920000)
    × ((after_event.recovery_state ≡ not_in_recovery) ⊎ (5840 ≤ after_event.recovery_window))
    × (can_send inputs 5000 after_event ≡ true)
window_within_limits_example =
    window_within_limits 46720 2920000 5000 inputs after_event (omega arith) (omega arith)
      after_event-Reach (omega arith)

modes_follow_bandwidth_example : IsCruising after_event × IsStarted after_event
modes_follow_bandwidth_example = modes_follow_bandwidth 46720 2920000 after_event after_event-Reach

abbrev growing : BbrSender
growing = record sender { recovery_state = growth }

abbrev still_growing : BbrSender
still_growing = on_congestion_event inputs 2400 50 (packet 1 ∷ []) [] growing

recovery_is_never_left_example :
    (in_recovery still_growing ≡ true) × (recovery_rank growing ≤ recovery_rank still_growing)
unfolding in_recovery
recovery_is_never_left_example =
    recovery_is_never_left growing still_growing (event inputs 2400 50 (packet 1 ∷ []) [] here) refl

-- Three rounds without growth.
abbrev rounds : BbrSender
rounds = on_congestion_event inputs 0 30 (packet 3 ∷ []) [] (
    on_congestion_event inputs 0 20 (packet 2 ∷ []) []
      (on_congestion_event inputs 0 10 (packet 1 ∷ []) [] sender))

rounds-Reach : Reach sender rounds
rounds-Reach =
    event inputs 0 30 (packet 3 ∷ []) []
      (event inputs 0 20 (packet 2 ∷ []) [] (event inputs 0 10 (packet 1 ∷ []) [] here))

rounds-full : rounds.is_at_full_bandwidth ≡ true
unfolding is_above_one is_below_one is_one max_byte_count min_byte_count max_bandwidth_of min_rtt_of
    new_config new_bbr_sender bandwidth_estimate in_recovery get_min_rtt bandwidth_delay_product
    get_target_congestion_window probe_rtt_congestion_window update_round_trip_counter
    update_bandwidth use_sample sample_packet sample_packets should_extend_min_rtt_expiry
    set_min_rtt update_min_rtt update_bandwidth_and_min_rtt discard_lost_packet discard_lost_packets
    enter_conservation maybe_exit_recovery switch_recovery_state update_recovery_state
    update_ack_aggregation_bytes should_advance_gain_cycling advance_gain_cycle
    update_gain_cycle_phase count_round_without_gain note_growth check_if_full_bandwidth_reached
    pick_offset enter_probe_bandwidth_mode enter_startup_mode maybe_exit_startup maybe_exit_drain
    maybe_exit_startup_or_drain maybe_enter_probe_rtt leave_probe_rtt stay_in_probe_rtt
    maybe_enter_or_exit_probe_rtt startup_pacing_rate calculate_pacing_rate target_window
    grow_window calculate_congestion_window adjust_recovery_window calculate_recovery_window
    bbr_on_packet_sent input_acked_packets update_modes recalculate on_congestion_event time_sub
    bandwidth_from_delta min_bandwidth invalid_state new_bandwidth_sample new_bandwidth_sampler
    get_state remove_state new_connection_state_on_sent_packet insert_state count_sent
    on_packet_sent count_acked send_rate ack_rate take_sample on_packet_acked on_packet_lost
    on_app_limited new_windowed_filter get_best reset improve promote refresh update
rounds-full = refl

abbrev later : BbrSender
later = on_congestion_event inputs 0 40 (packet 4 ∷ []) [] rounds

full_bandwidth_is_kept_example : (later.is_at_full_bandwidth ≡ true) × (in_slow_start later ≡ false)
full_bandwidth_is_kept_example =
    full_bandwidth_is_kept 46720 2920000 rounds later rounds-Reach rounds-full
      (event inputs 0 40 (packet 4 ∷ []) [] here)

-- A packet is sent and acknowledged.
abbrev sampled : BandwidthSampler
sampled =
    (BandwidthSampler.on_packet_acked 30 1
      (on_packet_sent 10 1 1200 1200 true new_bandwidth_sampler)).0

sampler_accounting_example : IsAccounted sampled
unfolding get_state on_packet_sent insert_state count_sent new_connection_state_on_sent_packet
    on_app_limited new_bandwidth_sampler
sampler_accounting_example = sampler_accounting sampled (
    Accounting.next
      (Accounting.next Accounting.here
        (Accounting.send new_bandwidth_sampler 10 1 1200 1200 true refl))
      (Accounting.acked (on_packet_sent 10 1 1200 1200 true new_bandwidth_sampler) 30 1))

-- The phase begins after packet 1; packet 2 is sent in it.
abbrev first_sent : BandwidthSampler
first_sent = on_packet_sent 10 1 1200 1200 true new_bandwidth_sampler

abbrev second : ConnectionStateOnSentPacket
second =
    new_connection_state_on_sent_packet 2 20 1200
      (record (on_app_limited first_sent) { last_send_packet = 2; total_bytes_sent = 2400 })

Phase-marks_packets_example :
    ((on_app_limited first_sent).is_app_limited ≡ true)
    × (second.send_time_state.is_app_limited ≡ true)
unfolding get_state on_packet_sent insert_state count_sent new_connection_state_on_sent_packet
    on_app_limited new_bandwidth_sampler
Phase-marks_packets_example =
    Phase-marks_packets first_sent (on_app_limited first_sent) second 20 2 1200 2400
      AppLimited.start refl refl
