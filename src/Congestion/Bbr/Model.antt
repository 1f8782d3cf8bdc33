-- ===== src/Congestion/Bbr/Model.antt =====
-- internal/congestion/bbr_sender.go: what acknowledged and lost packets tell the sender about the path:
-- round trips, the bandwidth and the minimum round-trip time, recovery, and ack aggregation.
use gt_bbr.Congestion.Bbr.State.{
  not_in_recovery, conservation, growth, Inputs, BbrSender, min_rtt_of, similar_min_rtt_threshold,
  min_rtt_expiry,
}
use gt_bbr.Congestion.Bbr.Queries.{is_startup, is_recovering, bandwidth_estimate}
use gt_bbr.Congestion.WindowedFilter.{max_filter}
use gt_bbr.Congestion.BandwidthSampler.{
  BandwidthSample, on_packet_acked, infinite_rtt, on_packet_lost, time_sub, on_app_limited,
}
use gt_bbr.Prelude.{
  ℕ, ◌+◌, ◌-◌, ◌*◌, ◌^◌, Bool, true, false, not, ◌&&◌, ◌||◌, List, [], ◌∷◌, ltb, leb, ◌==◌,
  if◌then◌else◌,
}
use gt_bbr.Utils.VarInt.{u64}
use gt_bbr.Congestion.WindowedFilter

-- The fields of `protocol.Packet` that are read here.
pub record Packet : Type 0 where
  pub packet_number : ℕ
  pub length : ℕ

-- The flag says whether a round trip starts.
unfoldable pub update_round_trip_counter : ℕ → BbrSender → BbrSender × Bool
update_round_trip_counter last_acked_packet b =
    if b.current_round_trip_end == 0 || ltb b.current_round_trip_end last_acked_packet
    then (
      record b {
        current_round_trip_end = last_acked_packet;
        round_trip_count = b.round_trip_count + 1;
      },
      true,
    )
    else (b, false)

-- The filter is updated with a sample that is not app-limited, or better than the estimate. The code
-- converts the sample to `int64`, which is the same number below 2 ^ 63.
unfoldable pub update_bandwidth : BandwidthSample → BbrSender → BbrSender
unfolding bandwidth_estimate
update_bandwidth sample b =
    let limited = sample.state_at_send.is_app_limited in
    if not limited || ltb (bandwidth_estimate b) sample.bandwidth
    then record b {
      max_bandwidth =
          WindowedFilter.update max_filter
            (record { sample = sample.bandwidth; time = b.round_trip_count }) b.max_bandwidth;
    }
    else b

-- What the loop of `UpdateBandwidthAndMinRtt` does with the sample of a packet, and with the least
-- round-trip time so far.
unfoldable pub use_sample : BandwidthSample → BbrSender × ℕ → BbrSender × ℕ
unfolding update_bandwidth min_rtt_of
use_sample sample (b, sample_min_rtt) =
    let limited = sample.state_at_send.is_app_limited in
    let b1 : BbrSender = record b {
      last_sample_is_app_limited = limited;
      has_no_app_limited_sample = b.has_no_app_limited_sample || not limited;
    } in
    (
      update_bandwidth sample b1,
      if ltb 0 sample.rtt then min_rtt_of sample_min_rtt sample.rtt else sample_min_rtt,
    )

-- One turn of the loop.
unfoldable pub sample_packet : ℕ → Packet → BbrSender × ℕ → BbrSender × ℕ
unfolding use_sample
sample_packet now packet (b, sample_min_rtt) =
    let always = b.config.always_get_bw_sample_when_acked in
    let (sampler, sample) = on_packet_acked now packet.packet_number b.sampler in
    if not always && packet.length == 0
    then (b, sample_min_rtt)
    else if always && not sample.state_at_send.is_valid
    then (record b { sampler = sampler }, sample_min_rtt)
    else use_sample sample (record b { sampler = sampler }, sample_min_rtt)

unfoldable pub sample_packets : ℕ → List Packet → BbrSender × ℕ → BbrSender × ℕ
sample_packets now [] w = w
sample_packets now (packet ∷ rest) w = sample_packets now rest (sample_packet now packet w)

unfoldable pub should_extend_min_rtt_expiry : Inputs → BbrSender → Bool
should_extend_min_rtt_expiry i b =
    let increased =
      ltb (i.scale similar_min_rtt_threshold b.min_rtt) b.min_rtt_since_last_probe_rtt in
    (b.config.probe_rtt_disabled_if_app_limited && b.app_limited_since_last_probe_rtt)
    || (b.config.probe_rtt_skipped_if_similar_rtt
        && b.app_limited_since_last_probe_rtt
        && not increased)

-- The minimum round-trip time is set, or the one that has expired is kept.
unfoldable pub set_min_rtt : ℕ → ℕ → BbrSender → BbrSender
set_min_rtt now min_rtt b = record b {
  min_rtt = min_rtt;
  min_rtt_timestamp = now;
  min_rtt_since_last_probe_rtt = infinite_rtt;
  app_limited_since_last_probe_rtt = false;
}

-- The flag says that the minimum round-trip time has expired.
unfoldable pub update_min_rtt : Inputs → ℕ → ℕ → BbrSender → BbrSender × Bool
unfolding min_rtt_of should_extend_min_rtt_expiry set_min_rtt
update_min_rtt i now sample_min_rtt b0 =
    let b : BbrSender = record b0 {
      min_rtt_since_last_probe_rtt = min_rtt_of b0.min_rtt_since_last_probe_rtt sample_min_rtt;
    } in
    let expired = ltb 0 b.min_rtt && ltb (b.min_rtt_timestamp + min_rtt_expiry) now in
    if expired || ltb sample_min_rtt b.min_rtt || b.min_rtt == 0
    then if expired && should_extend_min_rtt_expiry i b
      then (set_min_rtt now b.min_rtt b, false)
      else (set_min_rtt now sample_min_rtt b, expired)
    else (b, expired)

unfoldable pub update_bandwidth_and_min_rtt :
    Inputs → ℕ → List Packet → BbrSender → BbrSender × Bool
unfolding sample_packets update_min_rtt
update_bandwidth_and_min_rtt i now acked_packets b =
    let (b1, sample_min_rtt) = sample_packets now acked_packets (b, infinite_rtt) in
    if sample_min_rtt == infinite_rtt then (b1, false) else update_min_rtt i now sample_min_rtt b1

unfoldable pub discard_lost_packet : Packet → BbrSender → BbrSender
discard_lost_packet packet b =
    let sampler = (on_packet_lost packet.packet_number b.sampler).0 in
    if is_startup b.mode && not (b.config.startup_rate_reduction_multiplier == 0)
    then record b {
      sampler = sampler;
      startup_bytes_lost = u64 (b.startup_bytes_lost + packet.length);
    }
    else record b { sampler = sampler }

unfoldable pub discard_lost_packets : List Packet → BbrSender → BbrSender
discard_lost_packets [] b = b
discard_lost_packets (packet ∷ rest) b = discard_lost_packets rest (discard_lost_packet packet b)

unfoldable pub enter_conservation : BbrSender → BbrSender
enter_conservation b = record b {
  recovery_state = conservation;
  recovery_window = 0;
  current_round_trip_end = b.last_send_packet;
}

-- The case of GROWTH, into which CONSERVATION falls through.
unfoldable pub maybe_exit_recovery : Bool → BbrSender → BbrSender
maybe_exit_recovery has_losses b =
    if not has_losses && ltb b.end_recovery_at b.last_send_packet
    then record b { recovery_state = not_in_recovery; is_app_limited_recovery = false }
    else b

unfoldable pub switch_recovery_state : Bool → Bool → BbrSender → BbrSender
unfolding enter_conservation maybe_exit_recovery
switch_recovery_state has_losses is_round_start b = elim b.recovery_state [
  | not_in_recovery ↦ if has_losses then enter_conservation b else b
  | conservation ↦
      maybe_exit_recovery has_losses
        (record b { recovery_state = if is_round_start then growth else conservation })
  | growth ↦ maybe_exit_recovery has_losses b
]

unfoldable pub update_recovery_state : Bool → Bool → BbrSender → BbrSender
unfolding switch_recovery_state
update_recovery_state has_losses is_round_start b =
    let b1 =
      switch_recovery_state has_losses is_round_start
        (if has_losses then b else record b { end_recovery_at = b.last_send_packet }) in
    if is_recovering b1.recovery_state && b1.is_app_limited_recovery
    then record b1 { sampler = on_app_limited b1.sampler }
    else b1

-- `ackedBytes` more than expected are the excess, which is returned. The filter gets it as `int64`,
-- which is the same number below 2 ^ 63.
unfoldable pub update_ack_aggregation_bytes : ℕ → ℕ → BbrSender → BbrSender × ℕ
unfolding bandwidth_estimate
update_ack_aggregation_bytes ack_time acked_bytes b =
    let expected = u64 (bandwidth_estimate b * time_sub ack_time b.aggregation_epoch_start_time) in
    if leb b.aggregation_epoch_bytes expected
    then (
      record b { aggregation_epoch_bytes = acked_bytes; aggregation_epoch_start_time = ack_time },
      0,
    )
    else let bytes = u64 (b.aggregation_epoch_bytes + acked_bytes) in
      let excess = u64 (bytes + 2 ^ 64 - expected) in
      (
        record b {
          aggregation_epoch_bytes = bytes;
          max_ack_height =
              WindowedFilter.update max_filter
                (record { sample = excess; time = b.round_trip_count }) b.max_ack_height;
        },
        excess,
      )
