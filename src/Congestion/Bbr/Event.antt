-- ===== src/Congestion/Bbr/Event.antt =====
-- internal/congestion/bbr_sender.go: the calls that change the sender, `OnPacketSent` and
-- `OnCongestionEvent`.
use gt_bbr.Congestion.BandwidthSampler.{on_packet_sent}
use gt_bbr.Prelude.{
  ℕ, ◌+◌, ◌-◌, ◌^◌, Bool, true, false, not, ◌&&◌, ◌||◌, List, [], ◌∷◌, ◌==◌, if◌then◌else◌,
}
use gt_bbr.Utils.VarInt.{u64}
use gt_bbr.Congestion.Bbr.State.{Inputs, BbrSender}
use gt_bbr.Congestion.Bbr.Queries.{is_probe_bw}
use gt_bbr.Congestion.Bbr.Model.{
  Packet, update_round_trip_counter, update_bandwidth_and_min_rtt, update_recovery_state,
  update_ack_aggregation_bytes, discard_lost_packets,
}
use gt_bbr.Congestion.Bbr.Modes.{
  update_gain_cycle_phase, check_if_full_bandwidth_reached, maybe_exit_startup_or_drain,
  maybe_enter_or_exit_probe_rtt,
}
use gt_bbr.Congestion.Bbr.Windows.{
  calculate_pacing_rate, calculate_congestion_window, calculate_recovery_window,
}

unfoldable pub bbr_on_packet_sent : ℕ → ℕ → ℕ → ℕ → Bool → BbrSender → BbrSender
bbr_on_packet_sent sent_time bytes_in_flight packet_number bytes is_retransmittable b = record b {
  last_send_packet = packet_number;
  exiting_quiescence = b.exiting_quiescence || (bytes_in_flight == 0 && b.sampler.is_app_limited);
  aggregation_epoch_start_time =
      if b.aggregation_epoch_start_time == 0 then sent_time else b.aggregation_epoch_start_time;
  sampler =
      on_packet_sent sent_time packet_number bytes bytes_in_flight is_retransmittable b.sampler;
}

abbrev pub last_number : Packet → List Packet → ℕ
last_number p [] = p.packet_number
last_number p (q ∷ rest) = last_number q rest

abbrev pub is_nonempty : List Packet → Bool
is_nonempty [] = false
is_nonempty (p ∷ rest) = true

-- The sum of the lengths, as 64-bit words; `rest` comes after `sum`.
abbrev pub add_lengths : ℕ → List Packet → ℕ
add_lengths sum [] = sum
add_lengths sum (p ∷ rest) = add_lengths (u64 (sum + p.length)) rest

-- What the acknowledged packets change.
pub record Acked : Type 0 where
  pub sender : BbrSender
  pub is_round_start : Bool
  pub min_rtt_expired : Bool
  pub excess_acked : ℕ

abbrev pub acked_since : ℕ → BbrSender → ℕ
acked_since before b = u64 (b.sampler.total_bytes_acked + 2 ^ 64 - before)

-- The block of `OnCongestionEvent` for acknowledged packets; `before` is `totalBytesAckedBefore`.
unfoldable pub input_acked_packets : Inputs → ℕ → ℕ → Bool → List Packet → BbrSender → Acked
unfolding update_round_trip_counter update_bandwidth_and_min_rtt update_recovery_state
    update_ack_aggregation_bytes
input_acked_packets i before now has_losses [] b = record {
  sender = b;
  is_round_start = false;
  min_rtt_expired = false;
  excess_acked = 0;
}
input_acked_packets i before now has_losses (p ∷ rest) b =
    let (b1, is_round_start) = update_round_trip_counter (last_number p rest) b in
    let (b2, min_rtt_expired) = update_bandwidth_and_min_rtt i now (p ∷ rest) b1 in
    let b3 = update_recovery_state has_losses is_round_start b2 in
    let (b4, excess_acked) = update_ack_aggregation_bytes now (acked_since before b3) b3 in
    record {
      sender = b4;
      is_round_start = is_round_start;
      min_rtt_expired = min_rtt_expired;
      excess_acked = excess_acked;
    }

-- The blocks for the modes.
unfoldable pub update_modes : Inputs → ℕ → ℕ → Bool → Bool → Bool → BbrSender → BbrSender
unfolding update_gain_cycle_phase check_if_full_bandwidth_reached maybe_exit_startup_or_drain
    maybe_enter_or_exit_probe_rtt
update_modes i now prior_in_flight has_losses is_round_start min_rtt_expired b =
    let b1 =
      if is_probe_bw b.mode
      then update_gain_cycle_phase i now prior_in_flight has_losses b
      else b in
    let b2 =
      if is_round_start && not b1.is_at_full_bandwidth
      then check_if_full_bandwidth_reached i b1
      else b1 in
    maybe_enter_or_exit_probe_rtt i now is_round_start min_rtt_expired
      (maybe_exit_startup_or_drain i now b2)

-- The pacing rate and the windows are calculated last.
unfoldable pub recalculate : Inputs → ℕ → ℕ → ℕ → BbrSender → BbrSender
unfolding calculate_pacing_rate calculate_congestion_window calculate_recovery_window
recalculate i bytes_acked bytes_lost excess_acked b =
    calculate_recovery_window i bytes_acked bytes_lost
      (calculate_congestion_window i bytes_acked excess_acked (calculate_pacing_rate i b))

unfoldable pub on_congestion_event :
    Inputs → ℕ → ℕ → List Packet → List Packet → BbrSender → BbrSender
unfolding discard_lost_packets input_acked_packets update_modes recalculate
on_congestion_event i prior_in_flight now acked_packets lost_packets b =
    let before = b.sampler.total_bytes_acked in
    let has_losses = is_nonempty lost_packets in
    let a =
      input_acked_packets i before now has_losses acked_packets
        (discard_lost_packets lost_packets b) in
    let b1 =
      update_modes i now prior_in_flight has_losses a.is_round_start a.min_rtt_expired a.sender in
    recalculate i (acked_since before b1) (add_lengths 0 lost_packets) a.excess_acked b1
