-- ===== src/Congestion/Bbr/Recovery.antt =====
-- internal/congestion/bbr_sender.go: how the state of recovery changes from call to call.
use gt_bbr.Congestion.Bbr.Model.{
  update_recovery_state, Packet, switch_recovery_state, enter_conservation,
  update_round_trip_counter, maybe_exit_recovery, discard_lost_packets,
  update_bandwidth_and_min_rtt, update_ack_aggregation_bytes,
}
use gt_bbr.Congestion.Bbr.Event.{
  bbr_on_packet_sent, input_acked_packets, recalculate, on_congestion_event, is_nonempty,
  last_number, update_modes, acked_since, add_lengths,
}
use gt_bbr.Prelude.{ℕ, ◌≤◌, ◌≡◌, ap, ◌∙◌, Bool, true, false, ◌&&◌, List, [], ◌∷◌, arith}
use gt_bbr.Congestion.Bbr.State.{
  RecoveryState, not_in_recovery, conservation, growth, Inputs, BbrSender,
}
use gt_bbr.Congestion.Bbr.Queries.{in_recovery}
use gt_bbr.Congestion.Bbr.Frame.{
  mode_state-recalculate, kept, kept-round_trip, kept-bandwidth_and_min_rtt, kept-discard,
  kept-ack_aggregation, windows-update_modes,
}

-- The calls that change a sender, in any order, with any inputs.
pub data Reach (b : BbrSender) : BbrSender → Type 0 where
  here : Reach b b
  send :
      {c : BbrSender} (sent_time bytes_in_flight packet_number bytes : ℕ)
      (is_retransmittable : Bool)
      → Reach b c
      → Reach b
          (bbr_on_packet_sent sent_time bytes_in_flight packet_number bytes is_retransmittable c)
  event :
      {c : BbrSender} (i : Inputs) (prior_in_flight now : ℕ)
      (acked_packets lost_packets : List Packet)
      → Reach b c
      → Reach b (on_congestion_event i prior_in_flight now acked_packets lost_packets c)

abbrev pub rank : RecoveryState → ℕ
rank not_in_recovery = 0
rank conservation = 1
rank growth = 2

abbrev pub recovery_rank : BbrSender → ℕ
recovery_rank b = rank b.recovery_state

rank-update_recovery_state :
    (l r : Bool) (b : BbrSender) → recovery_rank b ≤ recovery_rank (update_recovery_state l r b)
unfolding update_recovery_state switch_recovery_state enter_conservation maybe_exit_recovery
rank-update_recovery_state l r b = ground arith

rank-kept : (b c : BbrSender) → kept c ≡ kept b → recovery_rank c ≡ recovery_rank b
rank-kept b c e = ap (λ k. rank k.recovery_state) e

rank-input_acked :
    (i : Inputs) (before now : ℕ) (l : Bool) (ps : List Packet) (b : BbrSender)
    → recovery_rank b ≤ recovery_rank (input_acked_packets i before now l ps b).sender
unfolding input_acked_packets
rank-input_acked i before now l [] b = omega arith
rank-input_acked i before now l (p ∷ ps) b =
    let (b1, r) = update_round_trip_counter (last_number p ps) b in
    let b2 = (update_bandwidth_and_min_rtt i now (p ∷ ps) b1).0 in
    let b3 = update_recovery_state l r b2 in
    let n = acked_since before b3 in
    let b4 = (update_ack_aggregation_bytes now n b3).0 in
    omega (
      arith,
      rank-kept b b1 (kept-round_trip (last_number p ps) b),
      rank-kept b1 b2 (kept-bandwidth_and_min_rtt i now (p ∷ ps) b1),
      rank-update_recovery_state l r b2,
      rank-kept b3 b4 (kept-ack_aggregation now n b3),
    )

rank-recalculate :
    (i : Inputs) (n m x : ℕ) (b : BbrSender)
    → recovery_rank (recalculate i n m x b) ≡ recovery_rank b
rank-recalculate i n m x b = ap (λ s. rank s.recovery_state) (mode_state-recalculate i n m x b)

rank-event :
    (i : Inputs) (f now : ℕ) (acked lost : List Packet) (b : BbrSender)
    → recovery_rank b ≤ recovery_rank (on_congestion_event i f now acked lost b)
unfolding on_congestion_event
rank-event i f now acked lost b =
    let before = b.sampler.total_bytes_acked in
    let l = is_nonempty lost in
    let b0 = discard_lost_packets lost b in
    let a = input_acked_packets i before now l acked b0 in
    let b1 = update_modes i now f l a.is_round_start a.min_rtt_expired a.sender in
    omega (
      arith,
      rank-kept b b0 (kept-discard lost b),
      rank-input_acked i before now l acked b0,
      ap (λ w. rank w.recovery_state)
          (windows-update_modes i now f l a.is_round_start a.min_rtt_expired a.sender),
      rank-recalculate i (acked_since before b1) (add_lengths 0 lost) a.excess_acked b1,
    )

Reach-rank : (b c : BbrSender) → Reach b c → recovery_rank b ≤ recovery_rank c
unfolding bbr_on_packet_sent
Reach-rank b _ here = omega arith
Reach-rank b _ (send {c = c} t f p n r h) = Reach-rank b c h
Reach-rank b _ (event {c = c} i f now acked lost h) =
    omega (arith, Reach-rank b c h, rank-event i f now acked lost c)

-- A sender that is in recovery is in recovery after every later sequence of calls, whatever is
-- acknowledged or lost, and from GROWTH it does not go back to CONSERVATION.
pub recovery_is_never_left :
    (b c : BbrSender)
    → Reach b c
    → in_recovery b ≡ true
    → (in_recovery c ≡ true) × (recovery_rank b ≤ recovery_rank c)
unfolding in_recovery
recovery_is_never_left b c h e = let le = Reach-rank b c h in (ground (arith, le), le)

no_losses_no_recovery :
    (r : Bool) (b : BbrSender)
    → b.recovery_state ≡ not_in_recovery
    → (update_recovery_state false r b).recovery_state ≡ not_in_recovery
unfolding update_recovery_state switch_recovery_state
no_losses_no_recovery r b e = ground (arith, e)

input_without_both :
    (i : Inputs) (before now : ℕ) (acked lost : List Packet) (b : BbrSender)
    → is_nonempty acked && is_nonempty lost ≡ false
    → b.recovery_state ≡ not_in_recovery
    → (input_acked_packets i before now (is_nonempty lost) acked b).sender.recovery_state
      ≡ not_in_recovery
unfolding input_acked_packets
input_without_both i before now [] lost b n e = e
input_without_both i before now (p ∷ ps) (q ∷ qs) b n e = absurd (ground (arith, n))
input_without_both i before now (p ∷ ps) [] b n e =
    let (b1, r) = update_round_trip_counter (last_number p ps) b in
    let b2 = (update_bandwidth_and_min_rtt i now (p ∷ ps) b1).0 in
    let b3 = update_recovery_state false r b2 in
    ap (λ k. k.recovery_state) (kept-ack_aggregation now (acked_since before b3) b3)
    ∙ no_losses_no_recovery r b2 (
        ap (λ k. k.recovery_state)
          (kept-bandwidth_and_min_rtt i now (p ∷ ps) b1 ∙ kept-round_trip (last_number p ps) b)
        ∙ e)

-- Losses and acknowledgements are not reported together: the sender does not enter recovery.
pub event_without_both :
    (i : Inputs) (f now : ℕ) (acked lost : List Packet) (b : BbrSender)
    → is_nonempty acked && is_nonempty lost ≡ false
    → b.recovery_state ≡ not_in_recovery
    → (on_congestion_event i f now acked lost b).recovery_state ≡ not_in_recovery
unfolding on_congestion_event
event_without_both i f now acked lost b n e =
    let before = b.sampler.total_bytes_acked in
    let l = is_nonempty lost in
    let b0 = discard_lost_packets lost b in
    let a = input_acked_packets i before now l acked b0 in
    let b1 = update_modes i now f l a.is_round_start a.min_rtt_expired a.sender in
    let e0 = ap (λ k. k.recovery_state) (kept-discard lost b) ∙ e in
    ap (λ s. s.recovery_state)
      (mode_state-recalculate i (acked_since before b1) (add_lengths 0 lost) a.excess_acked b1)
    ∙ ap (λ w. w.recovery_state)
        (windows-update_modes i now f l a.is_round_start a.min_rtt_expired a.sender)
    ∙ input_without_both i before now acked lost b0 n e0
