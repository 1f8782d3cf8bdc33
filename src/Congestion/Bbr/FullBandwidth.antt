-- ===== src/Congestion/Bbr/FullBandwidth.antt =====
-- internal/congestion/bbr_sender.go: the full bandwidth, once reached, is kept.
use gt_bbr.Congestion.Bbr.Model.{Packet, discard_lost_packets}
use gt_bbr.Congestion.BandwidthSampler.{on_app_limited}
use gt_bbr.Congestion.Bbr.Event.{
  update_modes, on_congestion_event, bbr_on_packet_sent, is_nonempty, input_acked_packets,
  acked_since, add_lengths,
}
use gt_bbr.Congestion.Bbr.Modes.{
  update_gain_cycle_phase, maybe_exit_startup_or_drain, stay_in_probe_rtt, maybe_enter_probe_rtt,
  maybe_enter_or_exit_probe_rtt, advance_gain_cycle, maybe_exit_startup, leave_probe_rtt,
  check_if_full_bandwidth_reached, maybe_exit_drain, enter_startup_mode, enter_probe_bandwidth_mode,
}
use gt_bbr.Prelude.{ℕ, ◌≡◌, ap, ◌∙◌, Bool, true, false, not, ◌&&◌, List, arith, if◌then◌else◌}
use gt_bbr.Congestion.Bbr.State.{Inputs, BbrSender, new_bbr_sender}
use gt_bbr.Congestion.Bbr.Queries.{is_probe_bw, in_slow_start}
use gt_bbr.Congestion.Bbr.Frame.{core-input_acked, kept, kept-discard, mode_state-recalculate}
use gt_bbr.Congestion.Bbr.Recovery.{Reach, here, send, event}
use gt_bbr.Congestion.Bbr.Phases.{Reach-IsStarted, modes_follow_bandwidth}

abbrev full : BbrSender → Bool
full b = b.is_at_full_bandwidth

full-gain_cycle :
    (i : Inputs) (now f : ℕ) (l : Bool) (b : BbrSender)
    → full (update_gain_cycle_phase i now f l b) ≡ full b
unfolding update_gain_cycle_phase advance_gain_cycle
full-gain_cycle i now f l b = ground arith

full-exit :
    (i : Inputs) (now : ℕ) (b : BbrSender) → full (maybe_exit_startup_or_drain i now b) ≡ full b
unfolding maybe_exit_startup_or_drain maybe_exit_startup maybe_exit_drain enter_probe_bandwidth_mode
full-exit i now b = ground arith

full-stay :
    (i : Inputs) (now : ℕ) (r : Bool) (b : BbrSender) → full (stay_in_probe_rtt i now r b) ≡ full b
unfolding stay_in_probe_rtt leave_probe_rtt enter_startup_mode enter_probe_bandwidth_mode
full-stay i now r b = ground arith

full-enter : (e : Bool) (b : BbrSender) → full (maybe_enter_probe_rtt e b) ≡ full b
unfolding maybe_enter_probe_rtt
full-enter e b = ground arith

full-probe_rtt :
    (i : Inputs) (now : ℕ) (r e : Bool) (b : BbrSender)
    → full (maybe_enter_or_exit_probe_rtt i now r e b) ≡ full b
unfolding maybe_enter_or_exit_probe_rtt
full-probe_rtt i now r e b =
    let b1 = maybe_enter_probe_rtt e b in
    let b2 : BbrSender = record b1 { sampler = on_app_limited b1.sampler } in
    ground (arith, full-enter e b, full-stay i now r b2)

full-modes :
    (i : Inputs) (now f : ℕ) (l r e : Bool) (b : BbrSender)
    → full b ≡ true
    → full (update_modes i now f l r e b) ≡ true
unfolding update_modes
full-modes i now f l r e b h =
    let b1 = if is_probe_bw b.mode then update_gain_cycle_phase i now f l b else b in
    let b2 =
      if r && not b1.is_at_full_bandwidth then check_if_full_bandwidth_reached i b1 else b1 in
    let h1 : full b1 ≡ true = ground (arith, full-gain_cycle i now f l b, h) in
    let h2 : full b2 ≡ true = ground (arith, h1) in
    full-probe_rtt i now r e (maybe_exit_startup_or_drain i now b2) ∙ full-exit i now b2 ∙ h2

full-event :
    (i : Inputs) (f now : ℕ) (acked lost : List Packet) (b : BbrSender)
    → full b ≡ true
    → full (on_congestion_event i f now acked lost b) ≡ true
unfolding on_congestion_event
full-event i f now acked lost b h =
    let before = b.sampler.total_bytes_acked in
    let l = is_nonempty lost in
    let b0 = discard_lost_packets lost b in
    let a = input_acked_packets i before now l acked b0 in
    let r = a.is_round_start in
    let e = a.min_rtt_expired in
    let b1 = update_modes i now f l r e a.sender in
    let n = acked_since before b1 in
    let ha =
      ap (λ k. k.is_at_full_bandwidth) (core-input_acked i before now l acked b0)
      ∙ ap (λ k. k.core.is_at_full_bandwidth) (kept-discard lost b)
      ∙ h in
    ap (λ k. k.is_at_full_bandwidth)
      (mode_state-recalculate i n (add_lengths 0 lost) a.excess_acked b1)
    ∙ full-modes i now f l r e a.sender ha

Reach-full : (b c : BbrSender) → Reach b c → full b ≡ true → full c ≡ true
unfolding bbr_on_packet_sent
Reach-full b _ here h = h
Reach-full b _ (send {c = c} t f p n r st) h = Reach-full b c st h
Reach-full b _ (event {c = c} i f now acked lost st) h =
    full-event i f now acked lost c (Reach-full b c st h)

-- Once a sender has reached the full bandwidth, it has reached it after every later sequence of
-- calls, and it is never in STARTUP again.
pub full_bandwidth_is_kept :
    (initial most : ℕ) (b c : BbrSender)
    → Reach (new_bbr_sender initial most) b
    → b.is_at_full_bandwidth ≡ true
    → Reach b c
    → (c.is_at_full_bandwidth ≡ true) × (in_slow_start c ≡ false)
unfolding in_slow_start
full_bandwidth_is_kept initial most b c r h s =
    let still = Reach-full b c s h in
    (
      still,
      ground (arith, kept, (Reach-IsStarted b c s (modes_follow_bandwidth initial most b r)).1),
    )
