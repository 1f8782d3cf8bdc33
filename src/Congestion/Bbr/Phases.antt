-- ===== src/Congestion/Bbr/Phases.antt =====
-- internal/congestion/bbr_sender.go: the modes that a sender goes through, and the full bandwidth.
use gt_bbr.Congestion.Bbr.Model.{Packet, discard_lost_packets}
use gt_bbr.Congestion.BandwidthSampler.{on_app_limited}
use gt_bbr.Congestion.Bbr.Event.{
  update_modes, on_congestion_event, bbr_on_packet_sent, is_nonempty, input_acked_packets,
  acked_since, add_lengths, recalculate,
}
use gt_bbr.Congestion.Bbr.Modes.{
  advance_gain_cycle, update_gain_cycle_phase, check_if_full_bandwidth_reached, maybe_exit_startup,
  enter_probe_bandwidth_mode, maybe_exit_drain, maybe_enter_probe_rtt, leave_probe_rtt,
  stay_in_probe_rtt, maybe_enter_or_exit_probe_rtt, should_advance_gain_cycling,
  count_round_without_gain, pick_offset, enter_startup_mode, maybe_exit_startup_or_drain,
  note_growth,
}
use gt_bbr.Prelude.{
  ℕ, ◌<◌, ◌≡◌, refl, sym, ap, subst, ◌⊎◌, inl, inr, Bool, true, false, not, ◌&&◌, List, arith,
  if◌then◌else◌, Bool-cases,
}
use gt_bbr.Congestion.Bbr.State.{
  Mode, startup, drain, probe_bw, probe_rtt, Gain, Inputs, BbrSender, gain_cycle, gain_cycle_length,
  new_bbr_sender, new_config,
}
use gt_bbr.Congestion.Bbr.Queries.{is_startup, is_probe_bw, is_probe_rtt}
use gt_bbr.Congestion.Bbr.Frame.{
  core, core-input_acked, kept-discard, mode_state, mode_state-recalculate,
}
use gt_bbr.Congestion.Bbr.Recovery.{Reach, here, send, event}

-- Before the full bandwidth is reached, only STARTUP and PROBE_RTT are possible; in PROBE_BW, the
-- pacing gain is the one of the current phase of the cycle.
abbrev pub InMode : Mode → Bool → ℕ → Gain → Type 0
InMode startup full offset gain = Unit
InMode drain full offset gain = full ≡ true
InMode probe_bw full offset gain =
    (full ≡ true) × (offset < gain_cycle_length) × (gain ≡ gain_cycle offset)
InMode probe_rtt full offset gain = Unit

abbrev pub IsCruising : BbrSender → Type 0
IsCruising b =
    (b.config.drain_to_target ≡ false)
    × InMode b.mode b.is_at_full_bandwidth b.cycle_current_offset b.pacing_gain

-- At the full bandwidth, the sender is not in STARTUP.
abbrev pub IsStarted : BbrSender → Type 0
IsStarted b = (is_startup b.mode ≡ false) ⊎ (b.is_at_full_bandwidth ≡ false)

gain_cycle-IsCruising :
    (i : Inputs) (now : ℕ) (b : BbrSender)
    → IsCruising b
    → is_probe_bw b.mode ≡ true
    → IsCruising (advance_gain_cycle i now b)
unfolding advance_gain_cycle
gain_cycle-IsCruising i now b h e = ground arith

phase-IsCruising :
    (i : Inputs) (now f : ℕ) (l : Bool) (b : BbrSender)
    → IsCruising b
    → is_probe_bw b.mode ≡ true
    → IsCruising (update_gain_cycle_phase i now f l b)
unfolding update_gain_cycle_phase
phase-IsCruising i now f l b h e = elim (Bool-cases (should_advance_gain_cycling i now f l b)) [
  | inl s ↦ ground (arith, gain_cycle-IsCruising i now b h e)
  | inr s ↦ ground arith
]

full-IsCruising :
    (i : Inputs) (b : BbrSender) → IsCruising b → IsCruising (check_if_full_bandwidth_reached i b)
unfolding check_if_full_bandwidth_reached count_round_without_gain note_growth
full-IsCruising i b h = ground arith

exit_startup-IsStarted :
    (b : BbrSender)
    → IsCruising b
    → IsCruising (maybe_exit_startup b) × IsStarted (maybe_exit_startup b)
unfolding maybe_exit_startup
exit_startup-IsStarted b h = ground arith

enter_probe_bw-IsStarted :
    (i : Inputs) (now : ℕ) (b : BbrSender)
    → b.config.drain_to_target ≡ false
    → b.is_at_full_bandwidth ≡ true
    → IsCruising (enter_probe_bandwidth_mode i now b)
      × IsStarted (enter_probe_bandwidth_mode i now b)
unfolding enter_probe_bandwidth_mode pick_offset
enter_probe_bw-IsStarted i now b h e = ground arith

exit_drain-IsStarted :
    (i : Inputs) (now : ℕ) (b : BbrSender)
    → IsCruising b × IsStarted b
    → IsCruising (maybe_exit_drain i now b) × IsStarted (maybe_exit_drain i now b)
unfolding maybe_exit_drain
exit_drain-IsStarted i now b h = ground (arith, enter_probe_bw-IsStarted i now b h.0.0)

enter_probe_rtt-IsStarted :
    (e : Bool) (b : BbrSender)
    → IsCruising b × IsStarted b
    → IsCruising (maybe_enter_probe_rtt e b) × IsStarted (maybe_enter_probe_rtt e b)
unfolding maybe_enter_probe_rtt
enter_probe_rtt-IsStarted e b h = ground arith

leave-IsStarted :
    (i : Inputs) (now : ℕ) (b : BbrSender)
    → b.config.drain_to_target ≡ false
    → IsCruising (leave_probe_rtt i now b) × IsStarted (leave_probe_rtt i now b)
unfolding leave_probe_rtt enter_startup_mode
leave-IsStarted i now b h = ground (arith, enter_probe_bw-IsStarted i now b h)

stay-IsStarted :
    (i : Inputs) (now : ℕ) (r : Bool) (b : BbrSender)
    → is_probe_rtt b.mode ≡ true
    → IsCruising b
    → IsCruising (stay_in_probe_rtt i now r b) × IsStarted (stay_in_probe_rtt i now r b)
unfolding stay_in_probe_rtt
stay-IsStarted i now r b e h =
    let left : BbrSender = record b { probe_rtt_round_passed = true; min_rtt_timestamp = now } in
    ground (arith, leave-IsStarted i now left h.0)

probe_rtt-IsStarted :
    (i : Inputs) (now : ℕ) (r e : Bool) (b : BbrSender)
    → IsCruising b × IsStarted b
    → IsCruising (maybe_enter_or_exit_probe_rtt i now r e b)
      × IsStarted (maybe_enter_or_exit_probe_rtt i now r e b)
unfolding maybe_enter_or_exit_probe_rtt
probe_rtt-IsStarted i now r e b h =
    let b1 = maybe_enter_probe_rtt e b in
    let b2 : BbrSender = record b1 { sampler = on_app_limited b1.sampler } in
    let h1 = enter_probe_rtt-IsStarted e b h in
    elim (Bool-cases (is_probe_rtt b1.mode)) [
      | inl m ↦ ground (arith, stay-IsStarted i now r b2 m h1.0)
      | inr m ↦ ground (arith, h1)
    ]

modes-IsStarted :
    (i : Inputs) (now f : ℕ) (l r e : Bool) (b : BbrSender)
    → IsCruising b
    → IsCruising (update_modes i now f l r e b) × IsStarted (update_modes i now f l r e b)
unfolding update_modes maybe_exit_startup_or_drain
modes-IsStarted i now f l r e b h =
    let b1 = if is_probe_bw b.mode then update_gain_cycle_phase i now f l b else b in
    let b2 =
      if r && not b1.is_at_full_bandwidth then check_if_full_bandwidth_reached i b1 else b1 in
    let b3 = maybe_exit_startup b2 in
    let h1 : IsCruising b1 = ground (arith, phase-IsCruising i now f l b h) in
    let h2 : IsCruising b2 = ground (arith, full-IsCruising i b1 h1) in
    probe_rtt-IsStarted i now r e (maybe_exit_drain i now b3)
      (exit_drain-IsStarted i now b3 (exit_startup-IsStarted b2 h2))

core-IsCruising : (b c : BbrSender) → core c ≡ core b → IsCruising b → IsCruising c
core-IsCruising b c e h =
    subst
      (λ k.
        (k.config.drain_to_target ≡ false)
        × InMode k.mode k.is_at_full_bandwidth k.cycle_current_offset k.pacing_gain)
      (sym e) h

mode_state-IsStarted :
    (b c : BbrSender)
    → mode_state c ≡ mode_state b
    → IsCruising b × IsStarted b
    → IsCruising c × IsStarted c
mode_state-IsStarted b c e h =
    subst
      (λ k.
        ((k.config.drain_to_target ≡ false)
          × InMode k.mode k.is_at_full_bandwidth k.cycle_current_offset k.pacing_gain)
        × ((is_startup k.mode ≡ false) ⊎ (k.is_at_full_bandwidth ≡ false)))
      (sym e) h

event-IsStarted :
    (i : Inputs) (f now : ℕ) (acked lost : List Packet) (b : BbrSender)
    → IsCruising b
    → IsCruising (on_congestion_event i f now acked lost b)
      × IsStarted (on_congestion_event i f now acked lost b)
unfolding on_congestion_event
event-IsStarted i f now acked lost b h =
    let before = b.sampler.total_bytes_acked in
    let l = is_nonempty lost in
    let b0 = discard_lost_packets lost b in
    let a = input_acked_packets i before now l acked b0 in
    let r = a.is_round_start in
    let e = a.min_rtt_expired in
    let b1 = update_modes i now f l r e a.sender in
    let n = acked_since before b1 in
    let m = add_lengths 0 lost in
    let h0 = core-IsCruising b b0 (ap (λ k. k.core) (kept-discard lost b)) h in
    let ha = core-IsCruising b0 a.sender (core-input_acked i before now l acked b0) h0 in
    mode_state-IsStarted b1 (recalculate i n m a.excess_acked b1)
      (mode_state-recalculate i n m a.excess_acked b1) (modes-IsStarted i now f l r e a.sender ha)

pub Reach-IsStarted :
    (b c : BbrSender) → Reach b c → IsCruising b × IsStarted b → IsCruising c × IsStarted c
unfolding bbr_on_packet_sent
Reach-IsStarted b _ here h = h
Reach-IsStarted b _ (send {c = c} t f p n r st) h = Reach-IsStarted b c st h
Reach-IsStarted b _ (event {c = c} i f now acked lost st) h =
    event-IsStarted i f now acked lost c (Reach-IsStarted b c st h).0

-- After any calls on a new sender: in DRAIN and PROBE_BW the full bandwidth has been reached, in
-- STARTUP it has not, and in PROBE_BW the offset is within the cycle and the pacing gain is the one
-- at that offset.
pub modes_follow_bandwidth :
    (initial most : ℕ) (b : BbrSender)
    → Reach (new_bbr_sender initial most) b
    → IsCruising b × IsStarted b
unfolding new_bbr_sender new_config
modes_follow_bandwidth initial most b r =
    Reach-IsStarted (new_bbr_sender initial most) b r ((refl, tt), inr refl)
