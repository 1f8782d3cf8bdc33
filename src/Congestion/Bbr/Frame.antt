-- ===== src/Congestion/Bbr/Frame.antt =====
-- internal/congestion/bbr_sender.go: the fields that the methods leave alone.
use gt_bbr.Congestion.Bbr.Windows.{
  calculate_pacing_rate, calculate_congestion_window, calculate_recovery_window,
}
use gt_bbr.Congestion.Bbr.Modes.{
  update_gain_cycle_phase, check_if_full_bandwidth_reached, maybe_exit_startup, maybe_exit_drain,
  maybe_enter_probe_rtt, stay_in_probe_rtt, maybe_enter_or_exit_probe_rtt, advance_gain_cycle,
  count_round_without_gain, enter_probe_bandwidth_mode, leave_probe_rtt,
  maybe_exit_startup_or_drain, note_growth, enter_startup_mode,
}
use gt_bbr.Congestion.Bbr.Event.{
  input_acked_packets, update_modes, last_number, acked_since, recalculate,
}
use gt_bbr.Congestion.BandwidthSampler.{
  BandwidthSample, infinite_rtt, on_packet_acked, on_app_limited,
}
use gt_bbr.Congestion.Bbr.Queries.{is_probe_bw, is_probe_rtt}
use gt_bbr.Congestion.Bbr.Model.{
  update_round_trip_counter, update_bandwidth, use_sample, sample_packet, sample_packets,
  update_min_rtt, update_bandwidth_and_min_rtt, discard_lost_packets, switch_recovery_state,
  update_recovery_state, update_ack_aggregation_bytes, Packet, set_min_rtt, discard_lost_packet,
  enter_conservation, maybe_exit_recovery,
}
use gt_bbr.Prelude.{
  ℕ, ◌≡◌, refl, ◌∙◌, Bool, List, [], ◌∷◌, arith, if◌then◌else◌, ◌&&◌, not, ap, Bool-cases, inl, inr,
}
use gt_bbr.Congestion.Bbr.State.{Mode, Gain, Inputs, Config, BbrSender, RecoveryState}

-- What only the blocks for the modes and the congestion window change.
pub record Core : Type 0 where
  pub config : Config
  pub mode : Mode
  pub congestion_window : ℕ
  pub pacing_gain : Gain
  pub cycle_current_offset : ℕ
  pub is_at_full_bandwidth : Bool

abbrev pub core : BbrSender → Core
core b = record {
  config = b.config;
  mode = b.mode;
  congestion_window = b.congestion_window;
  pacing_gain = b.pacing_gain;
  cycle_current_offset = b.cycle_current_offset;
  is_at_full_bandwidth = b.is_at_full_bandwidth;
}

-- All of that, and the state of recovery.
pub record Kept : Type 0 where
  pub core : Core
  pub recovery_state : RecoveryState

abbrev pub kept : BbrSender → Kept
kept b = record { core = core b; recovery_state = b.recovery_state }

pub kept-round_trip : (p : ℕ) (b : BbrSender) → kept (update_round_trip_counter p b).0 ≡ kept b
unfolding update_round_trip_counter
kept-round_trip p b = ground arith

pub kept-update_bandwidth :
    (s : BandwidthSample) (b : BbrSender) → kept (update_bandwidth s b) ≡ kept b
unfolding update_bandwidth
kept-update_bandwidth s b = ground arith

pub kept-use_sample :
    (s : BandwidthSample) (b : BbrSender) (m : ℕ) → kept (use_sample s (b, m)).0 ≡ kept b
unfolding use_sample
kept-use_sample s b m = kept-update_bandwidth s _

pub kept-sample_packet :
    (now m : ℕ) (p : Packet) (b : BbrSender) → kept (sample_packet now p (b, m)).0 ≡ kept b
unfolding sample_packet
kept-sample_packet now m p b =
    let (sampler, sample) = on_packet_acked now p.packet_number b.sampler in
    ground (arith, kept-use_sample sample (record b { sampler = sampler }) m)

pub kept-sample_packets :
    (now m : ℕ) (ps : List Packet) (b : BbrSender) → kept (sample_packets now ps (b, m)).0 ≡ kept b
unfolding sample_packets
kept-sample_packets now m [] b = refl
kept-sample_packets now m (p ∷ ps) b =
    kept-sample_packets now (sample_packet now p (b, m)).1 ps (sample_packet now p (b, m)).0
    ∙ kept-sample_packet now m p b

pub kept-update_min_rtt :
    (i : Inputs) (now m : ℕ) (b : BbrSender) → kept (update_min_rtt i now m b).0 ≡ kept b
unfolding update_min_rtt set_min_rtt
kept-update_min_rtt i now m b = ground arith

pub kept-bandwidth_and_min_rtt :
    (i : Inputs) (now : ℕ) (ps : List Packet) (b : BbrSender)
    → kept (update_bandwidth_and_min_rtt i now ps b).0 ≡ kept b
unfolding update_bandwidth_and_min_rtt
kept-bandwidth_and_min_rtt i now ps b =
    let (b1, m) = sample_packets now ps (b, infinite_rtt) in
    ground (arith, kept-sample_packets now infinite_rtt ps b, kept-update_min_rtt i now m b1)

pub kept-discard_packet : (p : Packet) (b : BbrSender) → kept (discard_lost_packet p b) ≡ kept b
unfolding discard_lost_packet
kept-discard_packet p b = ground arith

pub kept-discard : (ps : List Packet) (b : BbrSender) → kept (discard_lost_packets ps b) ≡ kept b
unfolding discard_lost_packets
kept-discard [] b = refl
kept-discard (p ∷ ps) b = kept-discard ps (discard_lost_packet p b) ∙ kept-discard_packet p b

pub kept-ack_aggregation :
    (now n : ℕ) (b : BbrSender) → kept (update_ack_aggregation_bytes now n b).0 ≡ kept b
unfolding update_ack_aggregation_bytes
kept-ack_aggregation now n b = ground arith

pub core-switch_recovery :
    (l r : Bool) (b : BbrSender) → core (switch_recovery_state l r b) ≡ core b
unfolding switch_recovery_state enter_conservation maybe_exit_recovery
core-switch_recovery l r b = ground arith

pub core-recovery_state : (l r : Bool) (b : BbrSender) → core (update_recovery_state l r b) ≡ core b
unfolding update_recovery_state
core-recovery_state l r b =
    let b0 = if l then b else record b { end_recovery_at = b.last_send_packet } in
    ground (arith, core-switch_recovery l r b0)

pub core-input_acked :
    (i : Inputs) (before now : ℕ) (l : Bool) (ps : List Packet) (b : BbrSender)
    → core (input_acked_packets i before now l ps b).sender ≡ core b
unfolding input_acked_packets
core-input_acked i before now l [] b = refl
core-input_acked i before now l (p ∷ ps) b =
    let (b1, r) = update_round_trip_counter (last_number p ps) b in
    let b2 = (update_bandwidth_and_min_rtt i now (p ∷ ps) b1).0 in
    let b3 = update_recovery_state l r b2 in
    ap (λ k. k.core) (kept-ack_aggregation now (acked_since before b3) b3)
    ∙ core-recovery_state l r b2
    ∙ ap (λ k. k.core)
        (kept-bandwidth_and_min_rtt i now (p ∷ ps) b1 ∙ kept-round_trip (last_number p ps) b)

-- What the blocks for the modes and the pacing rate leave alone.
pub record WindowState : Type 0 where
  pub config : Config
  pub congestion_window : ℕ
  pub recovery_state : RecoveryState

abbrev pub windows : BbrSender → WindowState
windows b = record {
  config = b.config;
  congestion_window = b.congestion_window;
  recovery_state = b.recovery_state;
}

windows-gain_cycle :
    (i : Inputs) (now f : ℕ) (l : Bool) (b : BbrSender)
    → windows (update_gain_cycle_phase i now f l b) ≡ windows b
unfolding update_gain_cycle_phase advance_gain_cycle
windows-gain_cycle i now f l b = ground arith

windows-full_bandwidth :
    (i : Inputs) (b : BbrSender) → windows (check_if_full_bandwidth_reached i b) ≡ windows b
unfolding check_if_full_bandwidth_reached count_round_without_gain note_growth
windows-full_bandwidth i b = ground arith

windows-exit_startup : (b : BbrSender) → windows (maybe_exit_startup b) ≡ windows b
unfolding maybe_exit_startup
windows-exit_startup b = ground arith

windows-exit_drain :
    (i : Inputs) (now : ℕ) (b : BbrSender) → windows (maybe_exit_drain i now b) ≡ windows b
unfolding maybe_exit_drain enter_probe_bandwidth_mode
windows-exit_drain i now b = ground arith

windows-enter_probe_rtt :
    (e : Bool) (b : BbrSender) → windows (maybe_enter_probe_rtt e b) ≡ windows b
unfolding maybe_enter_probe_rtt
windows-enter_probe_rtt e b = ground arith

windows-stay :
    (i : Inputs) (now : ℕ) (r : Bool) (b : BbrSender)
    → windows (stay_in_probe_rtt i now r b) ≡ windows b
unfolding stay_in_probe_rtt leave_probe_rtt enter_startup_mode enter_probe_bandwidth_mode
windows-stay i now r b = ground arith

windows-probe_rtt :
    (i : Inputs) (now : ℕ) (r e : Bool) (b : BbrSender)
    → windows (maybe_enter_or_exit_probe_rtt i now r e b) ≡ windows b
unfolding maybe_enter_or_exit_probe_rtt
windows-probe_rtt i now r e b =
    let b1 = maybe_enter_probe_rtt e b in
    let b2 : BbrSender = record b1 { sampler = on_app_limited b1.sampler } in
    ground (arith, windows-enter_probe_rtt e b, windows-stay i now r b2)

pub windows-update_modes :
    (i : Inputs) (now f : ℕ) (l r e : Bool) (b : BbrSender)
    → windows (update_modes i now f l r e b) ≡ windows b
unfolding update_modes maybe_exit_startup_or_drain
windows-update_modes i now f l r e b =
    let b1 = if is_probe_bw b.mode then update_gain_cycle_phase i now f l b else b in
    let b2 =
      if r && not b1.is_at_full_bandwidth then check_if_full_bandwidth_reached i b1 else b1 in
    let b3 = maybe_exit_startup b2 in
    let cycle : windows b1 ≡ windows b = ground (arith, windows-gain_cycle i now f l b) in
    let full : windows b2 ≡ windows b1 = ground (arith, windows-full_bandwidth i b1) in
    windows-probe_rtt i now r e (maybe_exit_drain i now b3)
    ∙ windows-exit_drain i now b3
    ∙ windows-exit_startup b2
    ∙ full
    ∙ cycle

-- What the calculation of the windows leaves alone.
pub record ModeState : Type 0 where
  pub config : Config
  pub mode : Mode
  pub pacing_gain : Gain
  pub cycle_current_offset : ℕ
  pub is_at_full_bandwidth : Bool
  pub recovery_state : RecoveryState

abbrev pub mode_state : BbrSender → ModeState
mode_state b = record {
  config = b.config;
  mode = b.mode;
  pacing_gain = b.pacing_gain;
  cycle_current_offset = b.cycle_current_offset;
  is_at_full_bandwidth = b.is_at_full_bandwidth;
  recovery_state = b.recovery_state;
}

pub kept-pacing_rate : (i : Inputs) (b : BbrSender) → kept (calculate_pacing_rate i b) ≡ kept b
unfolding calculate_pacing_rate
kept-pacing_rate i b = ground arith

pub mode_state-congestion_window :
    (i : Inputs) (n x : ℕ) (b : BbrSender)
    → mode_state (calculate_congestion_window i n x b) ≡ mode_state b
unfolding calculate_congestion_window
mode_state-congestion_window i n x b = elim (Bool-cases (is_probe_rtt b.mode)) [
  | inl e ↦ rw e
  | inr e ↦ rw e
]

pub kept-recovery_window :
    (i : Inputs) (n m : ℕ) (b : BbrSender) → kept (calculate_recovery_window i n m b) ≡ kept b
unfolding calculate_recovery_window
kept-recovery_window i n m b = ground arith

abbrev mode_part : Kept → ModeState
mode_part k = record {
  config = k.core.config;
  mode = k.core.mode;
  pacing_gain = k.core.pacing_gain;
  cycle_current_offset = k.core.cycle_current_offset;
  is_at_full_bandwidth = k.core.is_at_full_bandwidth;
  recovery_state = k.recovery_state;
}

pub mode_state-recalculate :
    (i : Inputs) (n m x : ℕ) (b : BbrSender) → mode_state (recalculate i n m x b) ≡ mode_state b
unfolding recalculate
mode_state-recalculate i n m x b =
    let b1 = calculate_pacing_rate i b in
    ap mode_part (kept-recovery_window i n m (calculate_congestion_window i n x b1))
    ∙ mode_state-congestion_window i n x b1
    ∙ ap mode_part (kept-pacing_rate i b)
