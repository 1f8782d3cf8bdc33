-- ===== src/Congestion/Bbr/Bounds.antt =====
-- internal/congestion/bbr_sender.go: the limits of the congestion window and of the recovery window.
use gt_bbr.Congestion.Bbr.Model.{Packet, discard_lost_packets}
use gt_bbr.Congestion.Bbr.Event.{
  recalculate, on_congestion_event, bbr_on_packet_sent, is_nonempty, input_acked_packets,
  update_modes, acked_since, add_lengths,
}
use gt_bbr.Congestion.Bbr.Windows.{
  calculate_congestion_window, calculate_recovery_window, calculate_pacing_rate,
}
use gt_bbr.Prelude.{
  ℕ, ◌≤◌, ◌<◌, ◌≡◌, refl, sym, ap, subst, ◌⊎◌, inl, inr, true, false, List, arith, Bool-cases,
}
use gt_bbr.Congestion.Bbr.State.{
  Inputs, Config, BbrSender, not_in_recovery, max_byte_count, min_byte_count, new_bbr_sender,
  new_config,
}
use gt_bbr.Congestion.Bbr.Queries.{
  is_probe_rtt, in_recovery, get_target_congestion_window, probe_rtt_congestion_window,
  get_congestion_window, can_send,
}
use gt_bbr.Congestion.Bbr.Frame.{
  core, core-input_acked, kept-discard, kept-pacing_rate, kept-recovery_window, windows,
  windows-update_modes,
}
use gt_bbr.Congestion.Bbr.Recovery.{Reach, here, send, event}

-- The options that the limits depend on: 5840 bytes are four segments of 1460 bytes.
abbrev Limits : ℕ → Config → ℕ → Type 0
Limits most c w =
    (c.min_congestion_window ≡ 5840)
    × (c.max_congestion_window ≡ most)
    × (c.rate_based_startup ≡ false)
    × (5840 ≤ w)
    × (w ≤ most)

-- In recovery the recovery window is not below the minimum.
abbrev IsRecoverable : BbrSender → Type 0
IsRecoverable b = (b.recovery_state ≡ not_in_recovery) ⊎ (5840 ≤ b.recovery_window)

module _ (most : ℕ) (large : 5840 ≤ most) where
  abbrev IsBounded : BbrSender → Type 0
  IsBounded b = Limits most b.config b.congestion_window

  congestion_window-IsBounded :
      (i : Inputs) (n x : ℕ) (b : BbrSender)
      → IsBounded b
      → IsBounded (calculate_congestion_window i n x b)
  unfolding calculate_congestion_window min_byte_count max_byte_count
  congestion_window-IsBounded i n x b h = elim (Bool-cases (is_probe_rtt b.mode)) [
    | inl e ↦ ground arith
    | inr e ↦ ground arith
  ]

  recovery_window-IsRecoverable :
      (i : Inputs) (n m : ℕ) (b : BbrSender)
      → IsBounded b
      → IsRecoverable (calculate_recovery_window i n m b)
  unfolding calculate_recovery_window max_byte_count in_recovery
  recovery_window-IsRecoverable i n m b h = ground arith

  core-IsBounded : (b c : BbrSender) → core c ≡ core b → IsBounded b → IsBounded c
  core-IsBounded b c e h = subst (λ k. Limits most k.config k.congestion_window) (sym e) h

  windows-IsBounded : (b c : BbrSender) → windows c ≡ windows b → IsBounded b → IsBounded c
  windows-IsBounded b c e h = subst (λ k. Limits most k.config k.congestion_window) (sym e) h

  recalculate-IsBounded :
      (i : Inputs) (n m x : ℕ) (b : BbrSender)
      → IsBounded b
      → IsBounded (recalculate i n m x b) × IsRecoverable (recalculate i n m x b)
  unfolding recalculate
  recalculate-IsBounded i n m x b h =
      let b1 = calculate_pacing_rate i b in
      let b2 = calculate_congestion_window i n x b1 in
      let h1 = core-IsBounded b b1 (ap (λ k. k.core) (kept-pacing_rate i b)) h in
      let h2 = congestion_window-IsBounded i n x b1 h1 in
      (
        core-IsBounded b2 (calculate_recovery_window i n m b2)
            (ap (λ k. k.core) (kept-recovery_window i n m b2)) h2,
        recovery_window-IsRecoverable i n m b2 h2,
      )

  event-IsBounded :
      (i : Inputs) (f now : ℕ) (acked lost : List Packet) (b : BbrSender)
      → IsBounded b
      → IsBounded (on_congestion_event i f now acked lost b)
        × IsRecoverable (on_congestion_event i f now acked lost b)
  unfolding on_congestion_event
  event-IsBounded i f now acked lost b h =
      let before = b.sampler.total_bytes_acked in
      let l = is_nonempty lost in
      let b0 = discard_lost_packets lost b in
      let a = input_acked_packets i before now l acked b0 in
      let r = a.is_round_start in
      let e = a.min_rtt_expired in
      let b1 = update_modes i now f l r e a.sender in
      let h0 = core-IsBounded b b0 (ap (λ k. k.core) (kept-discard lost b)) h in
      let ha = core-IsBounded b0 a.sender (core-input_acked i before now l acked b0) h0 in
      recalculate-IsBounded i (acked_since before b1) (add_lengths 0 lost) a.excess_acked b1
        (windows-IsBounded a.sender b1 (windows-update_modes i now f l r e a.sender) ha)

  Reach-IsBounded :
      (b c : BbrSender) → Reach b c → IsBounded b × IsRecoverable b → IsBounded c × IsRecoverable c
  unfolding bbr_on_packet_sent in_recovery
  Reach-IsBounded b _ here h = h
  Reach-IsBounded b _ (send {c = c} t f p n r st) h = Reach-IsBounded b c st h
  Reach-IsBounded b _ (event {c = c} i f now acked lost st) h =
      event-IsBounded i f now acked lost c (Reach-IsBounded b c st h).0

new-IsBounded :
    (initial most : ℕ)
    → 5840 ≤ initial
    → initial ≤ most
    → Limits most
        (new_bbr_sender initial most).config
        (new_bbr_sender initial most).congestion_window
      × IsRecoverable (new_bbr_sender initial most)
unfolding new_bbr_sender new_config in_recovery
new-IsBounded initial most h h' = ((refl, refl, refl, h, h'), inl refl)

-- A sender whose initial congestion window is at least 5840 bytes, four segments of 1460, and at most
-- the maximum keeps its congestion window between the two, whatever is sent, acknowledged or lost;
-- in recovery the recovery window is at least 5840 bytes too; so the sender can always send when
-- fewer than 5840 bytes are in flight.
pub window_within_limits :
    (initial most in_flight : ℕ) (i : Inputs) (b : BbrSender)
    → 5840 ≤ initial
    → initial ≤ most
    → Reach (new_bbr_sender initial most) b
    → in_flight < 5840
    → (5840 ≤ b.congestion_window)
      × (b.congestion_window ≤ most)
      × ((b.recovery_state ≡ not_in_recovery) ⊎ (5840 ≤ b.recovery_window))
      × (can_send i in_flight b ≡ true)
unfolding can_send get_congestion_window probe_rtt_congestion_window get_target_congestion_window
    min_byte_count max_byte_count
window_within_limits initial most n i b h h' r lt =
    let inv =
      Reach-IsBounded most (omega arith) (new_bbr_sender initial most) b r
        (new-IsBounded initial most h h') in
    let ((m, x, s, low, high), rec) = inv in (low, high, rec, ground (arith, inv))
