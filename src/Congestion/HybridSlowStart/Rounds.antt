-- ===== src/Congestion/HybridSlowStart/Rounds.antt =====
-- internal/congestion/hybrid_slow_start.go: what a round of samples decides.
use gt_bbr.Prelude.{
  ℕ, ◌+◌, ◌*◌, ◌/◌, ◌<◌, min, max, ◌≡◌, subst, ◌↔◌, true, false, List, [], ◌∷◌, arith, length, All,
}
use gt_bbr.Congestion.HybridSlowStart.{
  HybridSlowStart, start_receive_round, increase_threshold, take_sample, detect_increase,
  ensure_started, should_exit_slow_start,
}

-- The samples of a round, one after the other; the last answer of `ShouldExitSlowStart`.
unfoldable pub run_samples : ℕ → ℕ → List ℕ → HybridSlowStart → HybridSlowStart
unfolding should_exit_slow_start
run_samples min_rtt window [] s = s
run_samples min_rtt window (rtt ∷ rtts) s =
    run_samples min_rtt window rtts (should_exit_slow_start rtt min_rtt window s).0

-- The shortest of some times, none of which is 0.
abbrev pub shortest : ℕ → List ℕ → ℕ
shortest r [] = r
shortest r (s ∷ ss) = shortest (min r s) ss

-- A round in which `n` samples were taken, of which `m` is the shortest, and no increase was found.
abbrev Sampled : ℕ → ℕ → HybridSlowStart → Type 0
Sampled m n s =
    (s.started ≡ true)
    × (s.hystart_found ≡ false)
    × (s.current_min_rtt ≡ m)
    × (s.rtt_sample_count ≡ n)
    × (0 < m)

sample-Sampled :
    (min_rtt window m n r : ℕ) (s : HybridSlowStart)
    → Sampled m n s
    → n < 7
    → 0 < r
    → Sampled (min m r) (n + 1) (should_exit_slow_start r min_rtt window s).0
unfolding should_exit_slow_start ensure_started take_sample detect_increase
sample-Sampled min_rtt window m n r s h lt pos = ground arith

first-Sampled :
    (min_rtt window r : ℕ) (s : HybridSlowStart)
    → s.started ≡ false
    → s.hystart_found ≡ false
    → 0 < r
    → Sampled r 1 (should_exit_slow_start r min_rtt window s).0
unfolding should_exit_slow_start ensure_started start_receive_round take_sample detect_increase
first-Sampled min_rtt window r s a b pos = ground arith

eighth_decides :
    (min_rtt window m r : ℕ) (s : HybridSlowStart)
    → Sampled m 7 s
    → 0 < r
    → ((should_exit_slow_start r min_rtt window s).0.hystart_found ≡ true)
      ↔ (min_rtt + max 4000 (min (min_rtt / 8000) 16000) * 1000 < min m r)
unfolding should_exit_slow_start ensure_started take_sample detect_increase increase_threshold
eighth_decides min_rtt window m r s h pos = ground arith

samples_decide :
    (min_rtt window m n : ℕ) (rtts : List ℕ) (s : HybridSlowStart)
    → Sampled m n s
    → n < 8
    → n + length rtts ≡ 8
    → All (λ r. 0 < r) rtts
    → ((run_samples min_rtt window rtts s).hystart_found ≡ true)
      ↔ (min_rtt + max 4000 (min (min_rtt / 8000) 16000) * 1000 < shortest m rtts)
unfolding run_samples
samples_decide min_rtt window m n [] s h lt e pos = absurd (omega arith)
samples_decide min_rtt window m n (r ∷ []) s h lt e pos =
    eighth_decides min_rtt window m r s (subst (λ k. Sampled m k s) (omega arith) h) pos.0
samples_decide min_rtt window m n (r ∷ r' ∷ rs) s h lt e pos =
    samples_decide min_rtt window (min m r) (n + 1) (r' ∷ rs)
      (should_exit_slow_start r min_rtt window s).0
      (sample-Sampled min_rtt window m n r s h (omega arith) pos.0) (omega arith) (omega arith)
      pos.1

-- After eight round-trip times, none of them 0, that start a round in which no increase was found
-- before, `hystartFound` is set exactly if the shortest of the eight is above the shortest of the
-- session by more than an eighth of the latter, in whole microseconds, but at least 4 and at most 16
-- milliseconds.
pub round_decides :
    (min_rtt window r : ℕ) (rtts : List ℕ) (s : HybridSlowStart)
    → s.started ≡ false
    → s.hystart_found ≡ false
    → length rtts ≡ 7
    → All (λ t. 0 < t) (r ∷ rtts)
    → ((run_samples min_rtt window (r ∷ rtts) s).hystart_found ≡ true)
      ↔ (min_rtt + max 4000 (min (min_rtt / 8000) 16000) * 1000 < shortest r rtts)
unfolding run_samples
round_decides min_rtt window r rtts s a b e pos =
    samples_decide min_rtt window r 1 rtts (should_exit_slow_start r min_rtt window s).0
      (first-Sampled min_rtt window r s a b pos.0) (omega arith) (omega arith) pos.1
