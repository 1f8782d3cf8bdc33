-- ===== src/Tests/Congestion.antt =====
-- internal/congestion: a round of slow start and a filter at concrete values.
use gt_bbr.Prelude.{
  ℕ, ◌+◌, ◌*◌, ◌/◌, ◌≤◌, ◌<◌, min, max, ◌≡◌, refl, ◌↔◌, true, false, List, [], ◌∷◌, arith,
}
use gt_bbr.Congestion.HybridSlowStart.{HybridSlowStart}
use gt_bbr.Congestion.HybridSlowStart.Rounds.{run_samples, shortest, round_decides}
use gt_bbr.Congestion.WindowedFilter.{Sample, get_best}
use gt_bbr.Congestion.WindowedFilter.Given.{filter_of, Given, get_best_lem}

abbrev restarted : HybridSlowStart
restarted = record {
  end_packet_number = 0;
  last_sent_packet_number = 40;
  started = false;
  current_min_rtt = 0;
  rtt_sample_count = 0;
  hystart_found = false;
}

abbrev ms70 : ℕ
ms70 = 70 * 1000000

abbrev seven : List ℕ
seven = ms70 ∷ ms70 ∷ ms70 ∷ ms70 ∷ ms70 ∷ ms70 ∷ ms70 ∷ []

-- 70 milliseconds, in a session with 60 at least: 7.5 is the threshold.
round_decides_example :
    ((run_samples 60000000 20 (ms70 ∷ seven) restarted).hystart_found ≡ true)
    ↔ (60000000 + max 4000 (min (60000000 / 8000) 16000) * 1000 < shortest ms70 seven)
round_decides_example = round_decides 60000000 20 ms70 seven restarted refl refl refl (
  omega arith,
  (
    omega arith,
    (omega arith, (omega arith, (omega arith, (omega arith, (omega arith, (omega arith, tt)))))),
  ),
)

abbrev samples : List Sample
samples = record { sample = 80; time = 3 } ∷ record { sample = 100; time = 1 } ∷ []

get_best_lem_example :
    (60 ≤ get_best (filter_of 10 (record { sample = 60; time = 20 } ∷ samples)))
    × ((x : Sample) × Given (record { sample = 60; time = 20 } ∷ samples) x
        × (get_best (filter_of 10 (record { sample = 60; time = 20 } ∷ samples)) ≡ x.sample)
        × (20 ≤ x.time + 10))
get_best_lem_example =
    get_best_lem 10 (record { sample = 60; time = 20 }) samples (omega arith, (omega arith, tt))
