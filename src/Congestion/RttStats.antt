-- ===== src/Congestion/RttStats.antt =====
-- internal/congestion/rtt_stats.go: the round-trip times of a connection, in nanoseconds. The weighted
-- sums in `float32`, of numbers of microseconds, are arbitrary functions.
use gt_bbr.Prelude.{ℕ, ◌-◌, ◌*◌, ◌/◌, ◌^◌, max, ◌||◌, ltb, leb, ◌==◌, if◌then◌else◌}

pub record RttStats : Type 0 where
  pub min_rtt : ℕ
  pub latest_rtt : ℕ
  pub smoothed_rtt : ℕ
  pub mean_deviation : ℕ

-- `time.Duration(oneMinusBeta*float32(a)+rttBeta*float32(b))`, and the same with `rttAlpha`.
pub record Weights : Type 0 where
  pub deviation : ℕ → ℕ → ℕ
  pub smoothed : ℕ → ℕ → ℕ

abbrev pub default_initial_rtt : ℕ
default_initial_rtt = 100 * 10 ^ 6

abbrev pub inf_duration : ℕ
inf_duration = 2 ^ 63 - 1

abbrev pub microsecond : ℕ
microsecond = 1000

unfoldable pub new_rtt_stats : RttStats
new_rtt_stats = record { min_rtt = 0; latest_rtt = 0; smoothed_rtt = 0; mean_deviation = 0 }

unfoldable pub smoothed_or_initial_rtt : RttStats → ℕ
smoothed_or_initial_rtt r = if r.smoothed_rtt == 0 then default_initial_rtt else r.smoothed_rtt

-- `utils.AbsDuration` of a difference.
unfoldable pub abs_difference : ℕ → ℕ → ℕ
abs_difference a b = if ltb a b then b - a else a - b

unfoldable pub lower_min_rtt : ℕ → RttStats → RttStats
lower_min_rtt send_delta r =
    if r.min_rtt == 0 || ltb send_delta r.min_rtt then record r { min_rtt = send_delta } else r

unfoldable pub smooth : Weights → ℕ → RttStats → RttStats
unfolding abs_difference
smooth w sample r =
    if r.smoothed_rtt == 0
    then record r { latest_rtt = sample; smoothed_rtt = sample; mean_deviation = sample / 2 }
    else record r {
      latest_rtt = sample;
      mean_deviation =
          w.deviation (r.mean_deviation / microsecond)
            (abs_difference r.smoothed_rtt sample / microsecond)
          * microsecond;
      smoothed_rtt = w.smoothed (r.smoothed_rtt / microsecond) (sample / microsecond) * microsecond;
    }

unfoldable pub update_rtt : Weights → ℕ → ℕ → RttStats → RttStats
unfolding lower_min_rtt smooth
update_rtt w send_delta ack_delay r =
    let r1 = lower_min_rtt send_delta r in
    if send_delta == inf_duration || send_delta == 0
    then r
    else if leb ack_delay (send_delta - r1.min_rtt)
    then smooth w (send_delta - ack_delay) r1
    else smooth w send_delta r1

unfoldable pub expire_smoothed_metrics : RttStats → RttStats
unfolding abs_difference
expire_smoothed_metrics r = record r {
  mean_deviation = max r.mean_deviation (abs_difference r.smoothed_rtt r.latest_rtt);
  smoothed_rtt = max r.smoothed_rtt r.latest_rtt;
}
