-- ===== src/Congestion/WindowedFilter.antt =====
-- internal/congestion/windowed_filter.go: the best sample of a window, estimated from three samples; the
-- bandwidth filter of BBR. Samples and times are not negative, and time does not run backwards, so
-- that the differences of times are natural numbers.
pub mod Window
pub mod Given
use gt_bbr.Prelude.{ℕ, ◌-◌, ◌/◌, ◌^◌, Bool, ◌&&◌, ◌||◌, ltb, leb, ◌==◌, if◌then◌else◌}

pub record Sample : Type 0 where
  pub sample : ℕ
  pub time : ℕ

-- `estimates` is an array of three samples.
pub record WindowedFilter : Type 0 where
  pub window_length : ℕ
  pub estimate0 : Sample
  pub estimate1 : Sample
  pub estimate2 : Sample

abbrev pub max_filter : ℕ → ℕ → Bool
max_filter a b = leb b a

abbrev pub min_filter : ℕ → ℕ → Bool
min_filter a b = leb a b

unfoldable pub new_windowed_filter : ℕ → WindowedFilter
new_windowed_filter window_length = record {
  window_length = window_length;
  estimate0 = record { sample = 0; time = 0 };
  estimate1 = record { sample = 0; time = 0 };
  estimate2 = record { sample = 0; time = 0 };
}

unfoldable pub get_best : WindowedFilter → ℕ
get_best f = f.estimate0.sample

unfoldable pub reset : Sample → WindowedFilter → WindowedFilter
reset s f = record f { estimate0 = s; estimate1 = s; estimate2 = s }

-- A sample that is better than the second or third estimate takes their places.
unfoldable pub improve : (ℕ → ℕ → Bool) → Sample → WindowedFilter → WindowedFilter
improve comparator s f =
    if comparator s.sample f.estimate1.sample
    then record f { estimate1 = s; estimate2 = s }
    else if comparator s.sample f.estimate2.sample
    then record f { estimate2 = s }
    else f

-- The best estimate is too old: the others move up, at most twice.
unfoldable pub promote : Sample → WindowedFilter → WindowedFilter
promote s f =
    let f1 = record f { estimate0 = f.estimate1; estimate1 = f.estimate2; estimate2 = s } in
    if ltb f1.window_length (s.time - f1.estimate0.time)
    then record f1 { estimate0 = f1.estimate1; estimate1 = f1.estimate2 }
    else f1

-- A quarter or a half of the window has passed without a better sample.
unfoldable pub refresh : Sample → WindowedFilter → WindowedFilter
refresh s f =
    if f.estimate1.sample == f.estimate0.sample
      && ltb (f.window_length / 2 ^ 2) (s.time - f.estimate1.time)
    then record f { estimate1 = s; estimate2 = s }
    else if f.estimate2.sample == f.estimate1.sample
        && ltb (f.window_length / 2 ^ 1) (s.time - f.estimate2.time)
    then record f { estimate2 = s }
    else f

unfoldable pub update : (ℕ → ℕ → Bool) → Sample → WindowedFilter → WindowedFilter
unfolding reset improve promote refresh
update comparator s f =
    let f1 = improve comparator s f in
    if f.estimate0.time == 0
      || comparator s.sample f.estimate0.sample
      || ltb f.window_length (s.time - f.estimate2.time)
    then reset s f
    else if ltb f1.window_length (s.time - f1.estimate0.time)
    then promote s f1
    else refresh s f1
