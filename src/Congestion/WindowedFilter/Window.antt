-- ===== src/Congestion/WindowedFilter/Window.antt =====
-- internal/congestion/windowed_filter.go: what a filter for the maximum estimates.
use gt_bbr.Prelude.{◌+◌, ◌-◌, ◌≤◌, ◌<◌, inl, inr, ◌||◌, arith, ltb, ◌==◌, Bool-cases}
use gt_bbr.Congestion.WindowedFilter.{
  Sample, WindowedFilter, max_filter, reset, improve, promote, refresh, update,
}

-- The estimates are in order, the better the older.
abbrev pub IsOrdered : WindowedFilter → Type 0
IsOrdered f =
    (f.estimate1.sample ≤ f.estimate0.sample)
    × (f.estimate2.sample ≤ f.estimate1.sample)
    × (f.estimate0.time ≤ f.estimate1.time)
    × (f.estimate1.time ≤ f.estimate2.time)

-- What holds after the sample `s` was given.
abbrev pub Estimates : Sample → WindowedFilter → Type 0
Estimates s f =
    IsOrdered f
    × (f.estimate2.time ≤ s.time)
    × (s.sample ≤ f.estimate0.sample)
    × (s.time ≤ f.estimate0.time + f.window_length)

-- What holds once a sample that is not the best was compared with the other estimates.
abbrev Improved : Sample → WindowedFilter → Type 0
Improved s f =
    IsOrdered f
    × (f.estimate2.time ≤ s.time)
    × (s.sample ≤ f.estimate2.sample)
    × (s.time ≤ f.estimate2.time + f.window_length)

improve-Improved :
    (s : Sample) (f : WindowedFilter)
    → IsOrdered f
    → f.estimate2.time ≤ s.time
    → s.sample < f.estimate0.sample
    → s.time ≤ f.estimate2.time + f.window_length
    → Improved s (improve max_filter s f)
unfolding improve
improve-Improved s f o le less recent = ground arith

promote-Estimates : (s : Sample) (f : WindowedFilter) → Improved s f → Estimates s (promote s f)
unfolding promote
promote-Estimates s f h = ground arith

refresh-Estimates :
    (s : Sample) (f : WindowedFilter)
    → Improved s f
    → s.time ≤ f.estimate0.time + f.window_length
    → Estimates s (refresh s f)
unfolding refresh
refresh-Estimates s f h recent = ground arith

-- On estimates of which the older are the better, and for a sample
-- that is not older than them: `Update` with `MaxFilter` leaves the older estimates the better ones, none newer than
-- the sample; the best estimate is at least the sample, and not older than the window.
pub update_max :
    (s : Sample) (f : WindowedFilter)
    → IsOrdered f
    → f.estimate2.time ≤ s.time
    → Estimates s (update max_filter s f)
unfolding update
update_max s f o le =
    elim (Bool-cases (
      f.estimate0.time == 0
      || max_filter s.sample f.estimate0.sample
      || ltb f.window_length (s.time - f.estimate2.time))) [
        | inl e ↦ rw e (unfold reset in ground arith)
        | inr e ↦
            let i = improve-Improved s f o le (ground arith) (ground arith) in
            let f1 = improve max_filter s f in
            elim (Bool-cases (ltb f1.window_length (s.time - f1.estimate0.time))) [
              | inl e' ↦ rw (e, e') (promote-Estimates s f1 i)
              | inr e' ↦ rw (e, e') (refresh-Estimates s f1 i (ground arith))
            ]
      ]
