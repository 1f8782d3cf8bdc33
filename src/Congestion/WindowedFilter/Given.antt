-- ===== src/Congestion/WindowedFilter/Given.antt =====
-- internal/congestion/windowed_filter.go: the estimates are samples that were given.
use gt_bbr.Prelude.{
  ℕ, ◌+◌, ◌-◌, ◌/◌, ◌^◌, ◌≤◌, ◌<◌, ◌≡◌, refl, ◌∙◌, ◌⊎◌, inl, inr, Bool, ◌&&◌, ◌||◌, List, [], ◌∷◌,
  arith, ltb, ◌==◌, Bool-cases,
}
use gt_bbr.Congestion.WindowedFilter.{
  Sample, WindowedFilter, max_filter, new_windowed_filter, get_best, reset, improve, promote,
  refresh, update,
}
use gt_bbr.Congestion.WindowedFilter.Window.{IsOrdered, update_max}

-- Every estimate is one of some samples.
abbrev pub AllFrom : (Sample → Type 0) → WindowedFilter → Type 0
AllFrom P f = P f.estimate0 × P f.estimate1 × P f.estimate2

module _ (P : Sample → Type 0) (c : ℕ → ℕ → Bool) (s : Sample) (given : P s) where
  improve-AllFrom : (f : WindowedFilter) → AllFrom P f → AllFrom P (improve c s f)
  unfolding improve
  improve-AllFrom f (x, y, z) = elim (Bool-cases (c s.sample f.estimate1.sample)) [
    | inl e ↦ rw e (x, given, given)
    | inr e ↦ elim (Bool-cases (c s.sample f.estimate2.sample)) [
      | inl e' ↦ rw (e, e') (x, y, given)
      | inr e' ↦ rw (e, e') (x, y, z)
    ]
  ]

  promote-AllFrom : (f : WindowedFilter) → AllFrom P f → AllFrom P (promote s f)
  unfolding promote
  promote-AllFrom f (x, y, z) =
      elim (Bool-cases (ltb f.window_length (s.time - f.estimate1.time))) [
        | inl e ↦ rw e (z, given, given)
        | inr e ↦ rw e (y, z, given)
      ]

  refresh-AllFrom : (f : WindowedFilter) → AllFrom P f → AllFrom P (refresh s f)
  unfolding refresh
  refresh-AllFrom f (x, y, z) =
      elim (Bool-cases (
        f.estimate1.sample == f.estimate0.sample
        && ltb (f.window_length / 2 ^ 2) (s.time - f.estimate1.time))) [
          | inl e ↦ rw e (x, given, given)
          | inr e ↦
              elim (Bool-cases (
                f.estimate2.sample == f.estimate1.sample
                && ltb (f.window_length / 2 ^ 1) (s.time - f.estimate2.time))) [
                  | inl e' ↦ rw (e, e') (x, y, given)
                  | inr e' ↦ rw (e, e') (x, y, z)
                ]
        ]

  update-AllFrom :
      (f : WindowedFilter) → (0 < f.estimate0.time → AllFrom P f) → AllFrom P (update c s f)
  unfolding update
  update-AllFrom f a =
      elim (Bool-cases (
        f.estimate0.time == 0
        || c s.sample f.estimate0.sample
        || ltb f.window_length (s.time - f.estimate2.time))) [
          | inl e ↦ rw e (unfold reset in (given, given, given))
          | inr e ↦
              let f1 = improve c s f in
              let i = improve-AllFrom f (a (ground arith)) in
              elim (Bool-cases (ltb f1.window_length (s.time - f1.estimate0.time))) [
                | inl e' ↦ rw (e, e') (promote-AllFrom f1 i)
                | inr e' ↦ rw (e, e') (refresh-AllFrom f1 i)
              ]
        ]

-- A filter that was given samples, the last first.
unfoldable pub filter_of : ℕ → List Sample → WindowedFilter
filter_of window_length [] = new_windowed_filter window_length
filter_of window_length (s ∷ older) = update max_filter s (filter_of window_length older)

-- Time does not run backwards.
abbrev pub IsLatestFirst : ℕ → List Sample → Type 0
IsLatestFirst now [] = Unit {0}
IsLatestFirst now (s ∷ older) = (s.time ≤ now) × IsLatestFirst s.time older

abbrev pub Given : List Sample → Sample → Type 0
Given [] x = ⊥
Given (s ∷ older) x = (x ≡ s) ⊎ Given older x

filter_of-IsOrdered :
    (w now : ℕ) (samples : List Sample)
    → IsLatestFirst now samples
    → IsOrdered (filter_of w samples) × ((filter_of w samples).estimate2.time ≤ now)
unfolding filter_of new_windowed_filter
filter_of-IsOrdered w now [] h = ((omega arith, omega arith, omega arith, omega arith), omega arith)
filter_of-IsOrdered w now (s ∷ older) h =
    let (o, le) = filter_of-IsOrdered w s.time older h.1 in
    let (o', le', best, recent) = update_max s (filter_of w older) o le in (o', omega arith)

filter_of-Given :
    (w : ℕ) (s : Sample) (older : List Sample)
    → AllFrom (Given (s ∷ older)) (filter_of w (s ∷ older))
unfolding filter_of new_windowed_filter
filter_of-Given w s [] =
    update-AllFrom (Given (s ∷ [])) max_filter s (inl refl) (new_windowed_filter w)
      (λ pos. absurd (omega arith))
filter_of-Given w s (s' ∷ older) =
    update-AllFrom (Given (s ∷ s' ∷ older)) max_filter s (inl refl) (filter_of w (s' ∷ older))
      (λ pos. let (a, b, c) = filter_of-Given w s' older in (inr a, inr b, inr c))

update_window_length :
    (c : ℕ → ℕ → Bool) (s : Sample) (f : WindowedFilter)
    → (update c s f).window_length ≡ f.window_length
unfolding update reset improve promote refresh
update_window_length c s f = ground arith

filter_of-window_length : (w : ℕ) (samples : List Sample) → (filter_of w samples).window_length ≡ w
unfolding filter_of new_windowed_filter
filter_of-window_length w [] = refl
filter_of-window_length w (s ∷ older) =
    update_window_length max_filter s (filter_of w older) ∙ filter_of-window_length w older

-- After a filter for the maximum was given samples whose times do not run backwards, the last of them
-- `s`: `GetBest` is at least `s`; and it is a sample that was given, not longer before `s` than the
-- window.
pub get_best_lem :
    (w : ℕ) (s : Sample) (older : List Sample)
    → IsLatestFirst s.time older
    → let f = filter_of w (s ∷ older) in
      (s.sample ≤ get_best f)
      × ((x : Sample) × Given (s ∷ older) x × (get_best f ≡ x.sample) × (s.time ≤ x.time + w))
unfolding get_best filter_of
get_best_lem w s older h =
    let f = filter_of w (s ∷ older) in
    let (o, le) = filter_of-IsOrdered w s.time older h in
    let (o', le', best, recent) = update_max s (filter_of w older) o le in
    let same = filter_of-window_length w (s ∷ older) in
    (best, (f.estimate0, (filter_of-Given w s older).0, refl, omega arith))
