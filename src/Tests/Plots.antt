-- ===== src/Tests/Plots.antt =====
-- Charts over small numbers in place of `f64`.
use nu_jupyter_kernel.Prelude.{
  ℕ, ◌+◌, ◌-◌, ◌≡◌, refl, ◌↔◌, [], ◌∷◌, none, some, true, false, ltb, arith, All, ◌≢◌, inl, inr,
  Option-cases,
}
use nu_jupyter_kernel.Plotters.{Series2d, Chart2d, int, float, line, bar, default}
use nu_jupyter_kernel.Plotters.Chart.{side_shorthand}
use nu_jupyter_kernel.Plotters.Shorthand.{css, IsCss, side_shorthand-css_iff}
use nu_jupyter_kernel.Plotters.Ranges.{Floats, points}
use nu_jupyter_kernel.Plotters.Bounds.{Ordered}
use nu_jupyter_kernel.Plotters.Drawing.{Drawing}
use nu_jupyter_kernel.Plotters.Drawing.Panics.{draw_chart, Inside, draw-none_iff, draw-Inside}

side_shorthand-css_iff_example :
    (side_shorthand (5 ∷ 10 ∷ 15 ∷ []) ≡ css (5 ∷ 10 ∷ 15 ∷ [])) ↔ IsCss (5 ∷ 10 ∷ 15 ∷ [])
side_shorthand-css_iff_example = side_shorthand-css_iff (5 ∷ 10 ∷ 15 ∷ [])

-- Halves as the unit: an `i64` counts twice.
abbrev pub halves : Floats
halves = record { F = ℕ; of_int = λ n. n + n; add = ◌+◌; sub = ◌-◌; half = 1; less = ltb }

halves-Ordered : Ordered halves
halves-Ordered = record {
  irrefl = λ a. ground arith;
  asym = λ a b h. ground arith;
  le_trans = λ a b c h k. ground arith;
}

abbrev pub bars : Series2d ℕ
bars = bar (record {
  series = record { x = int 1; y = int 3 } ∷ record { x = int 2; y = float 5 } ∷ [];
  color = record { r = 0; g = 0; b = 255; a = 2 };
  filled = true;
  stroke_width = 1;
})

abbrev empty_line : Series2d ℕ
empty_line = line (record {
  series = [];
  color = record { r = 0; g = 0; b = 255; a = 2 };
  filled = true;
  stroke_width = 1;
  point_size = 0;
})

abbrev without_mesh : Chart2d ℕ
without_mesh = record (default {F = ℕ}) { x_mesh = false }

abbrev chart : Chart2d ℕ
chart = record (default {F = ℕ}) { series = bars ∷ empty_line ∷ [] }

has_points : points halves bars ≢ []
unfolding points
has_points e = cc

abbrev drawn : (d : Drawing ℕ) × (draw_chart halves ◌-◌ 2 chart ≡ some d)
drawn = elim (Option-cases (draw_chart halves ◌-◌ 2 chart)) [
  | inl e ↦ absurd (has_points ((draw-none_iff halves ◌-◌ 2 chart).0 e).0)
  | inr h ↦ h
]

no_ranges : ((default {F = ℕ}).x_range ≡ none) × ((default {F = ℕ}).y_range ≡ none)
unfolding default
no_ranges = (refl, refl)

draw-Inside_example :
    All
      (λ s. All (Inside halves ◌-◌ 2 halves-Ordered drawn.0 s) (points halves s))
      (bars ∷ empty_line ∷ [])
draw-Inside_example =
    draw-Inside halves ◌-◌ 2 halves-Ordered chart drawn.0 no_ranges.0 no_ranges.1 drawn.1
