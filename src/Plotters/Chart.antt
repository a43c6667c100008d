-- ===== src/Plotters/Chart.antt =====
-- commands/chart_2d.rs: the options of `chart 2d` and how they change a chart.
use nu_jupyter_kernel.Prelude.{ℕ, List, [], ◌∷◌, ◌++◌, Option, none, some, Bool, false, not, ◌||◌}
use nu_jupyter_kernel.Prelude.Text.{Text}
use nu_jupyter_kernel.Plotters.{Color, Range, Series2d, Sides, Chart2d, default}

-- `side_shorthand` at `u32`; `none` is its `todo!` for no number.
unfoldable pub side_shorthand : List ℕ → Option Sides
side_shorthand [] = none
side_shorthand (a ∷ []) = some (record { top = a; right = a; bottom = a; left = a })
side_shorthand (a ∷ b ∷ []) = some (record { top = a; right = b; bottom = a; left = b })
side_shorthand (a ∷ b ∷ c ∷ []) = some (record { top = a; right = b; bottom = b; left = c })
side_shorthand (a ∷ b ∷ c ∷ d ∷ rest) = some (record { top = a; right = b; bottom = c; left = d })

module _ (F : Type 0) where
  pub record Chart2dOptions : Type 0 where
    pub width : Option ℕ
    pub height : Option ℕ
    pub background : Option (Color F)
    pub caption : Option Text
    pub margin : Option (List ℕ)
    pub label_area : Option (List ℕ)
    pub x_range : Option (Range F)
    pub y_range : Option (Range F)
    pub disable_mesh : Option Bool
    pub disable_x_mesh : Option Bool
    pub disable_y_mesh : Option Bool

-- `Chart2dOptions::default`
unfoldable pub no_options : {F : Type 0} → Chart2dOptions F
no_options = record {
  width = none;
  height = none;
  background = none;
  caption = none;
  margin = none;
  label_area = none;
  x_range = none;
  y_range = none;
  disable_mesh = none;
  disable_x_mesh = none;
  disable_y_mesh = none;
}

-- `unwrap_or` and `or`
abbrev pub unwrap_or : {A : Type 0} → Option A → A → A
unwrap_or none a = a
unwrap_or (some b) a = b

abbrev pub or : {A : Type 0} → Option A → Option A → Option A
or none b = b
or (some a) b = some a

-- `map(side_shorthand).transpose()?.unwrap_or(old)`, with the panic.
unfoldable pub sides_or : Option (List ℕ) → Sides → Option Sides
sides_or none old = some old
sides_or (some given) old = side_shorthand given

module _ {F : Type 0} where
  -- The chart with the options, once the sides are known.
  unfoldable pub merge :
      Chart2dOptions F → List (Series2d F) → Chart2d F → Sides → Sides → Chart2d F
  merge options input chart margin label_area = record {
    series = chart.series ++ input;
    width = unwrap_or options.width chart.width;
    height = unwrap_or options.height chart.height;
    background = or options.background chart.background;
    caption = or options.caption chart.caption;
    margin = margin;
    label_area = label_area;
    x_range = or options.x_range chart.x_range;
    y_range = or options.y_range chart.y_range;
    x_mesh = not (unwrap_or options.disable_mesh false || unwrap_or options.disable_x_mesh false);
    y_mesh = not (unwrap_or options.disable_mesh false || unwrap_or options.disable_y_mesh false);
  }

  run_on : List (Series2d F) → Chart2d F → Chart2dOptions F → Option (Chart2d F)
  unfolding merge sides_or
  run_on input chart options = elim (sides_or options.margin chart.margin) [
    | none ↦ none
    | some margin ↦ elim (sides_or options.label_area chart.label_area) [
      | none ↦ none
      | some label_area ↦ some (merge options input chart margin label_area)
    ]
  ]

  -- `Chart2d::run` on series that are already read; `none` is a panic.
  unfoldable pub run :
      List (Series2d F) → Option (Chart2d F) → Chart2dOptions F → Option (Chart2d F)
  unfolding run_on default
  run input extend options = run_on input (unwrap_or extend default) options
