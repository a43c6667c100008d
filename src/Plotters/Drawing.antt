-- ===== src/Plotters/Drawing.antt =====
-- commands/draw/mod.rs: what a chart draws, for the calls of the plotters crate.
pub mod Panics
pub mod Images
use nu_jupyter_kernel.Prelude.{
  ℕ, List, [], ◌∷◌, Option, none, some, Bool, true, false, if◌then◌else◌, map, ◌||◌,
}
use nu_jupyter_kernel.Prelude.Text.{Text}
use nu_jupyter_kernel.Prelude.Maybe.{◌>>=◌}
use nu_jupyter_kernel.Plotters.{
  Coord1d, int, float, Coord2d, Color, Range, Line2dSeries, Bar2dSeries, Series2d, line, bar, Sides,
  Chart2d,
}
use nu_jupyter_kernel.Plotters.Ranges.{Floats, as_float, add, sub, chart_range, x_range, y_range}

pub record ShapeStyle (F : Type 0) : Type 0 where
  pub color : Color F
  pub filled : Bool
  pub stroke_width : ℕ

-- A call of `draw_series`: a line through points, or rectangles by two corners.
pub data Figure (F : Type 0) : Type 0 where
  line_series : List (Coord1d F × Coord1d F) → ShapeStyle F → (point_size : ℕ) → Figure F
  rectangles : List ((Coord1d F × Coord1d F) × (Coord1d F × Coord1d F)) → ShapeStyle F → Figure F

-- What the chart builder is given, and the figures in the order of their calls.
pub record Drawing (F : Type 0) : Type 0 where
  pub fill : Option (Color F)
  pub margin : Sides
  pub label_area : Sides
  pub caption : Option Text
  pub x_range : Range F
  pub y_range : Range F
  pub x_mesh : Bool
  pub y_mesh : Bool
  pub figures : List (Figure F)

-- The numbers, with the division and the literal 0.8.
module _ (floats : Floats) (divide : floats.F → floats.F → floats.F) (eight_tenths : floats.F) where
  open floats use {F}

  -- `Div` of `Coord1d`
  unfoldable pub div : Coord1d F → Coord1d F → Coord1d F
  unfolding as_float
  div lhs rhs = float (divide (as_float floats lhs) (as_float floats rhs))

  unfoldable pub half_width : Coord1d F
  unfolding div
  half_width = div (float eight_tenths) (int 2)

  unfoldable pub rectangle : Coord2d F → (Coord1d F × Coord1d F) × (Coord1d F × Coord1d F)
  unfolding half_width add sub
  rectangle c = ((sub floats c.x half_width, c.y), (add floats c.x half_width, int 0))

  -- `draw_line` and `draw_vertical_bar`
  unfoldable pub figure : Series2d F → Figure F
  unfolding rectangle
  figure (line s) =
      line_series (map (λ (c : Coord2d F). (c.x, c.y)) s.series)
        (record { color = s.color; filled = s.filled; stroke_width = s.stroke_width }) s.point_size
  figure (bar s) =
      rectangles (map rectangle s.series)
        (record { color = s.color; filled = s.filled; stroke_width = s.stroke_width })

  is_bar : Series2d F → Bool
  is_bar (line s) = false
  is_bar (bar s) = true

  any_bar : List (Series2d F) → Bool
  unfolding is_bar
  any_bar [] = false
  any_bar (s ∷ series) = is_bar s || any_bar series

  discrete : Bool → Range F → Range F
  discrete false r = r
  discrete true r = record r { metadata = some true }

  drawing : Chart2d F → Range F → Range F → Drawing F
  unfolding any_bar discrete figure
  drawing chart x_range y_range = record {
    fill = chart.background;
    margin = chart.margin;
    label_area = chart.label_area;
    caption = chart.caption;
    x_range = discrete (any_bar chart.series) x_range;
    y_range = y_range;
    x_mesh = chart.x_mesh;
    y_mesh = chart.y_mesh;
    figures = map figure chart.series;
  }

  -- `todo!` for no series, and the two ranges.
  unless_empty : List (Series2d F) → Option (Unit {0})
  unless_empty [] = none
  unless_empty (s ∷ series) = some tt

  -- `draw`, where the calls of the plotters crate succeed; `none` is a panic.
  unfoldable pub draw : Chart2d F → Option (Drawing F)
  unfolding unless_empty drawing
  draw chart = unless_empty chart.series >>= λ u.
      chart_range floats chart.x_range (x_range floats) chart.series >>= λ x.
      chart_range floats chart.y_range (y_range floats) chart.series >>= λ y.
      some (drawing chart x y)
