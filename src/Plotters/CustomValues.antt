-- ===== src/Plotters/CustomValues.antt =====
-- value/series_2d.rs, value/chart_2d.rs: series and charts as custom values of Nushell, and the plain
-- value that a series stands for.
pub mod Kept
use nu_jupyter_kernel.Prelude.{ℕ, List, [], ◌∷◌, Bool}
use nu_jupyter_kernel.Prelude.Text.{Text, lit}
use nu_jupyter_kernel.Nu.{Result, ok, err}
use nu_jupyter_kernel.Plotters.{
  Coord1d, Coord2d, Color, Line2dSeries, Bar2dSeries, Series2d, line, bar, Chart2d,
}

-- The custom values of the plugin, and the others by their type.
pub data Custom (F : Type 0) : Type 0 where
  series : Series2d F → Custom F
  chart : Chart2d F → Custom F
  other : (type : Text) → Custom F

-- The values of Nushell that occur here; an `i64` is its 64 bits.
mutual
  pub data Value (F : Type 0) : Type 0 where
    int : ℕ → Value F
    float : F → Value F
    bool : Bool → Value F
    list_value : Values F → Value F
    record_value : Fields F → Value F
    string : Text → Value F
    custom : Custom F → Value F

  pub data Values (F : Type 0) : Type 0 where
    nil : Values F
    cons : Value F → Values F → Values F

  pub data Fields (F : Type 0) : Type 0 where
    end : Fields F
    field : Text → Value F → Fields F → Fields F

-- The errors of `from_value`.
pub data FromError : Type 0 where
  no_custom_value : FromError
  cant_convert : (to_type from_type : Text) → FromError

abbrev pub series_type : Text
series_type = lit "plotters::series-2d"

abbrev pub chart_type : Text
chart_type = lit "plotters::chart-2d"

module _ {F : Type 0} where
  -- `type_name`
  unfoldable pub type_name : Custom F → Text
  type_name (series s) = series_type
  type_name (chart c) = chart_type
  type_name (other type) = type

  into_custom_value : Value F → Result FromError (Custom F)
  into_custom_value (custom c) = ok c
  into_custom_value v = err no_custom_value

  as_series : Result FromError (Custom F) → Result FromError (Series2d F)
  unfolding type_name
  as_series (ok (series s)) = ok s
  as_series (ok c) = err (cant_convert series_type (type_name c))
  as_series (err e) = err e

  -- `Series2d::from_value`
  unfoldable pub series_of_value : Value F → Result FromError (Series2d F)
  unfolding as_series into_custom_value
  series_of_value v = as_series (into_custom_value v)

  as_chart : Result FromError (Custom F) → Result FromError (Chart2d F)
  unfolding type_name
  as_chart (ok (chart c)) = ok c
  as_chart (ok c) = err (cant_convert chart_type (type_name c))
  as_chart (err e) = err e

  -- `Chart2d::from_value`
  unfoldable pub chart_of_value : Value F → Result FromError (Chart2d F)
  unfolding as_chart into_custom_value
  chart_of_value v = as_chart (into_custom_value v)

  -- `Coord1d::into_value`, and the derived ones: a record of the fields in their order.
  unfoldable pub coord_1d_value : Coord1d F → Value F
  coord_1d_value (Coord1d.int n) = int n
  coord_1d_value (Coord1d.float f) = float f

  unfoldable pub coord_2d_value : Coord2d F → Value F
  unfolding coord_1d_value
  coord_2d_value c =
      record_value (field (lit "x") (coord_1d_value c.x) (field (lit "y") (coord_1d_value c.y) end))

  unfoldable pub coords_value : List (Coord2d F) → Values F
  unfolding coord_2d_value
  coords_value [] = nil
  coords_value (c ∷ cs) = cons (coord_2d_value c) (coords_value cs)

  unfoldable pub color_value : Color F → Value F
  color_value c = record_value (
      field (lit "r") (int c.r)
        (field (lit "g") (int c.g) (field (lit "b") (int c.b) (field (lit "a") (float c.a) end))))

  unfoldable pub line_fields : Line2dSeries F → Fields F
  unfolding coords_value color_value
  line_fields s = field (lit "series") (list_value (coords_value s.series)) (
      field (lit "color") (color_value s.color) (
        field (lit "filled") (bool s.filled) (
          field (lit "stroke_width") (int s.stroke_width)
            (field (lit "point_size") (int s.point_size) end))))

  unfoldable pub bar_fields : Bar2dSeries F → Fields F
  unfolding coords_value color_value
  bar_fields s = field (lit "series") (list_value (coords_value s.series)) (
      field (lit "color") (color_value s.color) (
        field (lit "filled") (bool s.filled) (field (lit "stroke_width") (int s.stroke_width) end)))

  -- `Series2d::into_base_value`
  unfoldable pub into_base_value : Series2d F → Value F
  unfolding line_fields bar_fields
  into_base_value (line s) = record_value (field (lit "kind") (string (lit "line")) (line_fields s))
  into_base_value (bar s) = record_value (field (lit "kind") (string (lit "bar")) (bar_fields s))
