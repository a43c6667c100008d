-- ===== src/Plotters/Series.antt =====
-- commands/series and value/coords: the points of a series from a value, and the commands that make a
-- series. The numbers F are the valid `f64`.
pub mod Points
use nu_jupyter_kernel.Prelude.{
  ℕ, ◌+◌, ◌%◌, ◌^◌, List, [], ◌∷◌, Option, none, some, Bool, true, false, if◌then◌else◌,
}
use nu_jupyter_kernel.Prelude.Flow
use nu_jupyter_kernel.Prelude.Flow.{Flow}
use nu_jupyter_kernel.Nu.{Result, ok, err}
use nu_jupyter_kernel.Plotters.{
  Coord1d, int, float, Coord2d, Color, Line2dSeries, Bar2dSeries, Series2d,
}
use nu_jupyter_kernel.Plotters.Chart.{unwrap_or}

pub data Coord1dFromFloatError : Type 0 where
  nan infinity : Coord1dFromFloatError

-- The values and errors of `nu_protocol`, and `f64`. The readers of pairs and of records with x and y
-- are the library's, over a reader of the parts.
pub record Values : Type 1 where
  pub Value : Type 0
  pub ShellError : Type 0
  pub F64 : Type 0
  pub F : Type 0
  -- `is_finite`, with the valid number
  pub finite : F64 → Option F
  pub is_nan : F64 → Bool
  -- `Value::Int` and `Value::Float`
  pub int_of : Value → Option ℕ
  pub float_of : Value → Option F64
  pub into_list : Value → Result ShellError (List Value)
  pub pair :
      (Value → Result ShellError (Coord1d F)) → Value → Result ShellError (Coord1d F × Coord1d F)
  pub x_y :
      (Value → Result ShellError (Coord1d F)) → Value → Result ShellError (Coord1d F × Coord1d F)
  pub pipeline_empty : Value → ShellError
  pub cant_convert : Value → ShellError
  pub invalid_number : Coord1dFromFloatError → ShellError
  pub invalid_coordinate : ShellError → ShellError → ShellError
  -- `BLUE` of the plotters crate
  pub blue : Color F

module _ (values : Values) where
  open values use {Value, ShellError, F64, F}

  -- `Coord1d::from_float`
  from_valid : F64 → Option F → Result Coord1dFromFloatError (Coord1d F)
  from_valid f (some x) = ok (float x)
  from_valid f none =
      if values.is_nan f then err Coord1dFromFloatError.nan else err Coord1dFromFloatError.infinity

  unfoldable pub from_float : F64 → Result Coord1dFromFloatError (Coord1d F)
  unfolding from_valid
  from_float f = from_valid f (values.finite f)

  map_err : Result Coord1dFromFloatError (Coord1d F) → Result ShellError (Coord1d F)
  map_err (ok c) = ok c
  map_err (err e) = err (values.invalid_number e)

  -- `Coord1d::from_value`
  from_kinds : Value → Option ℕ → Option F64 → Result ShellError (Coord1d F)
  unfolding from_float map_err
  from_kinds v (some n) f = ok (int n)
  from_kinds v none (some f) = map_err (from_float f)
  from_kinds v none none = err (values.cant_convert v)

  unfoldable pub coord_1d : Value → Result ShellError (Coord1d F)
  unfolding from_kinds
  coord_1d v = from_kinds v (values.int_of v) (values.float_of v)

  unfoldable pub tuple : Value → Result ShellError (Coord1d F × Coord1d F)
  unfolding coord_1d
  tuple v = values.pair coord_1d v

  -- `Coord2d::from_value`
  tuple_or_record :
      Result ShellError (Coord1d F × Coord1d F)
      → Result ShellError (Coord1d F × Coord1d F)
      → Result ShellError (Coord2d F)
  tuple_or_record (ok (x, y)) r = ok (record { x = x; y = y })
  tuple_or_record (err e) (ok (x, y)) = ok (record { x = x; y = y })
  tuple_or_record (err e) (err f) = err (values.invalid_coordinate e f)

  unfoldable pub coord_2d : Value → Result ShellError (Coord2d F)
  unfolding tuple coord_1d tuple_or_record
  coord_2d v = tuple_or_record (tuple v) (values.x_y coord_1d v)

  -- The bodies of the three loops.
  at_index : ℕ → Result ShellError (Coord1d F) → Result ShellError (Coord2d F)
  at_index i (ok y) = ok (record { x = int (i % 2 ^ 64); y = y })
  at_index i (err e) = err e

  unfoldable pub number_at : ℕ → Value → Result ShellError (Coord2d F)
  unfolding at_index coord_1d
  number_at i v = at_index i (coord_1d v)

  of_tuple : Result ShellError (Coord1d F × Coord1d F) → Result ShellError (Coord2d F)
  of_tuple (ok (x, y)) = ok (record { x = x; y = y })
  of_tuple (err e) = err e

  unfoldable pub tuple_at : ℕ → Value → Result ShellError (Coord2d F)
  unfolding of_tuple tuple
  tuple_at i v = of_tuple (tuple v)

  unfoldable pub coord_at : ℕ → Value → Result ShellError (Coord2d F)
  unfolding coord_2d
  coord_at i v = coord_2d v

  -- A loop that pushes what its body gives, and returns at its first error.
  push_to :
      Result ShellError (Coord2d F)
      → Flow ShellError (List (Coord2d F))
      → Flow ShellError (List (Coord2d F))
  push_to (err e) rest = Flow.err e
  push_to (ok p) (Flow.ok series) = Flow.ok (p ∷ series)
  push_to (ok p) (Flow.err e) = Flow.err e
  push_to (ok p) Flow.panics = Flow.panics

  unfoldable pub each :
      (ℕ → Value → Result ShellError (Coord2d F))
      → ℕ
      → List Value
      → Flow ShellError (List (Coord2d F))
  unfolding push_to
  each body i [] = Flow.ok []
  each body i (v ∷ input) = push_to (body i v) (each body (i + 1) input)

  -- The `match` on how the first value reads.
  unfoldable pub by_first :
      {A B C : Type 0}
      → Result ShellError A
      → Result ShellError B
      → Result ShellError C
      → List Value
      → Flow ShellError (List (Coord2d F))
  unfolding each number_at tuple_at coord_at
  by_first (ok a) tuple coord input = each number_at 0 input
  by_first (err e) (ok b) coord input = each tuple_at 0 input
  by_first (err e) (err f) (ok c) input = each coord_at 0 input
  by_first (err e) (err f) (err g) input = Flow.panics

  unfoldable pub of_list : Value → List Value → Flow ShellError (List (Coord2d F))
  unfolding by_first coord_1d tuple coord_2d
  of_list v [] = Flow.err (values.pipeline_empty v)
  of_list v (first ∷ rest) = by_first (coord_1d first) (tuple first) (coord_2d first) (first ∷ rest)

  of_input : Value → Result ShellError (List Value) → Flow ShellError (List (Coord2d F))
  unfolding of_list
  of_input v (err e) = Flow.err e
  of_input v (ok input) = of_list v input

  unfoldable pub series_from_value : Value → Flow ShellError (List (Coord2d F))
  unfolding of_input
  series_from_value v = of_input v (values.into_list v)

  make :
      (List (Coord2d F) → Series2d F)
      → Flow ShellError (List (Coord2d F))
      → Flow ShellError (Series2d F)
  make f (Flow.ok series) = Flow.ok (f series)
  make f (Flow.err e) = Flow.err e
  make f Flow.panics = Flow.panics

  -- `LineSeries::run`
  unfoldable pub run_line :
      Value
      → (color : Option (Color F)) (filled : Option Bool) (stroke_width : Option ℕ)
        (point_size : Option ℕ)
      → Flow ShellError (Series2d F)
  unfolding make series_from_value
  run_line input color filled stroke_width point_size =
      make
        (λ series. Series2d.line (record {
          series = series;
          color = unwrap_or color values.blue;
          filled = unwrap_or filled false;
          stroke_width = unwrap_or stroke_width 1;
          point_size = unwrap_or point_size 0;
        }))
        (series_from_value input)

  -- `BarSeries::run`
  unfoldable pub run_bar :
      Value
      → (color : Option (Color F)) (filled : Option Bool) (stroke_width : Option ℕ)
      → Flow ShellError (Series2d F)
  unfolding make series_from_value
  run_bar input color filled stroke_width =
      make
        (λ series. Series2d.bar (record {
          series = series;
          color = unwrap_or color values.blue;
          filled = unwrap_or filled true;
          stroke_width = unwrap_or stroke_width 1;
        }))
        (series_from_value input)
