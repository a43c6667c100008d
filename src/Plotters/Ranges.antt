-- ===== src/Plotters/Ranges.antt =====
-- value/coords/coord_1d.rs, value/series_2d.rs, value/chart_2d.rs: the range of a series and of a
-- chart on one axis. A number F is a valid `f64`: `Coord1d::from_float` refuses the others.
pub mod KeyPoints
pub mod FromValue
use nu_jupyter_kernel.Prelude.{
  ℕ, ◌+◌, ◌-◌, ◌%◌, ◌^◌, List, [], ◌∷◌, Option, none, some, Bool, if◌then◌else◌,
}
use nu_jupyter_kernel.Plotters.{Coord1d, int, float, Coord2d, Range, Series2d, line, bar}

-- The arithmetic of `f64`; `of_int` is `as f64` of the `i64` with these bits.
pub record Floats : Type 1 where
  pub F : Type 0
  pub of_int : ℕ → F
  pub add : F → F → F
  pub sub : F → F → F
  pub half : F
  pub less : F → F → Bool

abbrev i64_mod : ℕ
i64_mod = 2 ^ 64

module _ (floats : Floats) where
  open floats use {F, of_int, less, half}

  abbrev pub Coord : Type 0
  Coord = Coord1d F

  unfoldable pub as_float : Coord → F
  as_float (int n) = of_int n
  as_float (float f) = f

  -- `<` of `Coord1d`, by its `Ord`.
  unfoldable pub lt : Coord → Coord → Bool
  unfolding as_float
  lt a b = less (as_float a) (as_float b)

  -- `Add` and `Sub`; the bits of an `i64` wrap.
  unfoldable pub add : Coord → Coord → Coord
  add (int a) (int b) = int ((a + b) % i64_mod)
  add (int a) (float b) = float (floats.add (of_int a) b)
  add (float a) (int b) = float (floats.add a (of_int b))
  add (float a) (float b) = float (floats.add a b)

  unfoldable pub sub : Coord → Coord → Coord
  sub (int a) (int b) = int ((a + (i64_mod - b)) % i64_mod)
  sub (int a) (float b) = float (floats.sub (of_int a) b)
  sub (float a) (int b) = float (floats.sub a (of_int b))
  sub (float a) (float b) = float (floats.sub a b)

  -- `cmp::min` and `cmp::max`
  unfoldable pub min : Coord → Coord → Coord
  min a b = if lt b a then b else a

  unfoldable pub max : Coord → Coord → Coord
  max a b = if lt b a then a else b

  -- The loops of `Series2d::range` and of `Chart2d::x_range`, over pairs of a lower and an upper
  -- coordinate.
  unfoldable pub widen : List (Coord × Coord) → Coord × Coord → Coord × Coord
  widen [] bounds = bounds
  widen ((lower, upper) ∷ rest) (low, high) =
      widen rest (if lt lower low then lower else low, if lt high upper then upper else high)

  unfoldable pub map_pairs : {A : Type 0} → (A → Coord × Coord) → List A → List (Coord × Coord)
  map_pairs f [] = []
  map_pairs f (a ∷ rest) = f a ∷ map_pairs f rest

  abbrev pub range_of : Coord × Coord → Range F
  range_of (low, high) = record { min = low; max = high; metadata = none }

  -- `Series2d::range`
  unfoldable pub range :
      (Coord2d F → Coord) → (Coord → Coord × Coord) → List (Coord2d F) → Option (Range F)
  unfolding widen map_pairs
  range axis map [] = none
  range axis map (first ∷ rest) =
      some
        (range_of (widen (map_pairs (λ c. map (axis c)) (first ∷ rest)) (axis first, axis first)))

  -- What a coordinate spans: a bar has a width of one and starts at zero.
  unfoldable pub x_span : Series2d F → Coord → Coord × Coord
  unfolding add sub
  x_span (line s) c = (c, c)
  x_span (bar s) c = (sub c (float half), add c (float half))

  unfoldable pub y_span : Series2d F → Coord → Coord × Coord
  unfolding min max
  y_span (line s) c = (c, c)
  y_span (bar s) c = (min (int 0) c, max (int 0) c)

  unfoldable pub points : Series2d F → List (Coord2d F)
  points (line s) = s.series
  points (bar s) = s.series

  -- `Series2d::x_range` and `Series2d::y_range`
  unfoldable pub x_range : Series2d F → Option (Range F)
  unfolding range x_span points
  x_range s = range (λ c. c.x) (x_span s) (points s)

  unfoldable pub y_range : Series2d F → Option (Range F)
  unfolding range y_span points
  y_range s = range (λ c. c.y) (y_span s) (points s)

  unfoldable pub add_range : Option (Range F) → List (Coord × Coord) → List (Coord × Coord)
  add_range none others = others
  add_range (some r) others = (r.min, r.max) ∷ others

  -- `iter().filter_map(..)`
  unfoldable pub ranges : (Series2d F → Option (Range F)) → List (Series2d F) → List (Coord × Coord)
  unfolding add_range
  ranges range [] = []
  ranges range (s ∷ rest) = add_range (range s) (ranges range rest)

  -- From the range of the first series on.
  unfoldable pub widen_range : Option (Range F) → List (Coord × Coord) → Option (Range F)
  unfolding widen
  widen_range none all = none
  widen_range (some r) all = some (range_of (widen all (r.min, r.max)))

  -- The macro `xy_range` of value/chart_2d.rs, with the chart's own range and that of a series.
  unfoldable pub chart_range :
      Option (Range F) → (Series2d F → Option (Range F)) → List (Series2d F) → Option (Range F)
  unfolding ranges widen_range
  chart_range (some r) range series = some r
  chart_range none range [] = none
  chart_range none range (first ∷ rest) = widen_range (range first) (ranges range (first ∷ rest))
