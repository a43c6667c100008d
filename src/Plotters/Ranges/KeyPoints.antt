-- ===== src/Plotters/Ranges/KeyPoints.antt =====
-- value/coords/range.rs, value/coords/coord_1d.rs: the key points of an axis and whole coordinates.
pub mod Whole
use nu_jupyter_kernel.Prelude.{
  ℕ, zero, suc, ◌+◌, ◌-◌, ◌%◌, ◌^◌, List, [], ◌∷◌, Option, none, some, Bool, true, false, map,
  if◌then◌else◌,
}
use nu_jupyter_kernel.Prelude.Maybe.{◌>>=◌}
use nu_jupyter_kernel.Plotters.{Coord1d, int, float, Range}

-- `f64`, its conversion to `i64` as the 64 bits, and the key points that the plotters crate chooses
-- for a hint, on an axis of integers and on one of numbers.
pub record Axes : Type 1 where
  pub F : Type 0
  pub floor : F → F
  pub ceil : F → F
  pub round : F → F
  pub to_i64 : F → ℕ
  pub of_i64 : ℕ → F
  -- `is_finite`
  pub is_finite : F → Bool
  pub Hint : Type 0
  pub int_key_points : ℕ → ℕ → Hint → List ℕ
  pub float_key_points : F → F → Hint → List F

abbrev pub i64_mod : ℕ
i64_mod = 2 ^ 64

-- The place of an `i64` in the order of the integers.
abbrev pub place : ℕ → ℕ
place bits = (bits + 2 ^ 63) % i64_mod

-- `lower..=upper` over `i64`, in order.
count_up : ℕ → ℕ → List ℕ
count_up bits zero = []
count_up bits (suc n) = bits ∷ count_up ((bits + 1) % i64_mod) n

unfoldable pub inclusive : ℕ → ℕ → List ℕ
unfolding count_up
inclusive lower upper = count_up lower (place upper + 1 - place lower)

module _ (axes : Axes) where
  open axes use {F, Hint}

  unfoldable pub floor : Coord1d F → ℕ
  floor (int n) = n
  floor (float f) = axes.to_i64 (axes.floor f)

  unfoldable pub round : Coord1d F → ℕ
  round (int n) = n
  round (float f) = axes.to_i64 (axes.round f)

  unfoldable pub ceil : Coord1d F → ℕ
  ceil (int n) = n
  ceil (float f) = axes.to_i64 (axes.ceil f)

  as_float : Coord1d F → F
  as_float (int n) = axes.of_i64 n
  as_float (float f) = f

  -- `Coord1d::from_float(float).unwrap()` of each; `none` is a panic.
  from_floats : List F → Option (List (Coord1d F))
  from_floats [] = some []
  from_floats (f ∷ fs) =
      let rest = from_floats fs in
      if axes.is_finite f then (rest >>= λ cs. some (float f ∷ cs)) else none

  -- The axis of integers runs from the lower coordinate rounded down to the upper one rounded up.
  by_kinds : Coord1d F → Coord1d F → Hint → Option (List (Coord1d F))
  unfolding floor ceil as_float from_floats
  by_kinds (int a) (int b) hint =
      some (map int (axes.int_key_points (floor (int a)) (ceil (int b)) hint))
  by_kinds (int a) (float g) hint = from_floats (axes.float_key_points (as_float (int a)) g hint)
  by_kinds (float f) (int b) hint = from_floats (axes.float_key_points f (as_float (int b)) hint)
  by_kinds (float f) (float g) hint = from_floats (axes.float_key_points f g hint)

  with_metadata : Option Bool → Coord1d F → Coord1d F → Hint → Option (List (Coord1d F))
  unfolding inclusive floor ceil by_kinds
  with_metadata (some true) min max hint = some (map int (inclusive (ceil min) (floor max)))
  with_metadata (some false) min max hint = by_kinds min max hint
  with_metadata none min max hint = by_kinds min max hint

  -- `Range::key_points`
  unfoldable pub key_points : Range F → Hint → Option (List (Coord1d F))
  unfolding with_metadata
  key_points r hint = with_metadata r.metadata r.min r.max hint
