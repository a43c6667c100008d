-- ===== src/Tests/Ranges.antt =====
-- Ranges over small numbers in place of `f64`.
use nu_jupyter_kernel.Prelude.{
  map, ℕ, ◌+◌, ◌-◌, ◌%◌, ◌^◌, ◌<◌, ◌≤◌, ◌≡◌, ◌↔◌, refl, List, [], ◌∷◌, Option, none, some, true,
  false, arith,
}
use nu_jupyter_kernel.Nu.{ok, err}
use nu_jupyter_kernel.Plotters.{int, float, Range}
use nu_jupyter_kernel.Plotters.Series.{Values}
use nu_jupyter_kernel.Plotters.Ranges.KeyPoints.{
  Axes, i64_mod, place, key_points, floor, ceil, inclusive,
}
use nu_jupyter_kernel.Plotters.Ranges.KeyPoints.Whole.{nth, key_points-discrete}
use nu_jupyter_kernel.Plotters.Ranges.FromValue.{
  excluded, Kind, range_value, other_value, Readers, from_value,
}
use nu_jupyter_kernel.Plotters.Ranges.FromValue.Bounds.{IsEnd, from_value_iff}

-- Numbers that are whole.
abbrev whole : Axes
whole = record {
  F = ℕ;
  floor = λ n. n;
  ceil = λ n. n;
  round = λ n. n;
  to_i64 = λ n. n % 2 ^ 64;
  of_i64 = λ n. n;
  is_finite = λ n. true;
  Hint = ℕ;
  int_key_points = λ a b hint. [];
  float_key_points = λ a b hint. [];
}

abbrev around_zero : Range ℕ
around_zero = record { min = int (2 ^ 64 - 1); max = float 1; metadata = some true }

around_zero_points : key_points whole around_zero 5 ≡ some (int (2 ^ 64 - 1) ∷ int 0 ∷ int 1 ∷ [])
unfolding key_points floor ceil inclusive
around_zero_points = refl

key_points-discrete_example :
    (points : List ℕ) × (key_points whole around_zero 5 ≡ some (map int points))
    × ((i c : ℕ)
        → (nth i points ≡ some c) ↔ (
            (c < i64_mod)
            × (place c ≡ place (ceil whole (int (2 ^ 64 - 1))) + i)
            × (place c ≤ place (floor whole (float 1)))))
unfolding ceil floor
key_points-discrete_example = key_points-discrete whole around_zero 5 refl lower upper
  where
    lower : ceil whole (int (2 ^ 64 - 1)) < i64_mod
    lower = omega arith

    upper : floor whole (float 1) < i64_mod
    upper = omega arith

-- Either a number or the range from 2 to 7.
data Some : Type 0 where
  number : ℕ → Some
  two_to_seven : Some

abbrev float_of : Some → Option ℕ
float_of (number n) = some n
float_of two_to_seven = none

abbrev some_values : Values
some_values = record {
  Value = Some;
  ShellError = Unit {0};
  F64 = ℕ;
  F = ℕ;
  finite = λ n. some n;
  is_nan = λ n. false;
  int_of = λ v. none;
  float_of = float_of;
  into_list = λ v. err tt;
  pair = λ read v. err tt;
  x_y = λ read v. err tt;
  pipeline_empty = λ v. tt;
  cant_convert = λ v. tt;
  invalid_number = λ e. tt;
  invalid_coordinate = λ e f. tt;
  blue = record { r = 0; g = 0; b = 255; a = 1 };
}

abbrev some_kind : Some → Kind ℕ
some_kind (number n) = other_value
some_kind two_to_seven = range_value 2 (excluded 7)

abbrev some_readers : Readers some_values
some_readers = record {
  kind = some_kind;
  of_f64 = λ n. number n;
  array = λ read v. err tt;
  min_max = λ read v. err tt;
  not_bounded = λ v. tt;
  no_range = λ v. tt;
}

abbrev two_seven : Range ℕ
two_seven = record { min = float 2; max = float 7; metadata = none }

abbrev of_floats : ℕ → ℕ → Range ℕ
of_floats lower upper = record { min = float lower; max = float upper; metadata = none }

from_value_iff_example : (from_value some_values some_readers two_to_seven ≡ ok two_seven) ↔ (
    (m lower upper : ℕ) × IsEnd some_values some_readers (excluded 7) m
    × (some 2 ≡ some lower)
    × (some m ≡ some upper)
    × (two_seven ≡ of_floats lower upper))
from_value_iff_example =
    from_value_iff some_values some_readers (λ f. (refl, refl)) two_to_seven 2 (excluded 7)
      two_seven refl
