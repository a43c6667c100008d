-- ===== src/Tests/Series.antt =====
-- A series of a list of numbers.
use nu_jupyter_kernel.Prelude.{ℕ, ◌≡◌, ◌↔◌, refl, List, [], ◌∷◌, Option, none, some, false}
use nu_jupyter_kernel.Prelude.Flow
use nu_jupyter_kernel.Nu.{Result, ok, err}
use nu_jupyter_kernel.Plotters.{Coord1d, Coord2d}
use nu_jupyter_kernel.Plotters.Series.{Values, coord_1d, tuple, coord_2d, series_from_value}
use nu_jupyter_kernel.Plotters.Series.Points.{Pointwise, Form, IsFormless, series-Form}

-- Numbers, pairs of numbers, texts, and lists of numbers with a text at the end.
data Plain : Type 0 where
  one : ℕ → Plain
  two : ℕ → ℕ → Plain
  word : Plain
  many : List ℕ → Plain

abbrev number : Plain → Option ℕ
number (one n) = some n
number (two a b) = none
number word = none
number (many ns) = none

abbrev ones : List ℕ → List Plain
ones [] = word ∷ []
ones (n ∷ ns) = one n ∷ ones ns

abbrev list : Plain → Result (Unit {0}) (List Plain)
list (one n) = err tt
list (two a b) = ok (one a ∷ one b ∷ [])
list word = err tt
list (many ns) = ok (ones ns)

abbrev both :
    Result (Unit {0}) (Coord1d ℕ)
    → Result (Unit {0}) (Coord1d ℕ)
    → Result (Unit {0}) (Coord1d ℕ × Coord1d ℕ)
both (err e) r = err e
both (ok a) (err e) = err e
both (ok a) (ok b) = ok (a, b)

abbrev pair :
    (Plain → Result (Unit {0}) (Coord1d ℕ)) → Plain → Result (Unit {0}) (Coord1d ℕ × Coord1d ℕ)
pair read (one n) = err tt
pair read (two a b) = both (read (one a)) (read (one b))
pair read word = err tt
pair read (many ns) = err tt

abbrev plain : Values
plain = record {
  Value = Plain;
  ShellError = Unit {0};
  F64 = ℕ;
  F = ℕ;
  finite = λ n. some n;
  is_nan = λ n. false;
  int_of = number;
  float_of = λ v. none;
  into_list = list;
  pair = pair;
  x_y = λ read v. err tt;
  pipeline_empty = λ v. tt;
  cant_convert = λ v. tt;
  invalid_number = λ e. tt;
  invalid_coordinate = λ e f. tt;
  blue = record { r = 0; g = 0; b = 255; a = 1 };
}

series-Form_example :
    ((ps : List (Coord2d ℕ))
      → (series_from_value plain (many (3 ∷ 5 ∷ [])) ≡ Flow.ok ps)
        ↔ Pointwise
            (Form plain (coord_1d plain (one 3)) (tuple plain (one 3)) (coord_2d plain (one 3)))
            0
            (one 3 ∷ one 5 ∷ word ∷ [])
            ps)
    × ((series_from_value plain (many (3 ∷ 5 ∷ [])) ≡ Flow.panics) ↔ IsFormless plain (one 3))
series-Form_example = series-Form plain (many (3 ∷ 5 ∷ [])) (one 3) (one 5 ∷ word ∷ []) refl
