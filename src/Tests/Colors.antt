-- ===== src/Tests/Colors.antt =====
-- Colours of lists of three numbers and of texts.
use nu_jupyter_kernel.Prelude.{ℕ, ◌≡◌, ◌≤◌, refl, true, leb, arith}
use nu_jupyter_kernel.Prelude.Text.{Text}
use nu_jupyter_kernel.Prelude.Flow
use nu_jupyter_kernel.Nu.{Result, ok, err}
use nu_jupyter_kernel.Plotters.Reading.{
  RgbColor, Kind, list_value, other_value, string_value, Library, channel, from_value,
}
use nu_jupyter_kernel.Plotters.Reading.Channels.{Part, Laws, IsValid, from_value-IsValid}

data Plain : Type 0 where
  number : ℕ → Plain
  three : ℕ → ℕ → ℕ → Plain
  name : Text → Plain

abbrev kind : Plain → Kind
kind (number n) = other_value
kind (three a b c) = list_value
kind (name s) = string_value s

abbrev int : Plain → Result (Unit {0}) ℕ
int (number n) = ok n
int (three a b c) = err tt
int (name s) = err tt

abbrev all_three :
    Result (Unit {0}) ℕ → Result (Unit {0}) ℕ → Result (Unit {0}) ℕ → Result (Unit {0}) (ℕ × ℕ × ℕ)
all_three (err e) r s = err e
all_three (ok a) (err e) s = err e
all_three (ok a) (ok b) (err e) = err e
all_three (ok a) (ok b) (ok c) = ok (a, b, c)

abbrev read_three : (Plain → Result (Unit {0}) ℕ) → Plain → Result (Unit {0}) (ℕ × ℕ × ℕ)
read_three reader (number n) = err tt
read_three reader (three a b c) =
    all_three (reader (number a)) (reader (number b)) (reader (number c))
read_three reader (name s) = err tt

abbrev rgb : ℕ → ℕ → ℕ → RgbColor
rgb r g b = record { red = r; green = g; blue = b }

abbrev plain : Library
plain = record {
  Value = Plain;
  ShellError = Unit {0};
  F = ℕ;
  one = 1;
  in_unit = λ n. leb n 1;
  kind = kind;
  i64 = int;
  f64 = int;
  color_dto = λ r a v. err tt;
  tuple_4 = λ r a v. err tt;
  tuple_3 = read_three;
  is_cant_find_column = λ e. true;
  cant_convert = λ v. tt;
  too_small = λ v. tt;
  too_large = λ v. tt;
  invalid_alpha = λ v. tt;
  to_lowercase = λ s. s;
  black = rgb 0 0 0;
  blue = rgb 0 0 255;
  cyan = rgb 0 255 255;
  green = rgb 0 255 0;
  magenta = rgb 255 0 255;
  red = rgb 255 0 0;
  white = rgb 255 255 255;
  yellow = rgb 255 255 0;
}

all_three-ok :
    (r s t : Result (Unit {0}) ℕ) (a b c : ℕ)
    → all_three r s t ≡ ok (a, b, c)
    → (r ≡ ok a) × (s ≡ ok b) × (t ≡ ok c)
all_three-ok (err e) s t a b c h = cc
all_three-ok (ok x) (err e) t a b c h = cc
all_three-ok (ok x) (ok y) (err e) a b c h = cc
all_three-ok (ok x) (ok y) (ok z) a b c h = (cc, cc, cc)

read_three-Part :
    (r : Plain → Result (Unit {0}) ℕ) (v : Plain) (a b c : ℕ)
    → read_three r v ≡ ok (a, b, c)
    → Part plain r a × Part plain r b × Part plain r c
read_three-Part r (number n) a b c h = cc
read_three-Part r (three x y z) a b c h =
    let (e, f, g) = all_three-ok (r (number x)) (r (number y)) (r (number z)) a b c h in
    ((number x, e), (number y, f), (number z, g))
read_three-Part r (name s) a b c h = cc

low : 0 ≤ 255
low = omega arith

top : 255 ≤ 255
top = omega arith

plain-laws : Laws plain
plain-laws = record {
  color_dto-Part = λ r a v x y z o h. absurd (cc h);
  tuple_4-Part = λ r a v x y z f h. absurd (cc h);
  tuple_3-Part = read_three-Part;
  one-in_unit = refl;
  constants-IsRgb = (
    (low, low, low),
    (
      (low, low, top),
      (
        (low, top, top),
        (
          (low, top, low),
          ((top, low, top), ((top, low, low), ((top, top, top), ((top, top, low), tt)))),
        ),
      ),
    ),
  );
}

orange : from_value plain (three 255 165 0) ≡ Flow.ok (record { r = 255; g = 165; b = 0; a = 1 })
unfolding from_value channel
orange = refl

from_value-IsValid_example : IsValid plain (record { r = 255; g = 165; b = 0; a = 1 })
from_value-IsValid_example =
    from_value-IsValid plain plain-laws (three 255 165 0)
      (record { r = 255; g = 165; b = 0; a = 1 }) orange
