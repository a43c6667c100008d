-- ===== src/Plotters.antt =====
-- crates/nu_plugin_plotters/src: the plugin for plots. Here the values, over the type F of `f64`.
pub mod Chart
pub mod Shorthand
pub mod Extending
pub mod Ranges
pub mod Bounds
pub mod Colors
pub mod Hex
pub mod Series
pub mod Reading
pub mod Drawing
pub mod Arguments
pub mod CustomValues
use nu_jupyter_kernel.Prelude.{ℕ, List, Option, Bool, true, [], ◌∷◌, none}
use nu_jupyter_kernel.Prelude.Text.{Text}

-- An `i64` is its 64 bits, a natural number.
pub data Coord1d (F : Type 0) : Type 0 where
  int : ℕ → Coord1d F
  float : F → Coord1d F

module _ (F : Type 0) where
  pub record Coord2d : Type 0 where
    pub x : Coord1d F
    pub y : Coord1d F

  pub record Color : Type 0 where
    pub r : ℕ
    pub g : ℕ
    pub b : ℕ
    pub a : F

  pub record Range : Type 0 where
    pub min : Coord1d F
    pub max : Coord1d F
    -- `RangeMetadata`, which is its one flag `discrete_key_points`
    pub metadata : Option Bool

  pub record Line2dSeries : Type 0 where
    pub series : List Coord2d
    pub color : Color
    pub filled : Bool
    pub stroke_width : ℕ
    pub point_size : ℕ

  pub record Bar2dSeries : Type 0 where
    pub series : List Coord2d
    pub color : Color
    pub filled : Bool
    pub stroke_width : ℕ

pub data Series2d (F : Type 0) : Type 0 where
  line : Line2dSeries F → Series2d F
  bar : Bar2dSeries F → Series2d F

-- Top, right, bottom and left, as `[u32; 4]`.
pub record Sides : Type 0 where
  pub top : ℕ
  pub right : ℕ
  pub bottom : ℕ
  pub left : ℕ

pub record Chart2d (F : Type 0) : Type 0 where
  pub series : List (Series2d F)
  pub width : ℕ
  pub height : ℕ
  pub background : Option (Color F)
  pub caption : Option Text
  pub margin : Sides
  pub label_area : Sides
  pub x_range : Option (Range F)
  pub y_range : Option (Range F)
  pub x_mesh : Bool
  pub y_mesh : Bool

-- `Chart2d::default`
unfoldable pub default : {F : Type 0} → Chart2d F
default = record {
  series = [];
  width = 600;
  height = 400;
  background = none;
  caption = none;
  margin = record { top = 5; right = 5; bottom = 5; left = 5 };
  label_area = record { top = 0; right = 0; bottom = 35; left = 35 };
  x_range = none;
  y_range = none;
  x_mesh = true;
  y_mesh = true;
}
