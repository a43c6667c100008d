-- ===== src/Plotters/Reading.antt =====
-- value/color.rs: a colour from a value.
pub mod Channels
use nu_jupyter_kernel.Prelude.{
  ℕ, ◌≡◌, ◌≤◌, ◌^◌, List, [], ◌∷◌, Option, none, some, Bool, true, false, if◌then◌else◌, ltb, leb,
  ◌==◌, All,
}
use nu_jupyter_kernel.Prelude.Text.{Text, lit, text_eq}
use nu_jupyter_kernel.Prelude.Flow
use nu_jupyter_kernel.Prelude.Flow.{Flow}
use nu_jupyter_kernel.Nu.{Result, ok, err}
use nu_jupyter_kernel.Plotters.{Color}
use nu_jupyter_kernel.Plotters.Colors.{hex}

-- `RGBColor` of the plotters crate.
pub record RgbColor : Type 0 where
  pub red : ℕ
  pub green : ℕ
  pub blue : ℕ

-- The kinds of values that `Color::from_value` tells apart.
pub data Kind : Type 0 where
  record_value list_value other_value : Kind
  string_value : Text → Kind

-- `nu_protocol`, and the constants of the plotters crate. A reader of a record or a list reads each
-- part by the reader that it is given.
pub record Library : Type 1 where
  pub Value : Type 0
  pub ShellError : Type 0
  -- `f64`
  pub F : Type 0
  pub one : F
  -- the pattern `0.0..=1.0`
  pub in_unit : F → Bool
  pub kind : Value → Kind
  -- `i64::from_value`, as the 64 bits, and `f64::from_value`
  pub i64 : Value → Result ShellError ℕ
  pub f64 : Value → Result ShellError F
  pub color_dto :
      (Value → Result ShellError ℕ)
      → (Value → Result ShellError F)
      → Value
      → Result ShellError (ℕ × ℕ × ℕ × Option F)
  pub tuple_4 :
      (Value → Result ShellError ℕ)
      → (Value → Result ShellError F)
      → Value
      → Result ShellError (ℕ × ℕ × ℕ × F)
  pub tuple_3 : (Value → Result ShellError ℕ) → Value → Result ShellError (ℕ × ℕ × ℕ)
  -- `ShellError::CantFindColumn`
  pub is_cant_find_column : ShellError → Bool
  pub cant_convert : Value → ShellError
  pub too_small : Value → ShellError
  pub too_large : Value → ShellError
  pub invalid_alpha : Value → ShellError
  pub to_lowercase : Text → Text
  pub black : RgbColor
  pub blue : RgbColor
  pub cyan : RgbColor
  pub green : RgbColor
  pub magenta : RgbColor
  pub red : RgbColor
  pub white : RgbColor
  pub yellow : RgbColor

module _ (library : Library) where
  open library use {Value, ShellError, F}

  -- `ColorChannel::from_value`; the bits of a negative number are 2 ^ 63 or more.
  in_u8 : Value → ℕ → Result ShellError ℕ
  in_u8 v n =
      if leb n 255
      then ok n
      else if leb (2 ^ 63) n
      then err (library.too_small v)
      else err (library.too_large v)

  channel_of : Value → Result ShellError ℕ → Result ShellError ℕ
  unfolding in_u8
  channel_of v (err e) = err e
  channel_of v (ok n) = in_u8 v n

  unfoldable pub channel : Value → Result ShellError ℕ
  unfolding channel_of
  channel v = channel_of v (library.i64 v)

  -- `AlphaChannel::from_value`
  alpha_of : Value → Result ShellError F → Result ShellError F
  alpha_of v (err e) = err e
  alpha_of v (ok f) = if library.in_unit f then ok f else err (library.invalid_alpha v)

  unfoldable pub alpha : Value → Result ShellError F
  unfolding alpha_of
  alpha v = alpha_of v (library.f64 v)

  -- `unwrap_or_default` of an alpha channel.
  abbrev pub alpha_or : Option F → F
  alpha_or none = library.one
  alpha_or (some a) = a

  of_dto : Result ShellError (ℕ × ℕ × ℕ × Option F) → Flow ShellError (Color F)
  of_dto (err e) = Flow.err e
  of_dto (ok (r, g, b, a)) = Flow.ok (record { r = r; g = g; b = b; a = alpha_or a })

  -- The `match` on both readings of a list.
  of_tuples :
      Result ShellError (ℕ × ℕ × ℕ × F) → Result ShellError (ℕ × ℕ × ℕ) → Flow ShellError (Color F)
  of_tuples (ok (r, g, b, a)) rgb = Flow.ok (record { r = r; g = g; b = b; a = a })
  of_tuples (err e) (ok (r, g, b)) =
      if library.is_cant_find_column e
      then Flow.ok (record { r = r; g = g; b = b; a = library.one })
      else Flow.err e
  of_tuples (err e) (err f) = Flow.err f

  of_hex : Value → Flow (Unit {0}) (ℕ × ℕ × ℕ) → Flow ShellError (Color F)
  of_hex v (Flow.ok (r, g, b)) = Flow.ok (record { r = r; g = g; b = b; a = library.one })
  of_hex v (Flow.err e) = Flow.err (library.cant_convert v)
  of_hex v Flow.panics = Flow.panics

  -- What follows the `#`, in lower case.
  hash_color : Value → Text → Flow ShellError (Color F)
  unfolding of_hex hex
  hash_color v [] = Flow.err (library.cant_convert v)
  hash_color v (c ∷ val) =
      if c == b'#' then of_hex v (hex val) else Flow.err (library.cant_convert v)

  -- `From<RGBColor>`
  of_rgb : RgbColor → Flow ShellError (Color F)
  of_rgb c = Flow.ok (record { r = c.red; g = c.green; b = c.blue; a = library.one })

  of_name : Value → Text → Flow ShellError (Color F)
  unfolding of_rgb hash_color
  of_name v val =
      if text_eq val (lit "black")
      then of_rgb library.black
      else if text_eq val (lit "blue")
      then of_rgb library.blue
      else if text_eq val (lit "cyan")
      then of_rgb library.cyan
      else if text_eq val (lit "green")
      then of_rgb library.green
      else if text_eq val (lit "magenta")
      then of_rgb library.magenta
      else if text_eq val (lit "red")
      then of_rgb library.red
      else if text_eq val (lit "white")
      then of_rgb library.white
      else if text_eq val (lit "yellow")
      then of_rgb library.yellow
      else hash_color v val

  of_kind : Value → Kind → Flow ShellError (Color F)
  unfolding of_dto of_tuples of_name channel alpha
  of_kind v Kind.record_value = of_dto (library.color_dto channel alpha v)
  of_kind v Kind.list_value =
      of_tuples (library.tuple_4 channel alpha v) (library.tuple_3 channel v)
  of_kind v (Kind.string_value val) = of_name v (library.to_lowercase val)
  of_kind v Kind.other_value = Flow.err (library.cant_convert v)

  -- `Color::from_value`
  unfoldable pub from_value : Value → Flow ShellError (Color F)
  unfolding of_kind
  from_value v = of_kind v (library.kind v)
