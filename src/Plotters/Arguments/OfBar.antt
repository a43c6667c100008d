-- ===== src/Plotters/Arguments/OfBar.antt =====
-- commands/series/bar.rs: the arguments of `series bar`.
pub mod Reading
use nu_jupyter_kernel.Prelude.{ℕ, [], ◌∷◌, Option, none, some, Bool, if◌then◌else◌}
use nu_jupyter_kernel.Prelude.Text.{Text, lit, text_eq}
use nu_jupyter_kernel.Nu.{Result, ok}
use nu_jupyter_kernel.Nu.Results.{◌>>=◌}
use nu_jupyter_kernel.Plotters.{Color}
use nu_jupyter_kernel.Plotters.Arguments.{
  Shape, Ty, Signature, Named, Library, extract_named, extract_flag,
}

unfoldable pub signature : Signature
signature = record {
  name = lit "series bar";
  optional_positional = [];
  flags =
      record { long = lit "color"; short = some b'c'; shape = some Shape.any }
      ∷ record { long = lit "filled"; short = some b'f'; shape = some Shape.boolean }
      ∷ record { long = lit "stroke-width"; short = some b's'; shape = some Shape.int }
      ∷ record { long = lit "horizontal"; short = some b'H'; shape = some Shape.boolean }
      ∷ [];
  input_output =
      (Ty.list_of Ty.number, Ty.series_2d)
      ∷ (Ty.list_of (Ty.list_of Ty.number), Ty.series_2d)
      ∷ (Ty.list_of Ty.xy_record, Ty.series_2d)
      ∷ [];
}

-- The variables of the loop.
pub record BarOptions (F : Type 0) : Type 0 where
  pub color : Option (Color F)
  pub filled : Option Bool
  pub stroke_width : Option ℕ

unfoldable pub no_options : {F : Type 0} → BarOptions F
no_options = record { color = none; filled = none; stroke_width = none }

module _ (library : Library) where
  open library use {Value, ShellError, F, Call}

  -- The `match` on the name of an argument.
  unfoldable pub set : Text → Option Value → BarOptions F → Result ShellError (BarOptions F)
  unfolding extract_named extract_flag
  set name value options =
      if text_eq name (lit "color")
      then (extract_named library library.color (lit "color") value >>= λ x.
          ok (record options { color = x }))
      else if text_eq name (lit "filled")
      then (extract_named library library.bool (lit "filled") value >>= λ x.
          ok (record options { filled = x }))
      else if text_eq name (lit "stroke-width")
      then (extract_named library library.u32 (lit "stroke-width") value >>= λ x.
          ok (record options { stroke_width = x }))
      else ok options

  -- The loop over the named arguments.
  unfoldable pub read_named : Named Value → BarOptions F → Result ShellError (BarOptions F)
  unfolding set
  read_named [] options = ok options
  read_named ((name, value) ∷ named) options = set name value options >>= read_named named

  -- The options as Nushell's own command reads them.
  unfoldable pub read_call : Call → Result ShellError (BarOptions F)
  read_call call = library.get_flag call library.color (lit "color") >>= λ color.
      library.get_flag call library.bool (lit "filled") >>= λ filled.
      library.get_flag call library.u32 (lit "stroke-width") >>= λ stroke_width.
      ok (record { color = color; filled = filled; stroke_width = stroke_width })
