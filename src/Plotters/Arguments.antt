-- ===== src/Plotters/Arguments.antt =====
-- The arguments of the plugin's commands: their signatures, and how the two ways to run a command,
-- inside Nushell and as a plugin, read them.
pub mod OfChart
pub mod OfLine
pub mod OfBar
pub mod Loops
pub mod Fields
pub mod Agreement
pub mod Inputs
pub mod Ignored
use nu_jupyter_kernel.Prelude.{ℕ, ◌≡◌, ◌≢◌, List, [], ◌∷◌, Option, none, some, Bool, true}
use nu_jupyter_kernel.Prelude.Text.{Text}
use nu_jupyter_kernel.Nu.{Result, ok, err}
use nu_jupyter_kernel.Nu.Results.{◌>>=◌}
use nu_jupyter_kernel.Plotters.{Color, Range, Chart2d, Series2d}

-- `SyntaxShape` and `Type`, as far as the signatures name them; `custom` is `to_shape` of the type of
-- charts.
pub data Shape : Type 0 where
  any int boolean string range custom : Shape
  list_of : Shape → Shape

pub data Ty : Type 0 where
  nothing number xy_record series_2d chart_2d : Ty
  list_of : Ty → Ty

-- A flag with its value, or a switch where it has no shape; the short name is a character.
pub record Flag : Type 0 where
  pub long : Text
  pub short : Option ℕ
  pub shape : Option Shape

-- A `Signature` without the texts of its help.
pub record Signature : Type 0 where
  pub name : Text
  pub optional_positional : List (Text × Shape)
  pub flags : List Flag
  pub input_output : List (Ty × Ty)

-- The kinds of values that `chart 2d` tells apart.
pub data Kind : Type 0 where
  custom_value list_value other_value : Kind

abbrev pub Named : Type 0 → Type 0
Named Value = List (Text × Option Value)

-- `nu_protocol`: values with the readers of their types, and calls.
pub record Library : Type 1 where
  pub Value : Type 0
  pub ShellError : Type 0
  -- `LabeledError`, with its `From<ShellError>`
  pub LabeledError : Type 0
  pub into_labeled : ShellError → LabeledError
  pub F : Type 0
  pub kind : Value → Kind
  pub u32 : Value → Result ShellError ℕ
  pub bool : Value → Result ShellError Bool
  pub string : Value → Result ShellError Text
  pub list_u32 : Value → Result ShellError (List ℕ)
  pub color : Value → Result ShellError (Color F)
  pub range : Value → Result ShellError (Range F)
  pub chart : Value → Result ShellError (Chart2d F)
  pub series : Value → Result ShellError (Series2d F)
  pub series_list : Value → Result ShellError (List (Series2d F))
  -- `Option::<T>::from_value` over `T::from_value`
  pub optional : {A : Type 0} → (Value → Result ShellError A) → Value → Result ShellError (Option A)
  pub missing_parameter : Text → ShellError
  -- `Call::opt` and `Call::get_flag` over `T::from_value`
  pub Call : Type 0
  pub opt : {A : Type 0} → Call → (Value → Result ShellError A) → ℕ → Result ShellError (Option A)
  pub get_flag :
      {A : Type 0} → Call → (Value → Result ShellError A) → Text → Result ShellError (Option A)

module _ (library : Library) where
  open library use {Value, ShellError, F}

  -- `extract_named`, at the type `Option T` of a field.
  unfoldable pub extract_named :
      {A : Type 0}
      → (Value → Result ShellError A)
      → Text
      → Option Value
      → Result ShellError (Option A)
  extract_named reader name none = err (library.missing_parameter name)
  extract_named reader name (some value) = library.optional reader value

  -- `extract_flag`
  unfoldable pub extract_flag : Option Value → Result ShellError (Option Bool)
  extract_flag none = ok (some true)
  extract_flag (some value) = library.bool value >>= λ b. ok (some b)
