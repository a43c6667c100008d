-- ===== src/Tests/Arguments.antt =====
-- The arguments of the plotters' commands at concrete calls.
use mathlib.Core.Path.{subst}
use nu_jupyter_kernel.Prelude.{
  ℕ, ◌≡◌, ◌≢◌, ◌↔◌, ◌⊎◌, refl, sym, ap, ◌∙◌, Bool-cases, if◌then◌else◌, List, [], ◌∷◌, ◌++◌, Option,
  none, some, Bool, true, false, inl, inr,
}
use nu_jupyter_kernel.Prelude.Text.{Text, lit, text_eq}
use nu_jupyter_kernel.Prelude.Table.{lookup}
use nu_jupyter_kernel.Prelude.Flow.{Flow}
use nu_jupyter_kernel.Nu.{Result, ok, err}
use nu_jupyter_kernel.Nu.Results.{◌>>=◌}
use nu_jupyter_kernel.Plotters.{Series2d, line}
use nu_jupyter_kernel.Plotters.Chart.{Chart2dOptions, no_options}
use nu_jupyter_kernel.Plotters.Arguments.{
  Kind, custom_value, list_value, other_value, Named, Library, extract_named, extract_flag,
}
use nu_jupyter_kernel.Plotters.Arguments.OfChart.{
  set, read_named, read_call, input_of, run_value, run_plugin, run_command, labeled,
}
use nu_jupyter_kernel.Plotters.Arguments.Loops.{Once}
use nu_jupyter_kernel.Plotters.Arguments.Agreement.{
  IsPresent, Holds, HoldsFirst, run_plugin-run_command, read_named-disable_mesh,
}
use nu_jupyter_kernel.Plotters.Arguments.Inputs.{HasEmptySides, run_value-panics_iff}

data Val : Type 0 where
  nothing : Val
  number : ℕ → Val
  numbers : List ℕ → Val
  truth : Bool → Val
  plot : Series2d ℕ → Val
  plots : List (Series2d ℕ) → Val

unfoldable kind : Val → Kind
kind (plot s) = custom_value
kind (plots s) = list_value
kind v = other_value

unfoldable u32 : Val → Result Text ℕ
u32 (number n) = ok n
u32 v = err (lit "no int")

unfoldable list_u32 : Val → Result Text (List ℕ)
list_u32 (numbers ns) = ok ns
list_u32 v = err (lit "no list")

unfoldable bool : Val → Result Text Bool
bool (truth b) = ok b
bool v = err (lit "no bool")

unfoldable series : Val → Result Text (Series2d ℕ)
series (plot s) = ok s
series v = err (lit "no series")

unfoldable series_list : Val → Result Text (List (Series2d ℕ))
series_list (plots s) = ok s
series_list v = err (lit "no list")

unfoldable optional : {A : Type 0} → (Val → Result Text A) → Val → Result Text (Option A)
optional reader nothing = ok none
optional reader v = reader v >>= λ a. ok (some a)

unfoldable first_of : {A : Type 0} → (Val → Result Text A) → List Val → Result Text (Option A)
first_of reader [] = ok none
first_of reader (v ∷ vs) = reader v >>= λ a. ok (some a)

unfoldable flag_of :
    {A : Type 0} → (Val → Result Text A) → Option (Option Val) → Result Text (Option A)
flag_of reader (some (some v)) = reader v >>= λ a. ok (some a)
flag_of reader given = ok none

abbrev library : Library
library = record {
  Value = Val;
  ShellError = Text;
  LabeledError = Text;
  into_labeled = λ e. lit "Error: " ++ e;
  F = ℕ;
  kind = kind;
  u32 = u32;
  bool = bool;
  string = λ v. err (lit "no string");
  list_u32 = list_u32;
  color = λ v. err (lit "no color");
  range = λ v. err (lit "no range");
  chart = λ v. err (lit "no chart");
  series = series;
  series_list = series_list;
  optional = λ {A}. optional {A = A};
  missing_parameter = λ name. name;
  Call = List Val × Named Val;
  opt = λ call reader i. first_of reader call.0;
  get_flag = λ call reader name. flag_of reader (lookup name call.1);
}

number-IsPresent : (n : ℕ) → IsPresent library (number n)
unfolding optional
number-IsPresent n A reader = refl

truth-IsPresent : (b : Bool) → IsPresent library (truth b)
unfolding optional
truth-IsPresent b A reader = refl

holds : (positional : List Val) (named : Named Val) → Holds library (positional, named) named
unfolding flag_of
holds positional named = record {
  of_value = λ A reader name v e. ap (flag_of reader) e;
  of_switch = λ A reader name e. ap (flag_of reader) e;
  of_absent = λ A reader name e. ap (flag_of reader) e;
}

holds_first :
    (positional : List Val) (named : Named Val) → HoldsFirst library (positional, named) positional
unfolding first_of
holds_first positional named = record {
  of_none = λ A reader e. ap (first_of reader) e;
  of_first = λ A reader v rest e. ap (first_of reader) e;
}

abbrev wide : Named Val
wide = (lit "width", some (number 640)) ∷ (lit "disable-x-mesh", some (truth true)) ∷ []

wide-IsPresent : (name : Text) (v : Val) → lookup name wide ≡ some (some v) → IsPresent library v
unfolding lookup
wide-IsPresent name v h = elim (Bool-cases (text_eq (lit "width") name)) [
  | inl e ↦
      let same : number 640 ≡ v = cc (
        sym (
          ap
            (λ b.
              if b
              then some (some (number 640))
              else lookup name ((lit "disable-x-mesh", some (truth true)) ∷ []))
            e)
        ∙ h) in
      subst (IsPresent library) same (number-IsPresent 640)
  | inr e ↦ elim (Bool-cases (text_eq (lit "disable-x-mesh") name)) [
    | inl f ↦
        let same : truth true ≡ v = cc (
          sym (ap (λ b. if b then some (some (truth true)) else none) f)
          ∙ sym (
              ap
                (λ b.
                  if b
                  then some (some (number 640))
                  else lookup name ((lit "disable-x-mesh", some (truth true)) ∷ []))
                e)
          ∙ h) in
        subst (IsPresent library) same (truth-IsPresent true)
    | inr f ↦ cc
  ]
]

abbrev wide_options : Chart2dOptions ℕ
wide_options = record no_options { width = some 640; disable_x_mesh = some true }

wide-Once : Once wide
unfolding lookup text_eq
wide-Once = (refl, (refl, tt))

wide_read : read_named library wide no_options ≡ ok wide_options
unfolding read_named set text_eq extract_named extract_flag optional u32 bool no_options
wide_read = refl

wide_no_mesh : lookup (lit "disable-mesh") wide ≢ some none
unfolding lookup text_eq
wide_no_mesh = cc

wide_x_mesh : lookup (lit "disable-x-mesh") wide ≢ some none
unfolding lookup text_eq
wide_x_mesh = cc

wide_y_mesh : lookup (lit "disable-y-mesh") wide ≢ some none
unfolding lookup text_eq
wide_y_mesh = cc

abbrev one_line : Val
one_line = plot (
    line (record {
      series = [];
      color = record { r = 0; g = 0; b = 0; a = 0 };
      filled = false;
      stroke_width = 1;
      point_size = 0;
    }))

run_plugin-run_command_example :
    (run_plugin library [] wide one_line
      ≡ labeled library (run_command library ([], wide) (ok one_line)))
    × ((x : Text) → run_command library ([], wide) (err x) ≡ Flow.err x)
run_plugin-run_command_example =
    run_plugin-run_command library ([], wide) wide wide-Once wide-IsPresent (holds [] wide) []
      one_line wide_options wide_no_mesh wide_x_mesh wide_y_mesh (holds_first [] wide) wide_read

abbrev switch : Named Val
switch = (lit "disable-mesh", none) ∷ []

switch-Once : Once switch
unfolding lookup
switch-Once = (refl, tt)

abbrev bare : Option (Option Val)
bare = some none

switch-IsPresent :
    (name : Text) (v : Val) → lookup name switch ≡ some (some v) → IsPresent library v
unfolding lookup
switch-IsPresent name v h = elim (Bool-cases (text_eq (lit "disable-mesh") name)) [
  | inl e ↦ cc (sym (ap (λ b. if b then bare else none) e) ∙ h)
  | inr e ↦ cc (sym (ap (λ b. if b then bare else none) e) ∙ h)
]

switch_bare : lookup (lit "disable-mesh") switch ≡ some none
unfolding lookup text_eq
switch_bare = refl

switch_read :
    read_named library switch no_options ≡ ok (record no_options { disable_mesh = some true })
unfolding read_named set text_eq extract_named extract_flag no_options
switch_read = refl

switch_call : read_call library ([], switch) ≡ ok no_options
unfolding read_call lookup text_eq flag_of no_options
switch_call = refl

abbrev nothing_given : Chart2dOptions ℕ
nothing_given = no_options

read_named-disable_mesh_example : (some true ≡ some true) × (nothing_given.disable_mesh ≡ none)
unfolding no_options
read_named-disable_mesh_example =
    read_named-disable_mesh library ([], switch) switch switch-Once switch-IsPresent
      (holds [] switch) (record no_options { disable_mesh = some true }) no_options switch_bare
      switch_read switch_call

run_value-panics_iff_example : (run_value library nothing none no_options ≡ Flow.panics) ↔ (
    (kind nothing ≡ other_value)
    ⊎ ((series : List (Series2d ℕ)) × (input_of library nothing (kind nothing) ≡ Flow.ok series)
        × HasEmptySides nothing_given))
run_value-panics_iff_example = run_value-panics_iff library nothing none no_options
