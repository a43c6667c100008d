-- ===== src/Plotters/Arguments/Inputs.antt =====
-- The inputs that `chart 2d` ends on with a panic.
use native.Mathlib.Omega.{arith}
use nu_jupyter_kernel.Prelude.{
  ℕ, ◌≡◌, ◌≢◌, ◌↔◌, ◌⊎◌, refl, ap, List, [], ◌∷◌, Option, none, some, inl, inr,
}
use nu_jupyter_kernel.Prelude.Flow
use nu_jupyter_kernel.Prelude.Flow.{Flow, bind-panics, or_panic-panics}
use nu_jupyter_kernel.Nu.{Result, ok, err}
use nu_jupyter_kernel.Plotters.{Sides, Chart2d, Series2d, default}
use nu_jupyter_kernel.Plotters.Chart.{Chart2dOptions, side_shorthand, sides_or, run, unwrap_or}
use nu_jupyter_kernel.Plotters.Arguments.{Kind, custom_value, list_value, other_value, Library}
use nu_jupyter_kernel.Plotters.Arguments.OfChart.{in_flow, input_of, run_value}

side_shorthand-none : (given : List ℕ) → (side_shorthand given ≡ none) ↔ (given ≡ [])
unfolding side_shorthand
side_shorthand-none [] = (λ e. refl, λ e. refl)
side_shorthand-none (a ∷ []) = (λ e. cc, λ e. cc)
side_shorthand-none (a ∷ b ∷ []) = (λ e. cc, λ e. cc)
side_shorthand-none (a ∷ b ∷ c ∷ []) = (λ e. cc, λ e. cc)
side_shorthand-none (a ∷ b ∷ c ∷ d ∷ rest) = (λ e. cc, λ e. cc)

sides_or-none :
    (given : Option (List ℕ)) (old : Sides) → (sides_or given old ≡ none) ↔ (given ≡ some [])
unfolding sides_or
sides_or-none none old = (λ e. cc, λ e. cc)
sides_or-none (some given) old =
    (λ e. ap some ((side_shorthand-none given).0 e), λ e. (side_shorthand-none given).1 (cc e))

module _ {F : Type 0} where
  abbrev pub HasEmptySides : Chart2dOptions F → Type 0
  HasEmptySides o = (o.margin ≡ some []) ⊎ (o.label_area ≡ some [])

  run-none :
      (input : List (Series2d F)) (extend : Option (Chart2d F)) (o : Chart2dOptions F)
      → (run input extend o ≡ none) ↔ HasEmptySides o
  unfolding run
  run-none input extend o =
      let chart = unwrap_or extend default in
      (
        λ e. ground (
          arith,
          sides_or-none o.margin chart.margin,
          sides_or-none o.label_area chart.label_area,
        ),
        λ e. ground (
          arith,
          sides_or-none o.margin chart.margin,
          sides_or-none o.label_area chart.label_area,
        ),
      )

module _ (library : Library) where
  open library use {Value, ShellError, F}

  in_flow-not_panics : {A : Type 0} (m : Result ShellError A) → in_flow library m ≢ Flow.panics
  unfolding in_flow
  in_flow-not_panics (err e) = cc
  in_flow-not_panics (ok a) = cc

  input_of-panics :
      (v : Value) (k : Kind) → (input_of library v k ≡ Flow.panics) ↔ (k ≡ other_value)
  unfolding input_of
  input_of-panics v custom_value = (λ e. absurd (in_flow-not_panics _ e), λ e. cc)
  input_of-panics v list_value = (λ e. absurd (in_flow-not_panics _ e), λ e. cc)
  input_of-panics v other_value = (λ e. refl, λ e. refl)

  -- `chart 2d` panics exactly where its input is neither a custom value nor a list, also no input
  -- at all, or where the input is readable and the margin or the label area is given as an empty list.
  pub run_value-panics_iff :
      (input : Value) (extend : Option (Chart2d F)) (options : Chart2dOptions F)
      → (run_value library input extend options ≡ Flow.panics) ↔ (
          (library.kind input ≡ other_value)
          ⊎ ((series : List (Series2d F)) × (input_of library input (library.kind input)
                ≡ Flow.ok series)
              × HasEmptySides options))
  unfolding run_value
  run_value-panics_iff input extend options =
      let read = input_of library input (library.kind input) in
      let split = bind-panics read (λ series. Flow.or_panic (λ c. c) (run series extend options)) in
      (
        λ e. elim (split.0 e) [
          | inl none_read ↦ inl ((input_of-panics input _).0 none_read)
          | inr (series, ok_read, e) ↦
              inr (series, ok_read, (run-none series extend options).0 ((or_panic-panics _).0 e))
        ],
        λ h. elim h [
          | inl other ↦ split.1 (inl ((input_of-panics input _).1 other))
          | inr (series, ok_read, sides) ↦ split.1 (
              inr
                (series, ok_read, (or_panic-panics _).1 ((run-none series extend options).1 sides)))
        ],
      )
