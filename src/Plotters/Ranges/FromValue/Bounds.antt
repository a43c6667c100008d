-- ===== src/Plotters/Ranges/FromValue/Bounds.antt =====
-- The bounds of a range that is read from a range value.
use nu_jupyter_kernel.Prelude.{
  ◌≡◌, ◌↔◌, refl, sym, ap, ◌∙◌, none, some, Option-cases, Bool-cases, inl, inr,
}
use nu_jupyter_kernel.Nu.{ok}
use nu_jupyter_kernel.Nu.Results.{>>=-eq-ok}
use nu_jupyter_kernel.Plotters.{Coord1d, float, Range}
use nu_jupyter_kernel.Plotters.Series.{Values, coord_1d, from_float}
use nu_jupyter_kernel.Plotters.Ranges.FromValue.{
  Bound, included, excluded, unbounded, range_value, Readers, from_value, end_of, without_metadata,
}

module _ (values : Values) (readers : Readers values) where
  open values use {Value, ShellError, F64, F}

  -- `into_value` makes a `Value::Float`.
  abbrev pub MakesFloats : Type 0
  MakesFloats =
      (f : F64)
      → (values.int_of (readers.of_f64 f) ≡ none) × (values.float_of (readers.of_f64 f) ≡ some f)

  -- The end, whether it is included or not.
  abbrev pub IsEnd : Bound F64 → F64 → Type 0
  IsEnd (included max) m = max ≡ m
  IsEnd (excluded max) m = max ≡ m
  IsEnd unbounded m = ⊥

  end_of_iff :
      (v : Value) (b : Bound F64) (m : F64) → (end_of values readers v b ≡ ok m) ↔ IsEnd b m
  unfolding end_of
  end_of_iff v (included max) m = (λ e. cc e, λ e. ap ok e)
  end_of_iff v (excluded max) m = (λ e. cc e, λ e. ap ok e)
  end_of_iff v unbounded m = (λ e. cc e, λ e. absurd e)

  of_f64_iff :
      MakesFloats
      → (f : F64) (c : Coord1d F)
      → (coord_1d values (readers.of_f64 f) ≡ ok c)
        ↔ ((x : F) × (values.finite f ≡ some x) × (c ≡ float x))
  unfolding coord_1d from_float
  of_f64_iff makes f c = elim (Option-cases (values.finite f)) [
    | inl e ↦ elim (Bool-cases (values.is_nan f)) [
      | inl n ↦ rw ((makes f).0, (makes f).1, e, n) (λ h. cc, λ h. cc (h.1))
      | inr n ↦ rw ((makes f).0, (makes f).1, e, n) (λ h. cc, λ h. cc (h.1))
    ]
    | inr (x, e) ↦ rw ((makes f).0, (makes f).1, e) (λ h. (x, refl, cc h), λ h. cc (h.1, h.2))
  ]

  -- A range value reads as a range exactly if it is bounded and both bounds are finite. Its bounds are
  -- then floats, also those of a range of integers, its end is the upper bound, also an excluded one,
  -- and it does not ask for discrete key points.
  pub from_value_iff :
      MakesFloats
      → (v : Value) (start : F64) (end : Bound F64) (r : Range F)
      → readers.kind v ≡ range_value start end
      → (from_value values readers v ≡ ok r) ↔ (
          (m : F64) × (lower : F) × (upper : F) × IsEnd end m
          × (values.finite start ≡ some lower)
          × (values.finite m ≡ some upper)
          × (r ≡ record { min = float lower; max = float upper; metadata = none }))
  unfolding from_value without_metadata
  from_value_iff makes v start end r range = rw range (
    λ h.
        let (m, is_end, rest) = >>=-eq-ok (end_of values readers v end) _ h in
        let (lo, low, rest') = >>=-eq-ok (coord_1d values (readers.of_f64 start)) _ rest in
        let (hi, high, same) = >>=-eq-ok (coord_1d values (readers.of_f64 m)) _ rest' in
        let (lower, finite_low, is_low) = (of_f64_iff makes start lo).0 low in
        let (upper, finite_high, is_high) = (of_f64_iff makes m hi).0 high in
        let pair : r ≡ record { min = lo; max = hi; metadata = none } = cc same in
        (
          m,
          lower,
          upper,
          (end_of_iff v end m).0 is_end,
          finite_low,
          finite_high,
          pair
              ∙ ap (λ x. record { min = x; max = hi; metadata = none }) is_low
              ∙ ap (λ x. record { min = float lower; max = x; metadata = none }) is_high,
        ),
    λ h.
        let (m, lower, upper, is_end, finite_low, finite_high, same) = h in
        rw
          (
            (end_of_iff v end m).1 is_end,
            (of_f64_iff makes start (float lower)).1 (lower, finite_low, refl),
            (of_f64_iff makes m (float upper)).1 (upper, finite_high, refl),
          )
          (ap ok (sym same)),
  )
