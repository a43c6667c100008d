-- ===== src/Plotters/Ranges/FromValue.antt =====
-- value/coords/range.rs: a range from a value.
pub mod Bounds
use nu_jupyter_kernel.Prelude.{
  ◌≡◌, refl, ◌∙◌, List, Option, none, some, if◌then◌else◌, Bool, true, false,
}
use nu_jupyter_kernel.Nu.{Result, ok, err}
use nu_jupyter_kernel.Nu.Results.{◌>>=◌}
use nu_jupyter_kernel.Plotters.{Coord1d, int, float, Range}
use nu_jupyter_kernel.Plotters.Series.{Values, coord_1d}

pub data Bound (F64 : Type 0) : Type 0 where
  included excluded : F64 → Bound F64
  unbounded : Bound F64

-- The kinds of values that are told apart; a range as the start and the end of its `FloatRange`.
pub data Kind (F64 : Type 0) : Type 0 where
  range_value : F64 → Bound F64 → Kind F64
  list_value record_value other_value : Kind F64

module _ (values : Values) where
  open values use {Value, ShellError, F64, F}

  -- `nu_protocol`: the readers of an array of two and of a record with `min` and `max`.
  pub record Readers : Type 0 where
    pub kind : Value → Kind F64
    pub of_f64 : F64 → Value
    pub array :
        (Value → Result ShellError (Coord1d F)) → Value → Result ShellError (Coord1d F × Coord1d F)
    pub min_max :
        (Value → Result ShellError (Coord1d F)) → Value → Result ShellError (Coord1d F × Coord1d F)
    pub not_bounded : Value → ShellError
    pub no_range : Value → ShellError

  module _ (readers : Readers) where
    end_of : Value → Bound F64 → Result ShellError F64
    end_of v (included max) = ok max
    end_of v (excluded max) = ok max
    end_of v unbounded = err (readers.not_bounded v)

    without_metadata : Coord1d F × Coord1d F → Result ShellError (Range F)
    without_metadata (min, max) = ok (record { min = min; max = max; metadata = none })

    of_kind : Value → Kind F64 → Result ShellError (Range F)
    unfolding end_of without_metadata coord_1d
    of_kind v (range_value start end) = end_of v end >>= λ max.
        coord_1d values (readers.of_f64 start) >>= λ lower.
        coord_1d values (readers.of_f64 max) >>= λ upper. without_metadata (lower, upper)
    of_kind v list_value = readers.array (coord_1d values) v >>= without_metadata
    of_kind v record_value = readers.min_max (coord_1d values) v >>= without_metadata
    of_kind v other_value = err (readers.no_range v)

    -- `Range::from_value`
    unfoldable pub from_value : Value → Result ShellError (Range F)
    unfolding of_kind
    from_value v = of_kind v (readers.kind v)
