-- ===== src/Plotters/Arguments/OfChart.antt =====
-- commands/chart_2d.rs: the arguments and the input of `chart 2d`.
use nu_jupyter_kernel.Prelude.{List, [], ◌∷◌, Option, none, some, if◌then◌else◌}
use nu_jupyter_kernel.Prelude.Text.{Text, lit, text_eq}
use nu_jupyter_kernel.Prelude.Flow
use nu_jupyter_kernel.Prelude.Flow.{Flow}
use nu_jupyter_kernel.Nu.{Result, ok, err}
use nu_jupyter_kernel.Nu.Results.{◌>>=◌}
use nu_jupyter_kernel.Plotters.{Chart2d, Series2d}
use nu_jupyter_kernel.Plotters.Chart.{Chart2dOptions, no_options, run}
use nu_jupyter_kernel.Plotters.Arguments.{
  Shape, Ty, Signature, Kind, custom_value, list_value, other_value, Named, Library, extract_named,
  extract_flag,
}

unfoldable pub signature : Signature
signature = record {
  name = lit "chart 2d";
  optional_positional = (lit "chart", Shape.custom) ∷ [];
  flags =
      record { long = lit "width"; short = some b'W'; shape = some Shape.int }
      ∷ record { long = lit "height"; short = some b'H'; shape = some Shape.int }
      ∷ record { long = lit "background"; short = some b'b'; shape = some Shape.any }
      ∷ record { long = lit "caption"; short = some b'c'; shape = some Shape.string }
      ∷ record { long = lit "margin"; short = some b'm'; shape = some (Shape.list_of Shape.int) }
      ∷ record {
        long = lit "label-area";
        short = some b'l';
        shape = some (Shape.list_of Shape.int);
      }
      ∷ record { long = lit "x-range"; short = some b'x'; shape = some Shape.range }
      ∷ record { long = lit "y-range"; short = some b'y'; shape = some Shape.range }
      ∷ record { long = lit "disable-mesh"; short = none; shape = none }
      ∷ record { long = lit "disable-x-mesh"; short = none; shape = none }
      ∷ record { long = lit "disable-y-mesh"; short = none; shape = none }
      ∷ [];
  input_output =
      (Ty.nothing, Ty.chart_2d)
      ∷ (Ty.series_2d, Ty.chart_2d)
      ∷ (Ty.list_of Ty.series_2d, Ty.chart_2d)
      ∷ [];
}

module _ (library : Library) where
  open library use {Value, ShellError, LabeledError, F, Call}

  -- The `match` on the name of an argument.
  unfoldable pub set : Text → Option Value → Chart2dOptions F → Result ShellError (Chart2dOptions F)
  unfolding extract_named extract_flag
  set name value options =
      if text_eq name (lit "width")
      then (extract_named library library.u32 (lit "width") value >>= λ x.
          ok (record options { width = x }))
      else if text_eq name (lit "height")
      then (extract_named library library.u32 (lit "height") value >>= λ x.
          ok (record options { height = x }))
      else if text_eq name (lit "background")
      then (extract_named library library.color (lit "background") value >>= λ x.
          ok (record options { background = x }))
      else if text_eq name (lit "caption")
      then (extract_named library library.string (lit "caption") value >>= λ x.
          ok (record options { caption = x }))
      else if text_eq name (lit "margin")
      then (extract_named library library.list_u32 (lit "margin") value >>= λ x.
          ok (record options { margin = x }))
      else if text_eq name (lit "label-area")
      then (extract_named library library.list_u32 (lit "label-area") value >>= λ x.
          ok (record options { label_area = x }))
      else if text_eq name (lit "x-range")
      then (extract_named library library.range (lit "x-range") value >>= λ x.
          ok (record options { x_range = x }))
      else if text_eq name (lit "y-range")
      then (extract_named library library.range (lit "y-range") value >>= λ x.
          ok (record options { y_range = x }))
      else if text_eq name (lit "disable-mesh")
      then (extract_flag library value >>= λ x. ok (record options { disable_mesh = x }))
      else if text_eq name (lit "disable-x-mesh")
      then (extract_flag library value >>= λ x. ok (record options { disable_x_mesh = x }))
      else if text_eq name (lit "disable-y-mesh")
      then (extract_flag library value >>= λ x. ok (record options { disable_y_mesh = x }))
      else ok options

  -- The loop over the named arguments.
  unfoldable pub read_named : Named Value → Chart2dOptions F → Result ShellError (Chart2dOptions F)
  unfolding set
  read_named [] options = ok options
  read_named ((name, value) ∷ named) options = set name value options >>= read_named named

  -- The options as Nushell's own command reads them.
  unfoldable pub read_call : Call → Result ShellError (Chart2dOptions F)
  read_call call = library.get_flag call library.u32 (lit "width") >>= λ width.
      library.get_flag call library.u32 (lit "height") >>= λ height.
      library.get_flag call library.color (lit "background") >>= λ background.
      library.get_flag call library.string (lit "caption") >>= λ caption.
      library.get_flag call library.list_u32 (lit "margin") >>= λ margin.
      library.get_flag call library.list_u32 (lit "label-area") >>= λ label_area.
      library.get_flag call library.range (lit "x-range") >>= λ x_range.
      library.get_flag call library.range (lit "y-range") >>= λ y_range.
      library.get_flag call library.bool (lit "disable-mesh") >>= λ disable_mesh.
      library.get_flag call library.bool (lit "disable-x-mesh") >>= λ disable_x_mesh.
      library.get_flag call library.bool (lit "disable-y-mesh") >>= λ disable_y_mesh. ok (record {
        width = width;
        height = height;
        background = background;
        caption = caption;
        margin = margin;
        label_area = label_area;
        x_range = x_range;
        y_range = y_range;
        disable_mesh = disable_mesh;
        disable_x_mesh = disable_x_mesh;
        disable_y_mesh = disable_y_mesh;
      })

  unfoldable pub in_flow : {A : Type 0} → Result ShellError A → Flow ShellError A
  in_flow (err e) = Flow.err e
  in_flow (ok a) = Flow.ok a

  -- An error as the plugin returns it, by `?` or `map_err(Into::into)`.
  unfoldable pub labeled : {A : Type 0} → Flow ShellError A → Flow LabeledError A
  labeled (Flow.ok a) = Flow.ok a
  labeled (Flow.err e) = Flow.err (library.into_labeled e)
  labeled Flow.panics = Flow.panics

  -- The series of the input; other kinds of values reach a `todo!`.
  unfoldable pub input_of : Value → Kind → Flow ShellError (List (Series2d F))
  unfolding in_flow
  input_of v custom_value = in_flow (library.series v >>= λ s. ok (s ∷ []))
  input_of v list_value = in_flow (library.series_list v)
  input_of v other_value = Flow.panics

  -- `Chart2d::run`
  unfoldable pub run_value :
      Value → Option (Chart2d F) → Chart2dOptions F → Flow ShellError (Chart2d F)
  unfolding input_of run
  run_value input extend options =
      Flow.◌>>=◌ (input_of input (library.kind input))
        λ series. Flow.or_panic (λ c. c) (run series extend options)

  unfoldable pub first_chart : List Value → Result ShellError (Option (Chart2d F))
  first_chart [] = ok none
  first_chart (v ∷ positional) = library.chart v >>= λ c. ok (some c)

  -- The command of the plugin, with its positional and named arguments.
  unfoldable pub run_plugin : List Value → Named Value → Value → Flow LabeledError (Chart2d F)
  unfolding first_chart read_named run_value in_flow labeled
  run_plugin positional named input =
      Flow.◌>>=◌ (labeled (in_flow (first_chart positional))) λ extend.
        Flow.◌>>=◌ (labeled (in_flow (read_named named no_options)))
          λ options. labeled (run_value input extend options)

  -- The command inside Nushell, on the value of its input or the error of `into_value`.
  unfoldable pub run_command : Call → Result ShellError Value → Flow ShellError (Chart2d F)
  unfolding read_call run_value in_flow
  run_command call value = Flow.◌>>=◌ (in_flow value) λ input.
      Flow.◌>>=◌ (in_flow (library.opt call library.chart 0))
        λ extend. Flow.◌>>=◌ (in_flow (read_call call)) (run_value input extend)
