-- ===== src/Nu/Commands.antt =====
-- The commands that a cell can call, nu/commands/{display,external,print}.rs, and the evaluation
-- that calls them.
pub mod Queue
pub mod Progress
use mathlib.Core.Option
use nu_jupyter_kernel.Prelude.{[], Option, none, some, Bool, true, false}
use nu_jupyter_kernel.Prelude.Text.{Text}
use nu_jupyter_kernel.Messages.Content.{OutgoingContent}
use nu_jupyter_kernel.Messages.Iopub.{IopubBroadcast, display_data, msg_type}
use nu_jupyter_kernel.Nu.{
  Nu, Env, Script, done, display, print, PipelineData, empty, value, Result, ok, err, KonstData,
  iopub_queue,
}
use nu_jupyter_kernel.Nu.External
use nu_jupyter_kernel.Nu.Render.{PipelineRender, RenderError, render}
use nu_jupyter_kernel.Outbox.{M, ◌>>=◌, ◌>>◌, return, compose, send}

-- What `nuju print` renders: its argument or its input, not both.
unfoldable pub to_render : {V : Type 0} → PipelineData V → Option V → Option (PipelineData V)
to_render empty none = none
to_render empty (some v) = some (value v)
to_render (value w) (some v) = none
to_render (value w) none = some (value w)

-- The type that `--format` asks for; the inner `none` is no flag, the outer an unknown extension.
unfoldable pub format_mime : (nu : Nu) → Option Text → Option (Option Text)
format_mime nu none = some none
format_mime nu (some ext) = Option.map (λ m. some m) (nu.guess_mime ext)

module _ (env : Env) where
  open env use {nu, J, decls}

  -- `Display::run`: whether it passed its input on. An unknown extension is an error.
  unfoldable pub run_display : Text → M J Bool
  run_display format p = elim (nu.guess_mime format) [
    | none ↦ some (false, p)
    | some mime ↦ some (true, record p { render_filter = some mime })
  ]

  -- The message of `Print::run`, under the parent of the running cell.
  publish : PipelineRender → Result nu.ShellError KonstData → M J Bool
  publish r (err e) = return false
  publish r (ok konst) = do
    let content : IopubBroadcast =
        display_data (record { contents = r.contents; metadata = r.metadata; transient = [] })
    m ←
        compose env konst.zmq_identities (msg_type content) (some konst.header)
          (OutgoingContent.iopub content)
    send env iopub_queue m
    return true

  print_rendered :
      nu.Stack × Result (RenderError nu.ShellError) PipelineRender → M J (nu.Stack × Bool)
  unfolding publish
  print_rendered (stack, err e) = λ p. none
  print_rendered (stack, ok r) = do
    printed ← publish r (nu.get_konst stack)
    return (stack, printed)

  print_piped :
      nu.EngineState
      → nu.Stack
      → Option (PipelineData nu.Value)
      → Option (Option Text)
      → M J (nu.Stack × Bool)
  unfolding print_rendered
  print_piped engine stack none mime = return (stack, false)
  print_piped engine stack (some piped) none = return (stack, false)
  print_piped engine stack (some piped) (some mime) =
      print_rendered (render nu piped engine stack decls mime)

  -- `Print::run`: the stack after it and whether it printed; the `unwrap` of the rendering panics.
  unfoldable pub run_print :
      nu.EngineState
      → nu.Stack
      → PipelineData nu.Value
      → Option nu.Value
      → Option Text
      → M J (nu.Stack × Bool)
  unfolding to_render format_mime print_piped
  run_print engine stack input arg format =
      print_piped engine stack (to_render input arg) (format_mime nu format)

  -- The evaluation, with each call of a command acting on the process.
  unfoldable pub evaluate :
      nu.EngineState
      → Script nu.Stack nu.ShellError nu.Value
      → M J (nu.Stack × Result nu.ShellError (PipelineData nu.Value))
  unfolding run_display run_print
  evaluate engine (done stack result) = return (stack, result)
  evaluate engine (Script.external k) =
      λ p. evaluate engine k (record p { external = External.run p.external })
  evaluate engine (display format k) = do passed ← run_display format; evaluate engine (k passed)
  evaluate engine (print stack input arg format k) = do
    (stack', printed) ← run_print engine stack input arg format
    evaluate engine (k stack' printed)
