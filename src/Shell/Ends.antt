-- ===== src/Shell/Ends.antt =====
-- When the cell of an execute request comes to its end without a panic.
use mathlib.Core.Path.{subst}
use nu_jupyter_kernel.Prelude.{
  ℕ, ◌≡◌, refl, sym, List, Option, none, some, Bool, true, false, Bool-cases, Option-cases, inl,
  inr, arith,
}
use nu_jupyter_kernel.Prelude.Text.{Text}
use nu_jupyter_kernel.Messages.Content.{OutgoingContent, Writes}
use nu_jupyter_kernel.Messages.Iopub.{Status}
use nu_jupyter_kernel.Messages.Shell.{ShellRequest, ShellReply}
use nu_jupyter_kernel.Nu.{Env, Process, Result, ok, err, PipelineData, ExternalState, Script}
use nu_jupyter_kernel.Nu.External.Once.{Enters}
use nu_jupyter_kernel.Nu.Execute.Ending.{CodeEnds, PreparedEnds, execute-CodeEnds}
use nu_jupyter_kernel.Nu.Render.{PipelineRender, RenderError, render}
use nu_jupyter_kernel.Nu.Execute
use nu_jupyter_kernel.Nu.Execute.{ExecuteError, Prepared, failed, shell, execute}
use nu_jupyter_kernel.Nu.Commands.Progress.{Renderable, ScriptEnds, render-cases, evaluate-Exact}
use nu_jupyter_kernel.Outbox.{M, ◌>>=◌, return, compose, send}
use nu_jupyter_kernel.Outbox.Completes.{
  Completes, Any, Completes-return, Completes-bind, Completes-compose, Completes-send,
}
use nu_jupyter_kernel.Outbox.Exact.{
  Exact, Exact-of_Completes, Exact-given, Exact-panic, Exact-after, Exact-then, Exact-known,
  bind-none,
}
use nu_jupyter_kernel.Shell.{
  Report, Request, Context, send_status, send_reply, broadcast, handle_execute_error, show_result,
  render_result, handle_execute_results, conclude, run_prepared, take_filter,
}
use nu_jupyter_kernel.Shell.Loop.{execute_cell, enter_cell}

module _ (env : Env) (report : Report env.nu) where
  open env use {nu, J, decls}

  -- The value that a cell gives is shown, unless it is nothing: it is renderable.
  abbrev Shown : Bool → Type 0 → Type 0
  Shown true P = Unit
  Shown false P = P

  abbrev ResultEnds :
      nu.EngineState → nu.Stack → Result nu.ShellError (PipelineData nu.Value) → Type 0
  ResultEnds engine stack (ok output) =
      Shown (nu.is_nothing output) (Renderable nu decls engine stack output)
  ResultEnds engine stack (err e) = Unit

  -- What a cell prints and gives is renderable.
  abbrev EvaluationEnds : nu.EngineState → Script nu.Stack nu.ShellError nu.Value → Type 0
  EvaluationEnds engine script = ScriptEnds nu decls engine script (ResultEnds engine)

  -- A cell in a context, external commands merged: its code ends, with the values that it prints and
  -- the one that it gives.
  abbrev pub CellEnds : Request env report → Text → Context env report → Type 0
  CellEnds message code ctx =
      let (name, entered) = enter_cell env report message ctx in
      CodeEnds nu EvaluationEnds code name entered.engine_state entered.stack

  -- The request can be served to its end: an execute request whose cell ends, on the engine that
  -- external commands leave, or any other request.
  abbrev pub Ends :
      Request env report → ShellRequest J → Context env report → ExternalState → Type 0
  Ends message ShellRequest.kernel_info ctx external = Unit
  Ends message (ShellRequest.is_complete request) ctx external = Unit
  Ends message (ShellRequest.execute request) ctx external =
      Enters nu external ctx.engine_state
        (λ engine. CellEnds message request.code (record ctx { engine_state = engine }))

module _ (env : Env) (report : Report env.nu) (message : Request env report)
    (w : Writes env.serde) where
  open env use {nu, J, serde, decls}

  pub post-Completes :
      (ids : List _) (type : Text) (parent : Option _) (content : OutgoingContent J) (route : _)
      → Completes Any (compose env ids type parent content >>= λ m. send env route m)
  post-Completes ids type parent content route =
      Completes-bind _ _ _ _ (Completes-compose env _ _ _ _) (λ m _. Completes-send env route m w)

  pub send_reply-Completes :
      (type : Text) (reply : ShellReply J)
      → Completes Any (send_reply env report message type reply)
  unfolding send_reply
  send_reply-Completes type reply = post-Completes _ _ _ _ _

  handle_execute_error-Completes :
      (ctx : Context env report) (type : Text) (e : ExecuteError nu)
      → Completes Any (handle_execute_error env report ctx message type e)
  unfolding handle_execute_error broadcast
  handle_execute_error-Completes ctx type e =
      Completes-bind _ _ _ _ (post-Completes _ _ _ _ _) (λ u _. send_reply-Completes type _)

  pub conclude_err-Completes :
      (ctx : Context env report) (type : Text) (stack : nu.Stack) (e : nu.ShellError)
      → Completes Any (conclude env report ctx message type (stack, err e))
  unfolding conclude
  conclude_err-Completes ctx type stack e =
      Completes-bind _ _ _ _
        (handle_execute_error-Completes (record ctx { stack = stack }) type (shell e))
        (λ u _. Completes-return _ _ tt)

  -- A status message leaves the state of external commands.
  pub send_status-external :
      (s : Status) (p p' : Process J) (u : Unit {0})
      → send_status env report message s p ≡ some (u, p')
      → p'.external ≡ p.external
  unfolding send_status compose send
  send_status-external s p p' u e = ground arith

  show_result-Completes :
      (count : ℕ) (r : nu.Stack × Result (RenderError nu.ShellError) PipelineRender)
      (out : PipelineRender)
      → r.1 ≡ ok out
      → Completes Any (show_result env report message count r)
  unfolding show_result broadcast
  show_result-Completes count (stack, err e) out h = cc
  show_result-Completes count (stack, ok r) out h =
      Completes-bind _ _ _ _ (post-Completes _ _ _ _ _) (λ u _. Completes-return _ stack tt)

  show_result-none :
      (count : ℕ) (r : nu.Stack × Result (RenderError nu.ShellError) PipelineRender)
      (e : RenderError nu.ShellError) (p : Process J)
      → r.1 ≡ err e
      → show_result env report message count r p ≡ none
  unfolding show_result
  show_result-none count (stack, err x) e p h = refl
  show_result-none count (stack, ok r) e p h = cc

  take_filter-Completes : Completes Any (take_filter {J = J})
  take_filter-Completes = record {
    apply = λ p k. (
      p.render_filter,
      record p { render_filter = none },
      refl,
      record { key = k.key; is_set = k.is_set },
      tt,
    );
  }

  show_render-Exact :
      (ctx : Context env report) (count : ℕ) (output : PipelineData nu.Value) (filter : Option Text)
      → Exact (Renderable nu decls ctx.engine_state ctx.stack output) (
          show_result env report message count
            (render nu output ctx.engine_state ctx.stack decls filter))
  show_render-Exact ctx count output filter =
      elim (render-cases nu decls ctx.engine_state ctx.stack output filter) [
        | inl (renderable, r, e) ↦ Exact-given renderable (show_result-Completes count _ r e)
        | inr (not_renderable, e, bad) ↦
            Exact-panic _ _ not_renderable (λ p. show_result-none count _ e p bad)
      ]

  render_result-Exact :
      (ctx : Context env report) (count : ℕ) (output : PipelineData nu.Value)
      → Exact
          (Shown env report
            (nu.is_nothing output)
            (Renderable nu decls ctx.engine_state ctx.stack output))
          (render_result env report ctx message count output)
  unfolding render_result
  render_result-Exact ctx count output = elim (Bool-cases (nu.is_nothing output)) [
    | inl e ↦ rw (e, render_result) (Exact-of_Completes _ (Completes-return _ ctx.stack tt))
    | inr e ↦
        rw (e, render_result)
          (Exact-after _ _ _ _ take_filter-Completes
            (λ filter _. show_render-Exact ctx count output filter))
  ]

  conclude-Exact :
      (ctx : Context env report) (type : Text)
      (r : nu.Stack × Result nu.ShellError (PipelineData nu.Value))
      → Exact
          (ResultEnds env report ctx.engine_state (r.0) (r.1))
          (conclude env report ctx message type r)
  unfolding conclude handle_execute_results
  conclude-Exact ctx type (stack, ok output) =
      Exact-then _ _ _ (render_result-Exact (record ctx { stack = stack }) _ output)
        λ s. Completes-bind _ _ _ _ (send_reply-Completes type _) (λ u _. Completes-return _ _ tt)
  conclude-Exact ctx type (stack, err e) =
      Exact-of_Completes _ (conclude_err-Completes ctx type stack e)

  run_prepared-Exact :
      (ctx : Context env report) (type : Text) (r : Prepared nu)
      → Exact
          (PreparedEnds nu (EvaluationEnds env report) (some (ctx.engine_state, r)))
          (run_prepared env report ctx message type r)
  unfolding run_prepared
  run_prepared-Exact ctx type (failed e) = Exact-of_Completes _ (
      Completes-bind _ _ _ _ (handle_execute_error-Completes ctx type e)
        (λ u _. Completes-return _ _ tt))
  run_prepared-Exact ctx type (Execute.evaluate script) =
      evaluate-Exact env w ctx.engine_state script (ResultEnds env report ctx.engine_state) _
        (λ stack r. conclude-Exact ctx type (stack, r))

  execute_cell-Completes :
      (code name : Text) (ctx : Context env report) (engine : nu.EngineState) (r : Prepared nu)
      → execute nu code ctx.engine_state ctx.stack name ≡ some (engine, r)
      → Completes
          (λ c. c ≡ (record ctx { engine_state = engine }, r))
          (execute_cell env report code name ctx)
  unfolding execute_cell
  execute_cell-Completes code name ctx engine r e = record {
    apply = λ p k. (_, p, rw (e, execute_cell), k, refl);
  }

  execute_cell-none :
      (code name : Text) (ctx : Context env report) (p : Process J)
      → execute nu code ctx.engine_state ctx.stack name ≡ none
      → execute_cell env report code name ctx p ≡ none
  unfolding execute_cell
  execute_cell-none code name ctx p e = rw (e, execute_cell) refl

  abbrev finish : Text → Context env report × Prepared nu → M J (Context env report)
  finish type (ctx, prepared) = run_prepared env report ctx message type prepared >>= λ ctx.
      return (record ctx { engine_state = nu.reset_signals ctx.engine_state })

  cell-Exact :
      (type code name : Text) (entered : Context env report)
      → Exact
          (PreparedEnds nu
            (EvaluationEnds env report)
            (execute nu code entered.engine_state entered.stack name))
          (execute_cell env report code name entered >>= finish type)
  cell-Exact type code name entered =
      elim (Option-cases (execute nu code entered.engine_state entered.stack name)) [
        | inl e ↦
            Exact-panic _ _
              (subst (λ o. PreparedEnds nu (EvaluationEnds env report) o → ⊥) (sym e) (λ h. h))
              (λ p.
                bind-none (execute_cell env report code name entered) (finish type) p
                  (execute_cell-none code name entered p e))
        | inr ((engine, r), e) ↦
            subst
              (λ o.
                Exact (PreparedEnds nu (EvaluationEnds env report) o)
                  (execute_cell env report code name entered >>= finish type))
              (sym e)
              (Exact-known _ _ _ (finish type) (execute_cell-Completes code name entered engine r e)
                (Exact-then _ _ _
                  (run_prepared-Exact (record entered { engine_state = engine }) type r)
                  (λ c. Completes-return _ _ tt)))
      ]

  -- The rest of `handle_execute_request`, from the entry of the cell on.
  abbrev pub run_cell : Text → Text → Context env report → M J (Context env report)
  run_cell type code ctx =
      let (name, entered) = enter_cell env report message ctx in
      execute_cell env report code name entered >>= finish type

  pub run_cell-Exact :
      (type code : Text) (ctx : Context env report)
      → Exact (CellEnds env report message code ctx) (run_cell type code ctx)
  unfolding execute_cell
  run_cell-Exact type code ctx =
      let (name, entered) = enter_cell env report message ctx in
      subst (λ P. Exact P (run_cell type code ctx))
        (execute-CodeEnds nu (EvaluationEnds env report) code name entered.engine_state
          entered.stack)
        (cell-Exact type code name entered)
