-- ===== src/Shell/Progress.antt =====
-- When a request that comes in is served to its end.
use mathlib.Core.Path.{subst}
use nu_jupyter_kernel.Prelude.{◌≡◌, refl, sym, List, ◌++◌, none, some, inl, inr}
use nu_jupyter_kernel.Prelude.Text.{Text}
use nu_jupyter_kernel.Prelude.Flow.{Flow}
use nu_jupyter_kernel.Messages.Content.{Writes}
use nu_jupyter_kernel.Messages.Iopub.{Status, busy, idle}
use nu_jupyter_kernel.Messages.Shell.{ShellRequest, reply_type}
use nu_jupyter_kernel.Nu.{Env, Process, Sent}
use nu_jupyter_kernel.Nu.External.Once.{Enters, apply-Enters}
use nu_jupyter_kernel.Outbox.{M, ◌>>=◌, unwrap}
use nu_jupyter_kernel.Outbox.Completes.{
  Completes, Any, HasKey, Completes-return, Completes-bind, Completes-unwrap,
}
use nu_jupyter_kernel.Outbox.Exact.{
  Ending, Exact-of_Completes, Ending-after, Ending-then, bind-none,
}
use nu_jupyter_kernel.Shell.{
  Report, Request, Context, send_status, handle_kernel_info_request, handle_is_complete_request,
}
use nu_jupyter_kernel.Shell.Loop.{handle_execute_request, dispatch, serve, apply_external}
use nu_jupyter_kernel.Shell.Brackets.{Served, serve-Served}
use nu_jupyter_kernel.Shell.Ends.{
  Ends, CellEnds, run_cell, run_cell-Exact, post-Completes, send_reply-Completes,
  send_status-external,
}

module _ (env : Env) (report : Report env.nu) (message : Request env report)
    (w : Writes env.serde) where
  open env use {nu, J}

  module _ (type : Text) (known : reply_type message.header.msg_type ≡ Flow.ok type) where
    request-Ending :
        (code : Text) (ctx : Context env report) (p : Process J)
        → HasKey p
        → Ending
            (Enters nu p.external ctx.engine_state
              (λ engine. CellEnds env report message code (record ctx { engine_state = engine })))
            (apply_external env report ctx >>= run_cell env report message w type code)
            p
    unfolding apply_external
    request-Ending code ctx p k =
        elim (apply-Enters nu p.external ctx.engine_state
          (λ engine. CellEnds env report message code (record ctx { engine_state = engine }))) [
            | inl (external, engine, e, same) ↦
                let ctx' : Context env report = record ctx { engine_state = engine } in
                let p' : Process J = record p { external = external } in
                subst
                  (λ P.
                    Ending P
                      (apply_external env report ctx >>= run_cell env report message w type code) p)
                  (sym same)
                  (Ending-after _ (apply_external env report ctx)
                    (run_cell env report message w type code) p p' ctx'
                    (rw (e, apply_external) refl)
                    ((run_cell-Exact env report message w type code ctx').apply p'
                      (record { key = k.key; is_set = k.is_set })))
            | inr (fails, e) ↦ inr (
              fails,
              bind-none (apply_external env report ctx) (run_cell env report message w type code) p
                  (rw (e, apply_external) refl),
            )
          ]

    reply-Completes :
        {A : Type 0} (f : Text → M J A)
        → Completes Any (f type)
        → Completes Any (unwrap (reply_type message.header.msg_type) >>= f)
    reply-Completes f h =
        Completes-bind (λ t. t ≡ type) Any _ f (Completes-unwrap _ type known)
          (λ t e. subst (λ t. Completes Any (f t)) (sym e) h)

    pub dispatch-Ending :
        (request : ShellRequest J) (ctx : Context env report) (p : Process J)
        → HasKey p
        → Ending
            (Ends env report message request ctx p.external)
            (dispatch env report message request ctx)
            p
    unfolding dispatch handle_kernel_info_request handle_is_complete_request handle_execute_request
    dispatch-Ending ShellRequest.kernel_info ctx p k =
        (Exact-of_Completes _ (
            Completes-bind _ _ _ _
              (reply-Completes _ (send_reply-Completes env report message w type _))
              (λ u _. Completes-return _ ctx tt))).apply
          p k
    dispatch-Ending (ShellRequest.is_complete request) ctx p k =
        (Exact-of_Completes _ (
            Completes-bind _ _ _ _
              (reply-Completes _ (send_reply-Completes env report message w type _))
              (λ u _. Completes-return _ ctx tt))).apply
          p k
    dispatch-Ending (ShellRequest.execute request) ctx p k =
        Ending-after _ (unwrap (reply_type message.header.msg_type)) _ p p type (rw known refl)
          (request-Ending request.code ctx p k)

    send_status-Completes : (s : Status) → Completes Any (send_status env report message s)
    unfolding send_status
    send_status-Completes s = post-Completes env report message w _ _ _ _ _

    pub serve-Ending :
        (ctx : Context env report) (p : Process J)
        → HasKey p
        → Ending
            (Ends env report message message.content ctx p.external)
            (serve env report message ctx)
            p
    unfolding serve
    serve-Ending ctx p k =
        let (u, p', e, k', _) = (send_status-Completes busy).apply p k in
        Ending-after _ (send_status env report message busy) _ p p' u e (
          Ending-then _ (dispatch env report message message.content ctx) _ p'
            (subst
              (λ x.
                Ending (Ends env report message message.content ctx x)
                  (dispatch env report message message.content ctx) p')
              (send_status-external env report message w busy p p' u e)
              (dispatch-Ending message.content ctx p' k'))
            (λ c.
              Completes-bind _ Any _ _ (send_status-Completes idle)
                (λ v _. Completes-return _ c tt)))

    -- A request of a known type is served to its end and answered exactly once between its statuses,
    -- or the kernel panics, where the JSON is written and the key is set. It is served unless it
    -- executes a cell in which the declaration of external commands, just enabled, does not merge,
    -- or the block of a source without errors is shared, or what the cell prints or gives has no
    -- value or no plain text by `to text`; then it panics.
    pub serve_answers :
        (ctx : Context env report) (p : Process J)
        → HasKey p
        → (Ends env report message message.content ctx p.external
            → (ctx' : Context env report) × (p' : Process J) × (serve env report message ctx p
                ≡ some (ctx', p'))
              × ((xs : List (Sent J)) × (p'.sent ≡ p.sent ++ xs) × Served env report message xs))
          × ((Ends env report message message.content ctx p.external → ⊥)
              → serve env report message ctx p ≡ none)
    serve_answers ctx p k = elim (serve-Ending ctx p k) [
      | inl (ends, ctx', p', e, _) ↦ (
        λ h. (ctx', p', e, serve-Served env report message ctx ctx' p p' e),
        λ h. absurd (h ends),
      )
      | inr (fails, e) ↦ (λ h. absurd (fails h), λ h. e)
    ]
