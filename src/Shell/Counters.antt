-- ===== src/Shell/Counters.antt =====
-- The execution counter: what a reply to an execute request says, and what it does to the cell.
use mathlib.Core.List.{append_assoc, append-nil}
use mathlib.Core.Path.{subst}
use nu_jupyter_kernel.Prelude.{
  ℕ, ◌+◌, ◌%◌, ◌≡◌, refl, sym, ap, ◌∙◌, ◌⊎◌, inl, inr, List, [], ◌∷◌, ◌++◌, some, arith,
}
use nu_jupyter_kernel.Prelude.Text.{Text, lit}
use nu_jupyter_kernel.Cell
use nu_jupyter_kernel.Cell.{usize_mod}
use nu_jupyter_kernel.Messages.Content.{OutgoingContent}
use nu_jupyter_kernel.Messages.Shell.{
  ShellRequest, ShellReply, ShellReplyOk, ExecuteRequest, reply_type,
}
use nu_jupyter_kernel.Nu.{Env, Process, Result, ok, err, PipelineData, Sent, shell_socket}
use nu_jupyter_kernel.Nu.Execute
use nu_jupyter_kernel.Nu.Execute.{ExecuteError, Prepared, failed, shell}
use nu_jupyter_kernel.Nu.Commands.Queue.{evaluate-OnQueue}
use nu_jupyter_kernel.Outbox.{M, ◌>>=◌, return}
use nu_jupyter_kernel.Outbox.Sends.{
  Sends, Sends-quiet, Sends-return, Sends-bind, Sends-imp, Sends-unwrap, Sends-compose, Sends-send,
}
use nu_jupyter_kernel.Shell.{
  Report, Request, Context, send_reply, broadcast, error_count, handle_execute_error,
  handle_execute_results, conclude, run_prepared,
}
use nu_jupyter_kernel.Shell.Loop.{handle_execute_request, apply_external, enter_cell, execute_cell}
use nu_jupyter_kernel.Shell.Brackets.{render_result-Answers, broadcast-Answers}

module _ (env : Env) (report : Report env.nu) (message : Request env report) where
  open env use {nu, J, serde}

  -- The last of the messages is this reply.
  abbrev pub EndsWith : ShellReply J → List (Sent J) → Type 0
  EndsWith reply xs =
      (front : List (Sent J)) × (x : Sent J) × (xs ≡ front ++ x ∷ [])
      × (x.route ≡ shell_socket)
      × (x.message.content ≡ OutgoingContent.shell reply)

  abbrev pub ran_reply : ℕ → ShellReply J
  ran_reply count = ShellReply.ok (
      ShellReplyOk.execute
        (record { execution_count = count; user_expressions = serde.empty_object }))

  EndsWith-append :
      (reply : ShellReply J) (xs ys : List (Sent J)) → EndsWith reply ys → EndsWith reply (xs ++ ys)
  EndsWith-append reply xs ys h =
      (xs ++ h.0, h.1, ap (λ zs. xs ++ zs) h.2 ∙ sym (append_assoc xs h.0 (h.1 ∷ [])), h.3, h.4)

  send_reply-EndsWith :
      (type : Text) (reply : ShellReply J)
      → Sends (λ _. EndsWith reply) (send_reply env report message type reply)
  unfolding send_reply
  send_reply-EndsWith type reply =
      Sends-bind (λ m xs. (xs ≡ []) × (m.content ≡ OutgoingContent.shell reply)) _ _ _
        (Sends-compose env _ _ type _ _ (λ m _ _ _ e. (refl, e)))
        λ m xs h. Sends-send env _ shell_socket m (λ frames.
          ([], record { route = shell_socket; message = m; frames = frames }, rw (h.0), refl, h.1))

  -- Steps before the reply do not matter.
  EndsWith-bind :
      {A B : Type 0} (P : A → List (Sent J) → Type 0) (Q : B → ShellReply J → Type 0) (s : M J A)
      (f : A → M J B)
      → Sends P s
      → ((a : A) (xs : List (Sent J))
          → P a xs
          → Sends (λ b ys. (reply : ShellReply J) × EndsWith reply ys × Q b reply) (f a))
      → Sends (λ b xs. (reply : ShellReply J) × EndsWith reply xs × Q b reply) (s >>= f)
  EndsWith-bind P Q s f hs hf = Sends-bind P _ s f hs λ a xs before.
      Sends-imp _ _ (f a) (λ b ys h. (h.0, EndsWith-append h.0 xs ys h.1, h.2)) (hf a xs before)

  -- A cell that ran moves on to the next, and the reply has its number; one that failed stays, and
  -- the error has the number that the cell keeps.
  abbrev pub Concluded : Context env report → Context env report → ShellReply J → Type 0
  Concluded ctx ctx' reply =
      ((ctx'.cell ≡ (Cell.success ctx.cell).1) × (reply ≡ ran_reply ctx.cell.execution_counter))
      ⊎ ((ctx'.cell ≡ ctx.cell)
          × ((name : Text) × (value : Text) × (reply
                ≡ ShellReply.error name value []
                    (error_count env report message.content ctx.cell))))

  abbrev Concludes : Context env report → M J (Context env report) → Type 0
  Concludes ctx =
      Sends (λ ctx' xs. (reply : ShellReply J) × EndsWith reply xs × Concluded ctx ctx' reply)

  -- A reply, and then the context that the handler returns.
  reply-Concludes :
      (ctx ctx' : Context env report) (s : M J (Unit {0})) (reply : ShellReply J)
      → Sends (λ _. EndsWith reply) s
      → Concluded ctx ctx' reply
      → Concludes ctx (s >>= λ _. return ctx')
  reply-Concludes ctx ctx' s reply hs h =
      Sends-bind _ _ _ _ hs
        λ u xs e. Sends-return _ ctx' (reply, subst (EndsWith reply) (sym (append-nil xs)) e, h)

  error_reply : Context env report → ExecuteError nu → ShellReply J
  error_reply ctx e =
      ShellReply.error (report.code ctx.engine_state e)
        (lit "Error: " ++ report.fmt ctx.engine_state e) []
        (error_count env report message.content ctx.cell)

  handle_execute_error-EndsWith :
      (ctx : Context env report) (type : Text) (e : ExecuteError nu)
      → Sends
          (λ _. EndsWith (error_reply ctx e))
          (handle_execute_error env report ctx message type e)
  unfolding handle_execute_error broadcast error_reply
  handle_execute_error-EndsWith ctx type e =
      Sends-bind _ _ _ _ (broadcast-Answers env report message _ _ _ _)
        λ u xs _. Sends-imp _ _ _ (λ b ys h. EndsWith-append _ xs ys h) (send_reply-EndsWith type _)

  error-Concludes :
      (ctx : Context env report) (type : Text) (e : ExecuteError nu)
      → Concludes ctx (handle_execute_error env report ctx message type e >>= λ _. return ctx)
  unfolding error_reply
  error-Concludes ctx type e =
      reply-Concludes ctx ctx _ _ (handle_execute_error-EndsWith ctx type e)
        (inr (refl, (_, _, refl)))

  conclude-Concludes :
      (ctx : Context env report) (type : Text)
      (r : nu.Stack × Result nu.ShellError (PipelineData nu.Value))
      → Concludes ctx (conclude env report ctx message type r)
  unfolding conclude handle_execute_results Cell.success
  conclude-Concludes ctx type (stack, ok output) =
      EndsWith-bind _ (Concluded ctx) _ _
        (render_result-Answers env report message (record ctx { stack = stack }) _ output)
        λ s _ _. reply-Concludes ctx _ _ _ (send_reply-EndsWith type _) (inl (refl, refl))
  conclude-Concludes ctx type (stack, err e) =
      error-Concludes (record ctx { stack = stack }) type (shell e)

  run_prepared-Concludes :
      (ctx : Context env report) (type : Text) (r : Prepared nu)
      → Concludes ctx (run_prepared env report ctx message type r)
  unfolding run_prepared
  run_prepared-Concludes ctx type (failed e) = error-Concludes ctx type e
  run_prepared-Concludes ctx type (Execute.evaluate script) =
      EndsWith-bind _ (Concluded ctx) _ _ (evaluate-OnQueue env ctx.engine_state script)
        (λ r _ _. conclude-Concludes ctx type r)

  apply_external-cell :
      (ctx : Context env report)
      → Sends (λ ctx' _. ctx'.cell ≡ ctx.cell) (apply_external env report ctx)
  unfolding apply_external
  apply_external-cell ctx = Sends-quiet _ _ (λ p a p' e. (ground arith, ground arith))

  execute_cell-cell :
      (code name : Text) (ctx : Context env report)
      → Sends (λ r _. r.0.cell ≡ ctx.cell) (execute_cell env report code name ctx)
  unfolding execute_cell
  execute_cell-cell code name ctx = Sends-quiet _ _ (λ p a p' e. (ground arith, ground arith))

  -- The cell and the reply after an execute request, from the counters before it.
  abbrev pub Counts : Cell.Cell → Cell.Cell → ShellReply J → Type 0
  Counts cell cell' reply =
      ((cell'.execution_counter ≡ (cell.execution_counter + 1) % usize_mod)
        × (cell'.retry_counter ≡ 1)
        × (reply ≡ ran_reply cell.execution_counter))
      ⊎ ((cell'.execution_counter ≡ cell.execution_counter)
          × (cell'.retry_counter ≡ (cell.retry_counter + 1) % usize_mod)
          × ((name : Text) × (value : Text) × (reply
                ≡ ShellReply.error name value [] (some cell.execution_counter))))

  counts :
      (request : ExecuteRequest J) (cell entered cell' : Cell.Cell) (reply : ShellReply J)
      → message.content ≡ ShellRequest.execute request
      → entered ≡ (Cell.next_name cell).1
      → ((cell' ≡ (Cell.success entered).1) × (reply ≡ ran_reply entered.execution_counter))
        ⊎ ((cell' ≡ entered)
            × ((name : Text) × (value : Text) × (reply
                  ≡ ShellReply.error name value []
                      (error_count env report message.content entered))))
      → Counts cell cell' reply
  unfolding Cell.next_name Cell.success error_count Cell.execution_count
  counts request cell entered cell' reply is_execute next (inl (moved, said)) = inl (
    ap (λ (c : Cell.Cell). c.execution_counter) moved
        ∙ ap (λ (c : Cell.Cell). (c.execution_counter + 1) % usize_mod) next,
    ap (λ (c : Cell.Cell). c.retry_counter) moved,
    said ∙ ap (λ (c : Cell.Cell). ran_reply c.execution_counter) next,
  )
  counts request cell entered cell' reply is_execute next (inr (kept, (name, value, said))) = inr (
    ap (λ (c : Cell.Cell). c.execution_counter) (kept ∙ next),
    ap (λ (c : Cell.Cell). c.retry_counter) (kept ∙ next),
    (
      name,
      value,
      said
          ∙ ap (λ o. ShellReply.error name value [] o)
              (ap (λ c. error_count env report c entered) is_execute
                ∙ ap (λ (c : Cell.Cell). some c.execution_counter) next),
    ),
  )

  -- An execute request that is handled to the end is answered last with the counter that the cell
  -- had; the counter rises and the attempts start again if the code ran, and otherwise the counter
  -- stays and the attempts rise.
  pub execute-Counts :
      (request : ExecuteRequest J) (ctx ctx' : Context env report) (p p' : Process J)
      → message.content ≡ ShellRequest.execute request
      → handle_execute_request env report message request ctx p ≡ some (ctx', p')
      → (xs : List (Sent J)) × (p'.sent ≡ p.sent ++ xs)
        × ((reply : ShellReply J) × EndsWith reply xs × Counts ctx.cell ctx'.cell reply)
  unfolding handle_execute_request enter_cell
  execute-Counts request ctx ctx' p p' is_execute done =
      Sends.apply
        (EndsWith-bind _ (λ c reply. Counts ctx.cell c.cell reply) _ _
          (Sends-unwrap (λ _ _. Unit {0}) (reply_type message.header.msg_type) (λ a e. tt))
          λ type _ _. EndsWith-bind _ _ _ _ (apply_external-cell ctx) λ c _ same.
            EndsWith-bind _ _ _ _ (execute_cell-cell request.code _ _) λ r _ next.
              Sends-bind _ _ _ _ (run_prepared-Concludes r.0 type r.1) λ c2 ys h. Sends-return _ _ (
                h.0,
                subst (EndsWith h.0) (sym (append-nil ys)) h.1,
                counts request ctx.cell r.0.cell c2.cell h.0 is_execute
                    (next ∙ ap (λ (c : Cell.Cell). (Cell.next_name c).1) same) h.2,
              ))
        p ctx' p' done
