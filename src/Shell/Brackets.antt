-- ===== src/Shell/Brackets.antt =====
-- One request is answered once, between a busy and an idle status.
use nu_jupyter_kernel.Prelude.{
  ℕ, ◌+◌, ◌≡◌, refl, ap, List, [], ◌∷◌, ◌++◌, Option, some, arith, All, All-append, Bool-cases, inl,
  inr,
}
use nu_jupyter_kernel.Prelude.Text.{Text}
use nu_jupyter_kernel.Prelude.Flow.{Flow}
use nu_jupyter_kernel.Messages.{Header}
use nu_jupyter_kernel.Messages.Content.{OutgoingContent}
use nu_jupyter_kernel.Messages.Iopub.{IopubBroadcast, Status, status, busy, idle}
use nu_jupyter_kernel.Messages.Shell.{ShellRequest, ShellReply, ExecuteRequest, reply_type}
use nu_jupyter_kernel.Nu.{
  Env, Process, Result, ok, err, PipelineData, Route, Sent, shell_socket, control_socket,
  iopub_queue,
}
use nu_jupyter_kernel.Nu.Render.{PipelineRender, RenderError}
use nu_jupyter_kernel.Nu.Execute.{ExecuteError, Prepared, failed, shell}
use nu_jupyter_kernel.Nu.Execute
use nu_jupyter_kernel.Nu.Commands.Queue.{OnQueue, evaluate-OnQueue}
use nu_jupyter_kernel.Outbox.{M, ◌>>=◌, return, unwrap, compose, send}
use nu_jupyter_kernel.Outbox.Sends.{
  Sends, Sends-quiet, Sends-return, Sends-bind, Sends-imp, Sends-unwrap, Sends-compose, Sends-send,
}
use nu_jupyter_kernel.Shell.{
  Report, Request, Context, send_status, send_reply, broadcast, handle_kernel_info_request,
  handle_is_complete_request, handle_execute_error, show_result, render_result,
  handle_execute_results, conclude, run_prepared, take_filter,
}
use nu_jupyter_kernel.Shell.Loop.{
  handle_execute_request, dispatch, serve, apply_external, execute_cell,
}

-- The messages to the shell socket.
abbrev pub count_route : Route → ℕ
count_route shell_socket = 1
count_route control_socket = 0
count_route iopub_queue = 0

abbrev pub replies : {J : Type 0} → List (Sent J) → ℕ
replies [] = 0
replies (s ∷ xs) = count_route s.route + replies xs

replies-append : {J : Type 0} (xs ys : List (Sent J)) → replies (xs ++ ys) ≡ replies xs + replies ys
replies-append [] ys = omega arith
replies-append (s ∷ xs) ys = omega (arith, replies-append xs ys)

module _ (env : Env) (report : Report env.nu) (message : Request env report) where
  open env use {nu, J, serde}

  -- A message to the shell socket goes to the sender of the request, under its header.
  abbrev pub Answering : Sent J → Type 0
  Answering s =
      s.route ≡ shell_socket
      → (s.message.zmq_identities ≡ message.zmq_identities)
        × (s.message.parent_header ≡ some message.header)

  abbrev pub Answers : ℕ → List (Sent J) → Type 0
  Answers n xs = (replies xs ≡ n) × All Answering xs

  abbrev pub IsStatus : Status → Sent J → Type 0
  IsStatus s x =
      (x.route ≡ iopub_queue)
      × (x.message.content ≡ OutgoingContent.iopub (status s))
      × (x.message.parent_header ≡ some message.header)

  Answers-append :
      (m n : ℕ) (xs ys : List (Sent J)) → Answers m xs → Answers n ys → Answers (m + n) (xs ++ ys)
  Answers-append m n xs ys h k =
      (omega (arith, replies-append xs ys), All-append Answering xs ys h.1 k.1)

  -- The chain rule for steps that answer m and n times.
  Answers-bind :
      {A B : Type 0} (m n : ℕ) (s : M J A) (f : A → M J B)
      → Sends (λ _. Answers m) s
      → ((a : A) → Sends (λ _. Answers n) (f a))
      → Sends (λ _. Answers (m + n)) (s >>= f)
  Answers-bind m n s f hs hf =
      Sends-bind (λ _. Answers m) (λ _. Answers (m + n)) s f hs
        λ a xs h. Sends-imp (λ _. Answers n) _ (f a) (λ b ys k. Answers-append m n xs ys h k) (hf a)

  Answers-return : {A : Type 0} (a : A) → Sends (λ _. Answers 0) (return {J = J} a)
  Answers-return a = Sends-return _ a (refl, tt)

  Answers-unwrap : {E A : Type 0} (r : Flow E A) → Sends {J = J} (λ _. Answers 0) (unwrap r)
  Answers-unwrap r = Sends-unwrap _ r (λ a e. (refl, tt))

  -- A broadcast answers nothing.
  pub broadcast-Answers :
      (ids : List _) (type : Text) (parent : Option Header) (content : IopubBroadcast)
      → Sends
          (λ _. Answers 0)
          (compose env ids type parent (OutgoingContent.iopub content) >>= λ m.
            send env iopub_queue m)
  broadcast-Answers ids type parent content =
      Answers-bind 0 0 _ _ (Sends-compose env _ ids type parent _ (λ m _ _ _ _. (refl, tt)))
        (λ m. Sends-send env _ iopub_queue m (λ frames. (refl, ((λ e. cc), tt))))

  send_reply-Answers :
      (type : Text) (reply : ShellReply J)
      → Sends (λ _. Answers 1) (send_reply env report message type reply)
  unfolding send_reply
  send_reply-Answers type reply =
      Sends-bind
        (λ m xs.
          (xs ≡ [])
          × (m.zmq_identities ≡ message.zmq_identities)
          × (m.parent_header ≡ some message.header))
        _ _ _ (Sends-compose env _ _ type _ _ (λ m e1 _ e2 _. (refl, e1, e2)))
        λ m xs h.
          Sends-send env _ shell_socket m (λ frames. rw (h.0) (refl, ((λ e. (h.1, h.2)), tt)))

  OnQueue-Answers : (xs : List (Sent J)) → OnQueue xs → Answers 0 xs
  OnQueue-Answers [] h = (refl, tt)
  OnQueue-Answers (x ∷ xs) h =
      let ih = OnQueue-Answers xs h.1 in
      (omega (arith, ap count_route h.0, ih.0), ((λ e. cc), ih.1))

  handle_execute_error-Answers :
      (ctx : Context env report) (type : Text) (e : ExecuteError nu)
      → Sends (λ _. Answers 1) (handle_execute_error env report ctx message type e)
  unfolding handle_execute_error broadcast
  handle_execute_error-Answers ctx type e =
      Answers-bind 0 1 _ _ (broadcast-Answers _ _ _ _) (λ u. send_reply-Answers type _)

  show_result-Answers :
      (count : ℕ) (r : nu.Stack × Result (RenderError nu.ShellError) PipelineRender)
      → Sends (λ _. Answers 0) (show_result env report message count r)
  unfolding show_result broadcast
  show_result-Answers count (stack, err e) = Sends-quiet _ _ (λ p a p' e. cc)
  show_result-Answers count (stack, ok r) =
      Answers-bind 0 0 _ _ (broadcast-Answers _ _ _ _) (λ u. Answers-return stack)

  take_filter-Answers : Sends (λ _. Answers 0) (take_filter {J = J})
  take_filter-Answers = Sends-quiet _ _ (λ p a p' e. (cc, (refl, tt)))

  pub render_result-Answers :
      (ctx : Context env report) (count : ℕ) (output : PipelineData nu.Value)
      → Sends (λ _. Answers 0) (render_result env report ctx message count output)
  unfolding render_result
  render_result-Answers ctx count output = elim (Bool-cases (nu.is_nothing output)) [
    | inl e ↦ rw (e, render_result) (Answers-return ctx.stack)
    | inr e ↦
        rw (e, render_result)
          (Answers-bind 0 0 _ _ take_filter-Answers (λ f. show_result-Answers count _))
  ]

  conclude-Answers :
      (ctx : Context env report) (type : Text)
      (r : nu.Stack × Result nu.ShellError (PipelineData nu.Value))
      → Sends (λ _. Answers 1) (conclude env report ctx message type r)
  unfolding conclude handle_execute_results
  conclude-Answers ctx type (stack, ok output) =
      Answers-bind 0 1 _ _ (render_result-Answers (record ctx { stack = stack }) _ output)
        λ s. Answers-bind 1 0 _ _ (send_reply-Answers type _) (λ u. Answers-return _)
  conclude-Answers ctx type (stack, err e) =
      Answers-bind 1 0 _ _
        (handle_execute_error-Answers (record ctx { stack = stack }) type (shell e))
        (λ u. Answers-return _)

  run_prepared-Answers :
      (ctx : Context env report) (type : Text) (r : Prepared nu)
      → Sends (λ _. Answers 1) (run_prepared env report ctx message type r)
  unfolding run_prepared
  run_prepared-Answers ctx type (failed e) =
      Answers-bind 1 0 _ _ (handle_execute_error-Answers ctx type e) (λ u. Answers-return _)
  run_prepared-Answers ctx type (Execute.evaluate script) =
      Answers-bind 0 1 _ _
        (Sends-imp _ _ _ (λ a xs h. OnQueue-Answers xs h)
          (evaluate-OnQueue env ctx.engine_state script))
        (λ r. conclude-Answers ctx type r)

  pub apply_external-Answers :
      (ctx : Context env report) → Sends (λ _. Answers 0) (apply_external env report ctx)
  unfolding apply_external
  apply_external-Answers ctx = Sends-quiet _ _ (λ p a p' e. (ground arith, (refl, tt)))

  pub execute_cell-Answers :
      (code name : Text) (ctx : Context env report)
      → Sends (λ _. Answers 0) (execute_cell env report code name ctx)
  unfolding execute_cell
  execute_cell-Answers code name ctx = Sends-quiet _ _ (λ p a p' e. (ground arith, (refl, tt)))

  handle_execute_request-Answers :
      (request : ExecuteRequest J) (ctx : Context env report)
      → Sends (λ _. Answers 1) (handle_execute_request env report message request ctx)
  unfolding handle_execute_request
  handle_execute_request-Answers request ctx =
      Answers-bind 0 1 _ _ (Answers-unwrap (reply_type message.header.msg_type)) λ type.
        Answers-bind 0 1 _ _ (apply_external-Answers ctx) λ entered.
          Answers-bind 0 1 _ _ (execute_cell-Answers request.code _ _)
            λ r. Answers-bind 1 0 _ _ (run_prepared-Answers r.0 type r.1) (λ c. Answers-return _)

  dispatch-Answers :
      (request : ShellRequest J) (ctx : Context env report)
      → Sends (λ _. Answers 1) (dispatch env report message request ctx)
  unfolding dispatch handle_kernel_info_request handle_is_complete_request
  dispatch-Answers ShellRequest.kernel_info ctx =
      Answers-bind 1 0 _ _
        (Answers-bind 0 1 _ _ (Answers-unwrap (reply_type message.header.msg_type))
          (λ type. send_reply-Answers type _))
        (λ u. Answers-return ctx)
  dispatch-Answers (ShellRequest.execute request) ctx = handle_execute_request-Answers request ctx
  dispatch-Answers (ShellRequest.is_complete request) ctx =
      Answers-bind 1 0 _ _
        (Answers-bind 0 1 _ _ (Answers-unwrap (reply_type message.header.msg_type))
          (λ type. send_reply-Answers type _))
        (λ u. Answers-return ctx)

  send_status-IsStatus :
      (s : Status)
      → Sends
          (λ _ xs. (x : Sent J) × (xs ≡ x ∷ []) × IsStatus s x)
          (send_status env report message s)
  unfolding send_status
  send_status-IsStatus s =
      Sends-bind
        (λ m xs.
          (xs ≡ [])
          × (m.content ≡ OutgoingContent.iopub (status s))
          × (m.parent_header ≡ some message.header))
        _ _ _ (Sends-compose env _ _ _ _ _ (λ m _ _ e1 e2. (refl, e2, e1)))
        λ m xs h. Sends-send env _ iopub_queue m (λ frames. rw (h.0) (_, refl, (refl, h.1, h.2)))

  -- The messages of one request.
  pub record Served (xs : List (Sent J)) : Type 0 where
    pub first : Sent J
    pub middle : List (Sent J)
    pub last : Sent J
    pub order : xs ≡ first ∷ (middle ++ last ∷ [])
    pub is_busy : IsStatus busy first
    pub is_idle : IsStatus idle last
    pub answered : Answers 1 middle

  serve-Sends : (ctx : Context env report) → Sends (λ _. Served) (serve env report message ctx)
  unfolding serve
  serve-Sends ctx = Sends-bind _ _ _ _ (send_status-IsStatus busy) λ u xs first.
      Sends-bind (λ _. Answers 1) _ _ _ (dispatch-Answers message.content ctx)
        λ c ys middle. Sends-bind _ _ _ _ (send_status-IsStatus idle) λ v zs last.
          Sends-return _ c (record {
            first = first.0;
            middle = ys;
            last = last.0;
            order = rw (first.1, last.1);
            is_busy = first.2;
            is_idle = last.2;
            answered = middle;
          })

  -- Where a request is served to the end, the kernel adds to what it has sent: a busy status,
  -- messages of which exactly one goes to the shell socket, to the request's sender and under the
  -- request's header, and an idle status; both statuses are on the queue under that header.
  pub serve-Served :
      (ctx ctx' : Context env report) (p p' : Process J)
      → serve env report message ctx p ≡ some (ctx', p')
      → (xs : List (Sent J)) × (p'.sent ≡ p.sent ++ xs) × Served xs
  serve-Served ctx ctx' p p' e = (serve-Sends ctx).apply p ctx' p' e
