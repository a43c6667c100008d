-- ===== src/Shell/Filter.antt =====
-- What becomes of the filter that `nuju display` sets.
use nu_jupyter_kernel.Prelude.{
  ℕ, ◌≡◌, refl, sym, ap, ◌∙◌, List, Option, some, none, Bool-cases, inl, inr, if◌then◌else◌,
}
use nu_jupyter_kernel.Prelude.Text.{Bytes, Text}
use nu_jupyter_kernel.Messages.{Header, Message}
use nu_jupyter_kernel.Messages.Content.{OutgoingContent}
use nu_jupyter_kernel.Nu.{Env, Process, Route, Result, ok, err, PipelineData}
use nu_jupyter_kernel.Nu.Execute.{ExecuteError}
use nu_jupyter_kernel.Messages.Iopub.{IopubBroadcast}
use nu_jupyter_kernel.Messages.Shell.{ShellReply}
use nu_jupyter_kernel.Messages.Multipart.{into_multipart}
use nu_jupyter_kernel.Nu.Render.{PipelineRender, RenderError}
use nu_jupyter_kernel.Outbox.Sends.{>>=-eq-some, some_pair, pushed}
use nu_jupyter_kernel.Outbox.{M, ◌>>=◌, return, compose, send}
use nu_jupyter_kernel.Shell.{
  Report, Request, Context, take_filter, send_reply, broadcast, handle_execute_error, show_result,
  render_result, handle_execute_results, conclude,
}

-- From every process, a step that returns leaves the filter as `change` makes it.
pub record Leaves {J A : Type 0} (change : Option Text → Option Text) (m : M J A) : Type 0 where
  pub apply :
      (p p' : Process J) (a : A) → m p ≡ some (a, p') → p'.render_filter ≡ change p.render_filter

abbrev pub same : Option Text → Option Text
same f = f

module _ {J : Type 0} where
  Leaves-return : {A : Type 0} (a : A) → Leaves same (return {J = J} a)
  Leaves-return a = record {
    apply = λ p p' b e. let (_, kept) = some_pair e in sym (ap (λ q. q.render_filter) kept);
  }

  Leaves-bind :
      {A B : Type 0} (first then_ : Option Text → Option Text) (m : M J A) (f : A → M J B)
      → Leaves first m
      → ((a : A) → Leaves then_ (f a))
      → Leaves (λ filter. then_ (first filter)) (m >>= f)
  Leaves-bind first then_ m f hm hf = record {
    apply = λ p p'' b e.
        let (a, p', e1, e2) = >>=-eq-some m f p e in
        (hf a).apply p' p'' b e2 ∙ ap then_ (hm.apply p p' a e1);
  }

  Leaves-imp :
      {A : Type 0} (change other : Option Text → Option Text) (m : M J A)
      → ((filter : Option Text) → change filter ≡ other filter)
      → Leaves change m
      → Leaves other m
  Leaves-imp change other m agree h = record {
    apply = λ p p' b e. h.apply p p' b e ∙ agree p.render_filter;
  }

  take_filter-Leaves : Leaves (λ _. none) (take_filter {J = J})
  take_filter-Leaves = record {
    apply = λ p p' b e. let (_, kept) = some_pair e in sym (ap (λ q. q.render_filter) kept);
  }

module _ (env : Env) where
  open env use {nu, J, serde, host}

  compose-Leaves :
      (ids : List Bytes) (type : Text) (parent : Option Header) (content : OutgoingContent J)
      → Leaves same (compose env ids type parent content)
  unfolding compose
  compose-Leaves ids type parent content = record {
    apply = λ p p' b e. let (_, kept) = some_pair e in sym (ap (λ q. q.render_filter) kept);
  }

  send-Leaves : (route : Route) (m : Message J (OutgoingContent J)) → Leaves same (send env route m)
  unfolding send
  send-Leaves route m = record {
    apply = λ p p' b e.
        let (frames, kept) = pushed env route m p (into_multipart serde host p.globals.key m) e in
        sym (ap (λ q. q.render_filter) kept);
  }

  -- What `conclude` makes of the filter.
  unfoldable pub filter_after :
      Result nu.ShellError (PipelineData nu.Value) → Option Text → Option Text
  filter_after (err e) filter = filter
  filter_after (ok output) filter = if nu.is_nothing output then filter else none

  module _ (report : Report nu) (message : Request env report) where
    send_reply-Leaves :
        (type : Text) (reply : ShellReply J)
        → Leaves same (send_reply env report message type reply)
    unfolding send_reply
    send_reply-Leaves type reply =
        Leaves-bind same same _ _ (compose-Leaves _ _ _ _) (λ m. send-Leaves _ m)

    broadcast-Leaves :
        (content : IopubBroadcast) → Leaves same (broadcast env report message content)
    unfolding broadcast
    broadcast-Leaves content =
        Leaves-bind same same _ _ (compose-Leaves _ _ _ _) (λ m. send-Leaves _ m)

    show_result-Leaves :
        (count : ℕ) (r : nu.Stack × Result (RenderError nu.ShellError) PipelineRender)
        → Leaves same (show_result env report message count r)
    unfolding show_result
    show_result-Leaves count (stack, err e) = record { apply = λ p p' b e. cc }
    show_result-Leaves count (stack, ok r) =
        Leaves-bind same same _ _ (broadcast-Leaves _) (λ _. Leaves-return stack)

    render_result-Leaves :
        (ctx : Context env report) (count : ℕ) (output : PipelineData nu.Value)
        → Leaves (filter_after (ok output)) (render_result env report ctx message count output)
    unfolding render_result filter_after
    render_result-Leaves ctx count output = elim (Bool-cases (nu.is_nothing output)) [
      | inl e ↦
          Leaves-imp same _ _ (λ filter. rw e refl)
            (rw (e, render_result) (Leaves-return ctx.stack))
      | inr e ↦
          Leaves-imp (λ _. none) _ _ (λ filter. rw e refl)
            (rw (e, render_result)
              (Leaves-bind (λ _. none) same _ _ take_filter-Leaves
                (λ filter. show_result-Leaves count _)))
    ]

    handle_execute_error-Leaves :
        (ctx : Context env report) (type : Text) (e : ExecuteError nu)
        → Leaves same (handle_execute_error env report ctx message type e)
    unfolding handle_execute_error
    handle_execute_error-Leaves ctx type e =
        Leaves-bind same same _ _ (broadcast-Leaves _) (λ _. send_reply-Leaves type _)

    conclude-Leaves :
        (ctx : Context env report) (type : Text)
        (r : nu.Stack × Result nu.ShellError (PipelineData nu.Value))
        → Leaves (filter_after r.1) (conclude env report ctx message type r)
    unfolding conclude handle_execute_results filter_after
    conclude-Leaves ctx type (stack, err e) =
        Leaves-bind same same _ _ (handle_execute_error-Leaves _ type _) (λ _. Leaves-return _)
    conclude-Leaves ctx type (stack, ok output) =
        Leaves-bind (filter_after (ok output)) same _ _
          (render_result-Leaves (record ctx { stack = stack }) _ output)
          λ s. Leaves-bind same same _ _ (send_reply-Leaves type _) (λ _. Leaves-return _)

    -- Where an evaluation is answered, the filter of `nuju display` is gone exactly if there was a
    -- value to show: after a cell that failed, or whose result is nothing, it is still what it
    -- was.
    pub conclude-filter_after :
        (ctx ctx' : Context env report) (type : Text)
        (r : nu.Stack × Result nu.ShellError (PipelineData nu.Value)) (p p' : Process J)
        → conclude env report ctx message type r p ≡ some (ctx', p')
        → p'.render_filter ≡ filter_after r.1 p.render_filter
    conclude-filter_after ctx ctx' type r p p' e = (conclude-Leaves ctx type r).apply p p' ctx' e
