-- ===== src/Nu/Commands/Queue.antt =====
-- The commands of a cell write to the iopub queue alone.
use nu_jupyter_kernel.Prelude.{◌≡◌, refl, List, Option, none, some, All, All-append, arith}
use nu_jupyter_kernel.Prelude.Text.{Text}
use nu_jupyter_kernel.Nu.{
  Env, Script, done, external, display, print, PipelineData, Result, ok, err, KonstData, Sent,
  iopub_queue,
}
use nu_jupyter_kernel.Nu.External
use nu_jupyter_kernel.Nu.Render.{PipelineRender, RenderError}
use nu_jupyter_kernel.Nu.Commands.{
  run_display, publish, print_rendered, print_piped, run_print, evaluate,
}
use nu_jupyter_kernel.Outbox.{M, ◌>>=◌, return}
use nu_jupyter_kernel.Outbox.Sends.{
  Sends, Sends-quiet, Sends-return, Sends-bind, Sends-imp, Sends-compose, Sends-send,
}

abbrev pub OnQueue : {J : Type 0} → List (Sent J) → Type 0
OnQueue = All (λ s. s.route ≡ iopub_queue)

module _ {J : Type 0} where
  OnQueue-bind :
      {A B : Type 0} (s : M J A) (f : A → M J B)
      → Sends (λ _. OnQueue) s
      → ((a : A) → Sends (λ _. OnQueue) (f a))
      → Sends (λ _. OnQueue) (s >>= f)
  OnQueue-bind s f hs hf =
      Sends-bind (λ _. OnQueue) (λ _. OnQueue) s f hs
        λ a xs h. Sends-imp (λ _. OnQueue) _ (f a) (λ b ys k. All-append _ xs ys h k) (hf a)

  OnQueue-return : {A : Type 0} (a : A) → Sends (λ _. OnQueue) (return {J = J} a)
  OnQueue-return a = Sends-return _ a tt

module _ (env : Env) where
  open env use {nu, J, decls}

  publish-OnQueue :
      (r : PipelineRender) (konst : Result nu.ShellError KonstData)
      → Sends (λ _. OnQueue) (publish env r konst)
  unfolding publish
  publish-OnQueue r (err e) = OnQueue-return _
  publish-OnQueue r (ok konst) =
      OnQueue-bind _ _ (Sends-compose env _ _ _ _ _ (λ m _ _ _ _. tt)) λ m.
        OnQueue-bind _ _ (Sends-send env _ iopub_queue m (λ frames. (refl, tt)))
          λ u. OnQueue-return _

  print_rendered-OnQueue :
      (r : nu.Stack × Result (RenderError nu.ShellError) PipelineRender)
      → Sends (λ _. OnQueue) (print_rendered env r)
  unfolding print_rendered
  print_rendered-OnQueue (stack, err e) = Sends-quiet _ _ (λ p a p' e. cc)
  print_rendered-OnQueue (stack, ok r) =
      OnQueue-bind _ _ (publish-OnQueue r (nu.get_konst stack)) (λ b. OnQueue-return _)

  print_piped-OnQueue :
      (engine : nu.EngineState) (stack : nu.Stack) (piped : Option (PipelineData nu.Value))
      (mime : Option (Option Text))
      → Sends (λ _. OnQueue) (print_piped env engine stack piped mime)
  unfolding print_piped
  print_piped-OnQueue engine stack none mime = OnQueue-return _
  print_piped-OnQueue engine stack (some piped) none = OnQueue-return _
  print_piped-OnQueue engine stack (some piped) (some mime) = print_rendered-OnQueue _

  run_print-OnQueue :
      (engine : nu.EngineState) (stack : nu.Stack) (input : PipelineData nu.Value)
      (arg : Option nu.Value) (format : Option Text)
      → Sends (λ _. OnQueue) (run_print env engine stack input arg format)
  unfolding run_print
  run_print-OnQueue engine stack input arg format = print_piped-OnQueue engine stack _ _

  run_display-OnQueue : (format : Text) → Sends (λ _. OnQueue) (run_display env format)
  unfolding run_display
  run_display-OnQueue format = Sends-quiet _ _ (λ p a p' e. (ground arith, tt))

  pub evaluate-OnQueue :
      (engine : nu.EngineState) (script : Script nu.Stack nu.ShellError nu.Value)
      → Sends (λ _. OnQueue) (evaluate env engine script)
  unfolding evaluate
  evaluate-OnQueue engine (done stack result) = OnQueue-return _
  evaluate-OnQueue engine (external k) = record {
    apply = λ p a p' e.
        (evaluate-OnQueue engine k).apply (record p { external = External.run p.external }) a p' e;
  }
  evaluate-OnQueue engine (display format k) =
      OnQueue-bind _ _ (run_display-OnQueue format) (λ b. evaluate-OnQueue engine (k b))
  evaluate-OnQueue engine (print stack input arg format k) =
      OnQueue-bind _ _ (run_print-OnQueue engine stack input arg format)
        (λ r. evaluate-OnQueue engine (k r.0 r.1))
