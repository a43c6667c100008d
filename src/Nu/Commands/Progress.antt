-- ===== src/Nu/Commands/Progress.antt =====
-- When the evaluation of a cell, and the rendering of what it prints and gives, ends without a panic.
use nu_jupyter_kernel.Prelude.{
  ◌≡◌, refl, ap, ◌⊎◌, inl, inr, Option, none, some, Bool, true, false, Option-cases,
}
use nu_jupyter_kernel.Prelude.Text.{Text}
use nu_jupyter_kernel.Messages.Content.{Writes}
use nu_jupyter_kernel.Nu.{
  Nu, Env, Script, done, external, display, print, PipelineData, Result, ok, err, KonstData,
  iopub_queue, FormatDeclIds,
}
use nu_jupyter_kernel.Nu.External
use nu_jupyter_kernel.Nu.Render.{PipelineRender, RenderError, render, plain}
use nu_jupyter_kernel.Nu.Render.Formats.{render-plain, render_fails_iff, Result-cases}
use nu_jupyter_kernel.Nu.Commands.{
  to_render, format_mime, run_display, publish, print_rendered, print_piped, run_print, evaluate,
}
use nu_jupyter_kernel.Outbox.{M, ◌>>=◌}
use nu_jupyter_kernel.Outbox.Completes.{
  Completes, Completes-return, Completes-bind, Completes-compose, Completes-send,
}
use nu_jupyter_kernel.Outbox.Exact.{
  Exact, Exact-panic, Exact-both, Exact-known, Exact-assoc, bind-none,
}

abbrev is_ok : {E A : Type 0} → Result E A → Bool
is_ok (ok a) = true
is_ok (err e) = false

abbrev is_some : {A : Type 0} → Option A → Bool
is_some none = false
is_some (some a) = true

module _ (nu : Nu) (decls : FormatDeclIds nu.DeclId) where
  abbrev Outcome : Type 0
  Outcome = Result nu.ShellError (PipelineData nu.Value)

  -- The pipeline data has a value, of which `to text` makes text.
  abbrev pub Renderable : nu.EngineState → nu.Stack → PipelineData nu.Value → Type 0
  Renderable engine stack d =
      (v : nu.Value) × (nu.into_value d ≡ ok v)
      × (t : Text) × ((plain nu v decls engine stack).1 ≡ ok t)

  -- What `nuju print` is to render is renderable, and what follows it holds of the stack and of
  -- whether it printed.
  abbrev PrintEnds :
      nu.EngineState
      → nu.Stack
      → Option (PipelineData nu.Value)
      → Option (Option Text)
      → (nu.Stack → Bool → Type 0)
      → Type 0
  PrintEnds engine stack none mime K = K stack false
  PrintEnds engine stack (some piped) none K = K stack false
  PrintEnds engine stack (some piped) (some mime) K =
      Renderable engine stack piped
      × K (render nu piped engine stack decls mime).0
          (is_ok (nu.get_konst (render nu piped engine stack decls mime).0))

  -- Everything that a script prints is renderable, and what follows it holds of its outcome.
  abbrev pub ScriptEnds :
      nu.EngineState
      → Script nu.Stack nu.ShellError nu.Value
      → (nu.Stack → Outcome → Type 0)
      → Type 0
  ScriptEnds engine (done stack result) K = K stack result
  ScriptEnds engine (external k) K = ScriptEnds engine k K
  ScriptEnds engine (display format k) K = ScriptEnds engine (k (is_some (nu.guess_mime format))) K
  ScriptEnds engine (print stack input arg format k) K =
      PrintEnds engine stack (to_render input arg) (format_mime nu format)
        (λ stack printed. ScriptEnds engine (k stack printed) K)

  pub render-cases :
      (engine : nu.EngineState) (stack : nu.Stack) (d : PipelineData nu.Value)
      (filter : Option Text)
      → (Renderable engine stack d
          × (r : PipelineRender) × ((render nu d engine stack decls filter).1 ≡ ok r))
        ⊎ ((Renderable engine stack d → ⊥)
            × (e : RenderError nu.ShellError) × ((render nu d engine stack decls filter).1 ≡ err e))
  render-cases engine stack d filter = elim (Result-cases (nu.into_value d)) [
    | inl (x, bad) ↦ inr (
      λ h. cc (bad, h.1),
      RenderError.into_value x,
      (render_fails_iff nu engine decls d stack filter (RenderError.into_value x)).1
          (inl (x, bad, refl)),
    )
    | inr (v, good) ↦ elim (Result-cases (plain nu v decls engine stack).1) [
      | inl (e, failed) ↦ inr (
        λ h.
            let same : v ≡ h.0 = cc (good, h.1) in
            cc (failed, h.3, ap (λ v. (plain nu v decls engine stack).1) same),
        e,
        (render_fails_iff nu engine decls d stack filter e).1 (inr (v, good, failed)),
      )
      | inr (t, printed) ↦
          let (r, e, _) = render-plain nu engine decls d stack filter v t good printed in
          inl ((v, good, t, printed), r, e)
    ]
  ]

module _ (env : Env) (w : Writes env.serde) where
  open env use {nu, J, decls}

  publish-Completes :
      (r : PipelineRender) (konst : Result nu.ShellError KonstData)
      → Completes (λ b. b ≡ is_ok konst) (publish env r konst)
  unfolding publish
  publish-Completes r (err e) = Completes-return _ _ refl
  publish-Completes r (ok konst) = Completes-bind _ _ _ _ (Completes-compose env _ _ _ _) λ m _.
      Completes-bind _ _ _ _ (Completes-send env iopub_queue m w) λ u _. Completes-return _ _ refl

  print_rendered-Completes :
      (r : nu.Stack × Result (RenderError nu.ShellError) PipelineRender) (out : PipelineRender)
      → r.1 ≡ ok out
      → Completes (λ b. b ≡ (r.0, is_ok (nu.get_konst (r.0)))) (print_rendered env r)
  unfolding print_rendered
  print_rendered-Completes (stack, err e) out h = cc
  print_rendered-Completes (stack, ok r) out h =
      Completes-bind _ _ _ _ (publish-Completes r (nu.get_konst stack))
        (λ b same. Completes-return _ _ (ap (λ b. (stack, b)) same))

  print_rendered-none :
      (r : nu.Stack × Result (RenderError nu.ShellError) PipelineRender)
      (e : RenderError nu.ShellError) (p : _)
      → r.1 ≡ err e
      → print_rendered env r p ≡ none
  unfolding print_rendered
  print_rendered-none (stack, err x) e p h = refl
  print_rendered-none (stack, ok r) e p h = cc

  run_display-Completes :
      (format : Text) → Completes (λ b. b ≡ is_some (nu.guess_mime format)) (run_display env format)
  unfolding run_display
  run_display-Completes format = record {
    apply = λ p k. elim (Option-cases (nu.guess_mime format)) [
      | inl e ↦ (false, p, rw (e, run_display), k, rw e refl)
      | inr (m, e) ↦ (
        true,
        record p { render_filter = some m },
        rw (e, run_display),
        record { key = k.key; is_set = k.is_set },
        rw e refl,
      )
    ];
  }

  print_piped-Exact :
      {B : Type 0} (engine : nu.EngineState) (stack : nu.Stack)
      (piped : Option (PipelineData nu.Value)) (mime : Option (Option Text))
      (K : nu.Stack → Bool → Type 0) (f : nu.Stack × Bool → M J B)
      → ((stack : nu.Stack) (b : Bool) → Exact (K stack b) (f (stack, b)))
      → Exact
          (PrintEnds nu decls engine stack piped mime K)
          (print_piped env engine stack piped mime >>= f)
  unfolding print_piped
  print_piped-Exact engine stack none mime K f h = h stack false
  print_piped-Exact engine stack (some piped) none K f h = h stack false
  print_piped-Exact engine stack (some piped) (some mime) K f h =
      elim (render-cases nu decls engine stack piped mime) [
        | inl (renderable, r, e) ↦
            Exact-both _ _ _ renderable
              (Exact-known _ _ _ f (print_rendered-Completes _ r e) (h _ _))
        | inr (not_renderable, e, failed) ↦
            Exact-panic _ _ (λ x. not_renderable x.0)
              (λ p.
                bind-none (print_piped env engine stack (some piped) (some mime)) f p
                  (print_rendered-none (render nu piped engine stack decls mime) e p failed))
      ]

  -- What follows an evaluation panics exactly if its condition fails: then so does the whole.
  pub evaluate-Exact :
      {B : Type 0} (engine : nu.EngineState) (script : Script nu.Stack nu.ShellError nu.Value)
      (K : nu.Stack → Outcome nu decls → Type 0) (f : nu.Stack × Outcome nu decls → M J B)
      → ((stack : nu.Stack) (r : Outcome nu decls) → Exact (K stack r) (f (stack, r)))
      → Exact (ScriptEnds nu decls engine script K) (evaluate env engine script >>= f)
  unfolding evaluate run_print
  evaluate-Exact engine (done stack result) K f h = h stack result
  evaluate-Exact engine (external k) K f h = record {
    apply = λ p key.
        (evaluate-Exact engine k K f h).apply (record p { external = External.run p.external })
          (record { key = key.key; is_set = key.is_set });
  }
  evaluate-Exact engine (display format k) K f h =
      Exact-assoc _ (run_display env format) (λ b. evaluate env engine (k b)) f
        (Exact-known _ _ _ _ (run_display-Completes format) (evaluate-Exact engine (k _) K f h))
  evaluate-Exact engine (print stack input arg format k) K f h =
      Exact-assoc _ (run_print env engine stack input arg format)
        (λ r. evaluate env engine (k r.0 r.1)) f
        (print_piped-Exact engine stack (to_render input arg) (format_mime nu format)
          (λ stack printed. ScriptEnds nu decls engine (k stack printed) K)
          (λ r. evaluate env engine (k r.0 r.1) >>= f)
          (λ stack printed. evaluate-Exact engine (k stack printed) K f h))
