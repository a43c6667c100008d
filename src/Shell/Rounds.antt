-- ===== src/Shell/Rounds.antt =====
-- The loop of the shell channel over a sequence of events.
use mathlib.Core.Path.{subst, fun_ext}
use nu_jupyter_kernel.Prelude.{
  ◌≡◌, refl, sym, ap, ◌∙◌, ◌↔◌, ◌⊎◌, inl, inr, List, [], ◌∷◌, ◌++◌, none, some, false,
}
use nu_jupyter_kernel.Prelude.Text.{Bytes}
use nu_jupyter_kernel.Prelude.Flow.{Flow, panics}
use nu_jupyter_kernel.Messages.Content.{Writes}
use nu_jupyter_kernel.Messages.Wire.{recv_shell}
use nu_jupyter_kernel.Messages.Wire.Variants.{recv_shell-known}
use nu_jupyter_kernel.Nu.{Env, Process}
use nu_jupyter_kernel.Outbox.{M, ◌>>=◌, return}
use nu_jupyter_kernel.Outbox.Completes.{HasKey}
use nu_jupyter_kernel.Outbox.Exact.{Ending, bind-none, bind-some}
use nu_jupyter_kernel.Shell.{Report, Request, Context}
use nu_jupyter_kernel.Shell.Loop.{
  Event, shutdown, closed, received, Next, running, stopped, step, take_in, shut, go, handle, serve,
}
use nu_jupyter_kernel.Shell.Progress.{serve-Ending}
use nu_jupyter_kernel.Shell.Ends.{Ends}

module _ (env : Env) (report : Report env.nu) where
  open env use {J, serde}

  -- Frames on which the loop panics, in a state of the loop: they do not read as a request nor as one
  -- of an unknown type, or they read as a request that cannot be served to its end.
  abbrev pub Breaks : List Bytes → Context env report → Process J → Type 0
  Breaks frames ctx p =
      (recv_shell serde frames ≡ panics)
      ⊎ ((message : Request env report) × (recv_shell serde frames ≡ Flow.ok message)
          × (Ends env report message message.content ctx p.external → ⊥))

  -- Among events there are frames on which the loop panics, in the state that the events before them
  -- lead to.
  abbrev pub BreaksOff :
      Context env report → List Event → Next (Context env report) → Process J → Type 0
  BreaksOff initial events state p =
      (before : List Event) × (frames : List Bytes) × (after : List Event) × (ctx : Context env
        report)
      × (p' : Process J) × (events ≡ before ++ received frames ∷ after)
      × (go env report initial before state p ≡ some (running ctx, p'))
      × Breaks frames ctx p'

  -- The loop ends with a shutdown that is no restart, or with the end of its channel.
  abbrev pub Stops : Event → Type 0
  Stops (shutdown s) = s.restart ≡ false
  Stops closed = Unit {0}
  Stops (received frames) = ⊥

  module _ (w : Writes serde) where
    -- A round of the loop returns, the key still set, or it panics on frames.
    abbrev Round : Context env report → Context env report → Event → Process J → Type 0
    Round initial ctx e p =
        ((state : Next (Context env report)) × (p' : Process J) × (step env report initial e ctx p
            ≡ some (state, p'))
          × HasKey p')
        ⊎ ((frames : List Bytes) × (e ≡ received frames) × Breaks frames ctx p)

    serve-known :
        (frames : List Bytes) (message : Request env report) (ctx : Context env report)
        (p : Process J)
        → recv_shell serde frames ≡ Flow.ok message
        → HasKey p
        → Ending
            (Ends env report message message.content ctx p.external)
            (serve env report message ctx)
            p
    serve-known frames message ctx p e k =
        let (type, typed) = (recv_shell-known serde frames).apply message e in
        serve-Ending env report message w type typed ctx p k

    step-read :
        (initial ctx : Context env report) (frames : List Bytes)
        {r : Flow (Unit {0}) (Request env report)}
        → recv_shell serde frames ≡ r
        → step env report initial (received frames) ctx ≡ take_in env report ctx r
    unfolding step
    step-read initial ctx frames e = ap (take_in env report ctx) e

    step-Breaks :
        (initial ctx : Context env report) (frames : List Bytes) (p : Process J)
        → HasKey p
        → Breaks frames ctx p
        → step env report initial (received frames) ctx p ≡ none
    step-Breaks initial ctx frames p k (inl e) =
        ap (λ (m : M J (Next (Context env report))). m p) (step-read initial ctx frames e)
    step-Breaks initial ctx frames p k (inr (message, e, fails)) =
        elim (serve-known frames message ctx p e k) [
          | inl (ends, _, _, _, _) ↦ absurd (fails ends)
          | inr (_, panicked) ↦
              ap (λ (m : M J (Next (Context env report))). m p) (step-read initial ctx frames e)
              ∙ bind-none (serve env report message ctx) (λ ctx. return (running ctx)) p panicked
        ]

    received-Round :
        (initial ctx : Context env report) (frames : List Bytes) (p : Process J)
        (r : Flow (Unit {0}) (Request env report))
        → HasKey p
        → recv_shell serde frames ≡ r
        → Round initial ctx (received frames) p
    received-Round initial ctx frames p (Flow.ok message) k e =
        elim (serve-known frames message ctx p e k) [
          | inl (_, ctx', p', served, k') ↦ inl (
            running ctx',
            p',
            ap (λ (m : M J (Next (Context env report))). m p) (step-read initial ctx frames e)
                ∙ bind-some (serve env report message ctx) (λ ctx. return (running ctx)) p served,
            k',
          )
          | inr (fails, _) ↦ inr (frames, refl, inr (message, e, fails))
        ]
    received-Round initial ctx frames p (Flow.err x) k e = inl (
      running ctx,
      p,
      ap (λ (m : M J (Next (Context env report))). m p) (step-read initial ctx frames e),
      k,
    )
    received-Round initial ctx frames p panics k e = inr (frames, refl, inl e)

    step-Round :
        (initial ctx : Context env report) (e : Event) (p : Process J)
        → HasKey p
        → Round initial ctx e p
    unfolding step
    step-Round initial ctx (shutdown s) p k = inl (_, p, refl, k)
    step-Round initial ctx closed p k = inl (_, p, refl, k)
    step-Round initial ctx (received frames) p k =
        received-Round initial ctx frames p (recv_shell serde frames) k refl

    go-BreaksOff :
        (initial : Context env report) (events : List Event) (state : Next (Context env report))
        (p : Process J)
        → HasKey p
        → go env report initial events state p ≡ none
        → BreaksOff initial events state p
    unfolding go
    go-BreaksOff initial [] state p k h = cc
    go-BreaksOff initial (e ∷ events) (stopped ctx) p k h = cc
    go-BreaksOff initial (e ∷ events) (running ctx) p k h = elim (step-Round initial ctx e p k) [
      | inl (state, p1, stepped, k1) ↦
          let (before, frames, after, ctx', p', split, reached, breaks) =
            go-BreaksOff initial events state p1 k1 (
              sym
                (bind-some (step env report initial e ctx) (go env report initial events) p stepped)
              ∙ h) in
          (
            e ∷ before,
            frames,
            after,
            ctx',
            p',
            ap (◌∷◌ e) split,
            bind-some (step env report initial e ctx) (go env report initial before) p stepped
                ∙ reached,
            breaks,
          )
      | inr (frames, is_frames, breaks) ↦
          ([], frames, events, ctx, p, ap (λ e. e ∷ events) is_frames, refl, breaks)
    ]

    go-none :
        (initial : Context env report) (before after : List Event) (frames : List Bytes)
        (state : Next (Context env report)) (ctx' : Context env report) (p p' : Process J)
        → HasKey p
        → go env report initial before state p ≡ some (running ctx', p')
        → Breaks frames ctx' p'
        → go env report initial (before ++ received frames ∷ after) state p ≡ none
    unfolding go
    go-none initial [] after frames (stopped ctx) ctx' p p' k reached breaks = cc
    go-none initial [] after frames (running ctx) ctx' p p' k reached breaks =
        let same_ctx : ctx' ≡ ctx = cc reached in
        let same_p : p' ≡ p = cc reached in
        bind-none (step env report initial (received frames) ctx) (go env report initial after) p (
          step-Breaks initial ctx frames p k (
            subst (λ c. Breaks frames c p) same_ctx
              (subst (λ q. Breaks frames ctx' q) same_p breaks)))
    go-none initial (e ∷ before) after frames (stopped ctx) ctx' p p' k reached breaks = cc
    go-none initial (e ∷ before) after frames (running ctx) ctx' p p' k reached breaks =
        elim (step-Round initial ctx e p k) [
          | inl (state, p1, stepped, k1) ↦
              bind-some (step env report initial e ctx)
                (go env report initial (before ++ received frames ∷ after)) p stepped
              ∙ go-none initial before after frames state ctx' p1 p' k1
                  (sym (
                      bind-some (step env report initial e ctx) (go env report initial before) p
                        stepped)
                    ∙ reached)
                  breaks
          | inr (frames', is_frames, breaks') ↦
              bind-none (step env report initial e ctx)
                (go env report initial (before ++ received frames ∷ after)) p
                (subst (λ e. step env report initial e ctx p ≡ none) (sym is_frames)
                  (step-Breaks initial ctx frames' p k breaks'))
        ]

    -- Over a sequence of events, where the JSON is written and the key is set, the loop panics
    -- exactly if there are frames among the events that, in the state in which the loop takes them
    -- in, do not read without a panic or are a request that cannot be served to its end.
    pub handle-none_iff :
        (events : List Event) (ctx : Context env report) (p : Process J)
        → HasKey p
        → (handle env report events ctx p ≡ none) ↔ BreaksOff ctx events (running ctx) p
    unfolding handle
    handle-none_iff events ctx p k = (
      go-BreaksOff ctx events (running ctx) p k,
      λ (before, frames, after, ctx', p', split, reached, breaks).
          subst (λ events. go env report ctx events (running ctx) p ≡ none) (sym split)
            (go-none ctx before after frames (running ctx) ctx' p p' k reached breaks),
    )

  go_stopped :
      (initial ctx : Context env report) (events : List Event)
      → go env report initial events (stopped ctx) ≡ return (stopped ctx)
  unfolding go
  go_stopped initial ctx [] = refl
  go_stopped initial ctx (e ∷ events) = refl

  step-Stops :
      (initial ctx : Context env report) (e : Event)
      → Stops e
      → step env report initial e ctx ≡ return (stopped ctx)
  unfolding step
  step-Stops initial ctx (shutdown s) h = ap (λ b. return (shut env report initial ctx b)) h
  step-Stops initial ctx closed h = refl
  step-Stops initial ctx (received frames) h = absurd h

  go-stop :
      (initial : Context env report) (before after : List Event) (e : Event)
      (state : Next (Context env report))
      → Stops e
      → go env report initial (before ++ e ∷ after) state
        ≡ go env report initial (before ++ e ∷ []) state
  unfolding go
  go-stop initial [] after e (stopped ctx) h = refl
  go-stop initial [] after e (running ctx) h =
      rw (step-Stops initial ctx e h) (go_stopped initial ctx after)
  go-stop initial (x ∷ before) after e (stopped ctx) h = refl
  go-stop initial (x ∷ before) after e (running ctx) h =
      ap (λ k. step env report initial x ctx >>= k)
        (fun_ext (λ s. go-stop initial before after e s h))

  -- What comes after an event that ends the loop has no effect.
  pub handle-stop :
      (before after : List Event) (e : Event) (ctx : Context env report)
      → Stops e
      → handle env report (before ++ e ∷ after) ctx ≡ handle env report (before ++ e ∷ []) ctx
  unfolding handle
  handle-stop before after e ctx h = go-stop ctx before after e (running ctx) h
