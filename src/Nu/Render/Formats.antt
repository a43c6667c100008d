-- ===== src/Nu/Render/Formats.antt =====
-- Which formats a rendering holds, and when it fails.
use mathlib.Core.Path.{subst}
use nu_jupyter_kernel.Prelude.{
  ◌≡◌, refl, sym, ◌∙◌, ◌≢◌, ◌↔◌, ◌⊎◌, inl, inr, List, [], Option, none, some, arith,
}
use nu_jupyter_kernel.Prelude.Text.{Text, text_eq, text_eq_iff, text_eq_refl}
use nu_jupyter_kernel.Prelude.Table.{lookup, insert, lookup-insert}
use nu_jupyter_kernel.Nu.{Nu, Result, ok, err, PipelineData, FormatDeclIds}
use nu_jupyter_kernel.Nu.Render.{
  text_plain, RenderError, PipelineRender, Failure, match_filter, keep, offer, formats, plain,
  render_value, render,
}

lookup-keep :
    {E : Type 0} (mime key : Text) (r : Result E (Option Text)) (contents : List (Text × Text))
    → mime ≢ key
    → lookup key (keep mime r contents) ≡ lookup key contents
unfolding keep
lookup-keep mime key (ok (some s)) contents h =
    ground (arith, lookup-insert mime key s contents, text_eq_iff mime key)
lookup-keep mime key (ok none) contents h = refl
lookup-keep mime key (err e) contents h = refl

lookup-insert_self : (k v : Text) (m : List (Text × Text)) → lookup k (insert k v m) ≡ some v
lookup-insert_self k v m = rw (lookup-insert k k v m, text_eq_refl k)

module _ (nu : Nu) where
  abbrev Convert : Type 0
  Convert = nu.Stack → nu.Stack × Result (Failure nu) (Option Text)

  lookup-offer :
      (filter : Option Text) (mime key : Text) (convert : Convert)
      (start : nu.Stack × List (Text × Text))
      → mime ≢ key
      → lookup key (offer nu filter mime convert start).1 ≡ lookup key start.1
  unfolding offer
  lookup-offer filter mime key convert (stack, contents) h =
      ground (arith, lookup-keep mime key (convert stack).1 contents)

  lookup-offer_filtered :
      (wanted mime key : Text) (convert : Convert) (start : nu.Stack × List (Text × Text))
      → key ≢ wanted
      → lookup key (offer nu (some wanted) mime convert start).1 ≡ lookup key start.1
  unfolding offer match_filter
  lookup-offer_filtered wanted mime key convert (stack, contents) h =
      ground (arith, lookup-keep mime key (convert stack).1 contents, text_eq_iff wanted mime)

  module _ (engine : nu.EngineState) (decls : FormatDeclIds nu.DeclId) (v : nu.Value) where
    lookup-formats_plain :
        (filter : Option Text) (start : nu.Stack × List (Text × Text))
        → lookup text_plain (formats nu engine decls filter v start).1 ≡ lookup text_plain start.1
    unfolding formats text_eq
    lookup-formats_plain filter start =
        lookup-offer filter _ text_plain _ _ (λ e. cc)
        ∙ lookup-offer filter _ text_plain _ _ (λ e. cc)
        ∙ lookup-offer filter _ text_plain _ _ (λ e. cc)
        ∙ lookup-offer filter _ text_plain _ _ (λ e. cc)
        ∙ lookup-offer filter _ text_plain _ _ (λ e. cc)

    lookup-formats_filtered :
        (wanted key : Text) (start : nu.Stack × List (Text × Text))
        → key ≢ wanted
        → lookup key (formats nu engine decls (some wanted) v start).1 ≡ lookup key start.1
    unfolding formats
    lookup-formats_filtered wanted key start h =
        lookup-offer_filtered wanted _ key _ _ h
        ∙ lookup-offer_filtered wanted _ key _ _ h
        ∙ lookup-offer_filtered wanted _ key _ _ h
        ∙ lookup-offer_filtered wanted _ key _ _ h
        ∙ lookup-offer_filtered wanted _ key _ _ h

    -- A rendering starts from the plain text alone.
    abbrev first : Text → List (Text × Text)
    first text = insert text_plain text []

    abbrev rendered : Option Text → nu.Stack → Text → PipelineRender
    rendered filter stack text = record {
      contents = (formats nu engine decls filter v (stack, first text)).1;
      metadata = [];
    }

    render_value-eq-ok :
        (filter : Option Text) (p : nu.Stack × Result (RenderError nu.ShellError) Text)
        {r : PipelineRender}
        → (render_value nu v p engine decls filter).1 ≡ ok r
        → (text : Text) × (p.1 ≡ ok text) × (rendered filter p.0 text ≡ r)
    unfolding render_value
    render_value-eq-ok filter (stack, err e) h = cc
    render_value-eq-ok filter (stack, ok text) h = (text, refl, cc)

    render_value_of_ok :
        (filter : Option Text) (p : nu.Stack × Result (RenderError nu.ShellError) Text)
        (text : Text)
        → p.1 ≡ ok text
        → (render_value nu v p engine decls filter).1 ≡ ok (rendered filter p.0 text)
    unfolding render_value
    render_value_of_ok filter (stack, err e) text h = cc
    render_value_of_ok filter (stack, ok t) text h = cc

    render_value-eq-err_iff :
        (filter : Option Text) (p : nu.Stack × Result (RenderError nu.ShellError) Text)
        (e : RenderError nu.ShellError)
        → ((render_value nu v p engine decls filter).1 ≡ err e) ↔ (p.1 ≡ err e)
    unfolding render_value
    render_value-eq-err_iff filter (stack, err x) e = (λ h. cc, λ h. cc)
    render_value-eq-err_iff filter (stack, ok t) e = (λ h. cc, λ h. cc)

pub Result-cases :
    {E A : Type 0} (r : Result E A) → ((e : E) × (r ≡ err e)) ⊎ ((a : A) × (r ≡ ok a))
Result-cases (ok a) = inr (a, refl)
Result-cases (err e) = inl (e, refl)

module _ (nu : Nu) (engine : nu.EngineState) (decls : FormatDeclIds nu.DeclId)
    (input : PipelineData nu.Value) (stack : nu.Stack) where
  lookup_first :
      (key text : Text) → text_plain ≢ key → lookup key (insert text_plain text []) ≡ none
  unfolding insert lookup
  lookup_first key text h = ground (arith, text_eq_iff text_plain key)

  render_of_value :
      (filter : Option Text) (v : nu.Value)
      → nu.into_value input ≡ ok v
      → render nu input engine stack decls filter
        ≡ render_value nu v (plain nu v decls engine stack) engine decls filter
  unfolding render
  render_of_value filter v e = rw (e, render)

  render_of_error :
      (filter : Option Text) (x : nu.ShellError)
      → nu.into_value input ≡ err x
      → (render nu input engine stack decls filter).1 ≡ err (RenderError.into_value x)
  unfolding render
  render_of_error filter x e = rw (e, render)

  -- Where the input is a value and `to text` prints it, the rendering succeeds whatever the other
  -- formats do, and its plain text is that text.
  pub render-plain :
      (filter : Option Text) (v : nu.Value) (text : Text)
      → nu.into_value input ≡ ok v
      → (plain nu v decls engine stack).1 ≡ ok text
      → (r : PipelineRender) × ((render nu input engine stack decls filter).1 ≡ ok r)
        × (lookup text_plain r.contents ≡ some text)
  render-plain filter v text e p = (
    rendered nu engine decls v filter (plain nu v decls engine stack).0 text,
    rw (render_of_value filter v e) (render_value_of_ok nu engine decls v filter _ text p),
    lookup-formats_plain nu engine decls v filter _ ∙ lookup-insert_self text_plain text [],
  )

  -- A rendering that succeeds under a filter has no entry but for the plain text and the type of
  -- the filter.
  pub render_filtered :
      (wanted key : Text) (r : PipelineRender)
      → (render nu input engine stack decls (some wanted)).1 ≡ ok r
      → key ≢ wanted
      → key ≢ text_plain
      → lookup key r.contents ≡ none
  render_filtered wanted key r h other not_plain = elim (Result-cases (nu.into_value input)) [
    | inl (x, e) ↦ absurd (cc (render_of_error (some wanted) x e))
    | inr (v, e) ↦
        let (text, _, same) =
          render_value-eq-ok nu engine decls v (some wanted) _
            (rw (render_of_value (some wanted) v e) at h) in
        subst (λ (r : PipelineRender). lookup key r.contents ≡ none) same
          (lookup-formats_filtered nu engine decls v wanted key _ other
            ∙ lookup_first key text (λ e. not_plain (sym e)))
  ]

  pub render_fails_iff :
      (filter : Option Text) (e : RenderError nu.ShellError)
      → ((render nu input engine stack decls filter).1 ≡ err e) ↔ (
          ((x : nu.ShellError) × (nu.into_value input ≡ err x) × (e ≡ RenderError.into_value x))
          ⊎ ((v : nu.Value) × (nu.into_value input ≡ ok v)
              × ((plain nu v decls engine stack).1 ≡ err e)))
  render_fails_iff filter e = elim (Result-cases (nu.into_value input)) [
    | inl (x, bad) ↦ (
      λ h. inl (x, bad, cc (render_of_error filter x bad)),
      λ h. elim h [
        | inl (y, other, same) ↦ cc (render_of_error filter x bad)
        | inr (v, good, p) ↦ absurd (cc)
      ],
    )
    | inr (v, good) ↦
        let (to, from) =
          render_value-eq-err_iff nu engine decls v filter (plain nu v decls engine stack) e in
        (
          λ h. inr (v, good, to (rw (render_of_value filter v good) at h)),
          λ h. elim h [
            | inl (y, other, same) ↦ absurd (cc)
            | inr (w, good', p) ↦
                let back =
                  render_value-eq-err_iff nu engine decls w filter (plain nu w decls engine stack)
                    e in
                rw (render_of_value filter w good') (back.1 p)
          ],
        )
  ]
