-- ===== src/Nu/Render.antt =====
-- nu/render.rs, `PipelineRender`: the texts of a value by MIME type. A `Mime` is its text, and two
-- are equal if the texts are.
pub mod Formats
use nu_jupyter_kernel.Prelude.{
  List, [], ◌∷◌, Option, none, some, Bool, true, false, ◌||◌, if◌then◌else◌,
}
use nu_jupyter_kernel.Prelude.Text.{Text, lit, text_eq}
use nu_jupyter_kernel.Prelude.Table.{insert}
use nu_jupyter_kernel.Nu.{Nu, Result, ok, err, PipelineData, value, FormatDeclIds}

abbrev pub text_plain : Text
text_plain = lit "text/plain"

abbrev pub text_html : Text
text_html = lit "text/html"

abbrev pub text_csv : Text
text_csv = lit "text/csv"

abbrev pub application_json : Text
application_json = lit "application/json"

abbrev pub text_markdown : Text
text_markdown = lit "text/markdown"

abbrev pub image_svg : Text
image_svg = lit "image/svg+xml"

-- Each error is that of the shell; `eval`, `into_value` or `no_string` says where it arose.
pub data InternalRenderError (E : Type 0) : Type 0 where
  eval into_value no_string : E → InternalRenderError E

pub data RenderError (E : Type 0) : Type 0 where
  into_value no_text : E → RenderError E

-- `metadata` stays empty.
pub record PipelineRender : Type 0 where
  pub contents : List (Text × Text)
  pub metadata : List (Text × Text)

abbrev map_err : {E F A : Type 0} → (E → F) → Result E A → Result F A
map_err f (ok a) = ok a
map_err f (err e) = err (f e)

infixl 5 ◌>>=◌
abbrev ◌>>=◌ : {E A B : Type 0} → Result E A → (A → Result E B) → Result E B
ok a >>= k = k a
err e >>= k = err e

abbrev any : {A : Type 0} → (A → Bool) → List A → Bool
any p [] = false
any p (x ∷ xs) = p x || any p xs

-- `filter.is_none() || filter == Some(mime)`
unfoldable pub match_filter : Option Text → Text → Bool
match_filter none mime = true
match_filter (some wanted) mime = text_eq wanted mime

-- The result of a conversion enters the table, and an error or no result leaves it.
unfoldable pub keep :
    {E : Type 0} → Text → Result E (Option Text) → List (Text × Text) → List (Text × Text)
keep mime (ok (some s)) contents = insert mime s contents
keep mime (ok none) contents = contents
keep mime (err e) contents = contents

module _ (nu : Nu) where
  abbrev pub Failure : Type 0
  Failure = InternalRenderError nu.ShellError

  unfoldable pub render_via_call :
      nu.Value → nu.DeclId → nu.EngineState → nu.Stack → List Text → nu.Stack × Result Failure Text
  render_via_call v decl engine stack flags =
      let (stack', formatted) = nu.eval_call engine stack decl flags v in
      (
        stack',
        do
          output ← map_err (λ e. InternalRenderError.eval e) formatted
          result ← map_err (λ e. InternalRenderError.into_value e) (nu.into_value output)
          map_err (λ e. InternalRenderError.no_string e) (nu.into_string result),
      )

  unfoldable pub render_via_cmd :
      nu.Value
      → List nu.Kind
      → nu.DeclId
      → nu.EngineState
      → nu.Stack
      → nu.Stack × Result Failure (Option Text)
  unfolding render_via_call
  render_via_cmd v inputs decl engine stack =
      if any (λ input. nu.is_subtype_of (nu.get_type v) input) inputs
      then (let (stack', text) = render_via_call v decl engine stack [] in
          (stack', text >>= λ s. ok (some s)))
      else (stack, ok none)

  -- One optional format of `render`: the stack and the table after it.
  unfoldable pub offer :
      Option Text
      → Text
      → (nu.Stack → nu.Stack × Result Failure (Option Text))
      → nu.Stack × List (Text × Text)
      → nu.Stack × List (Text × Text)
  offer filter mime convert (stack, contents) =
      if match_filter filter mime
      then (let (stack', text) = convert stack in (stack', keep mime text contents))
      else (stack, contents)

  -- The five formats after the plain text, in the order of the source.
  unfoldable pub formats :
      nu.EngineState
      → FormatDeclIds nu.DeclId
      → Option Text
      → nu.Value
      → nu.Stack × List (Text × Text)
      → nu.Stack × List (Text × Text)
  formats engine decls filter v start =
      let html : nu.Stack → nu.Stack × Result Failure (Option Text) = λ stack.
        let (stack', text) =
          render_via_call v decls.to_html engine stack (lit "partial" ∷ lit "html-color" ∷ []) in
        (stack', text >>= λ s. ok (some s)) in
      let after_html = offer filter text_html html start in
      let after_csv =
        offer filter text_csv (render_via_cmd v nu.csv_inputs decls.to_csv engine) after_html in
      let after_json =
        offer filter application_json (render_via_cmd v nu.json_inputs decls.to_json engine)
          after_csv in
      let after_md =
        offer filter text_markdown (render_via_cmd v nu.md_inputs decls.to_md engine) after_json in
      offer filter image_svg (render_via_cmd v nu.svg_inputs decls.draw_svg engine) after_md

  -- The plain text, which is always wanted.
  unfoldable pub plain :
      nu.Value
      → FormatDeclIds nu.DeclId
      → nu.EngineState
      → nu.Stack
      → nu.Stack × Result (RenderError nu.ShellError) Text
  unfolding render_via_call
  plain v decls engine stack =
      let (stack', text) = render_via_call v decls.to_text engine stack [] in
      (
        stack',
        map_err
            (λ e. elim e [
              | eval x ↦ RenderError.no_text x
              | into_value x ↦ RenderError.no_text x
              | no_string x ↦ RenderError.no_text x
            ])
            text,
      )

  -- The rest of `render`, once the plain text is tried.
  unfoldable pub render_value :
      nu.Value
      → nu.Stack × Result (RenderError nu.ShellError) Text
      → nu.EngineState
      → FormatDeclIds nu.DeclId
      → Option Text
      → nu.Stack × Result (RenderError nu.ShellError) PipelineRender
  render_value v (stack, err e) engine decls filter = (stack, err e)
  render_value v (stack, ok text) engine decls filter =
      let (stack', contents) = formats engine decls filter v (stack, insert text_plain text []) in
      (stack', ok (record { contents = contents; metadata = [] }))

  -- `PipelineRender::render`
  unfoldable pub render :
      PipelineData nu.Value
      → nu.EngineState
      → nu.Stack
      → FormatDeclIds nu.DeclId
      → Option Text
      → nu.Stack × Result (RenderError nu.ShellError) PipelineRender
  render input engine stack decls filter = elim (nu.into_value input) [
    | err e ↦ (stack, err (RenderError.into_value e))
    | ok v ↦ render_value v (plain v decls engine stack) engine decls filter
  ]
