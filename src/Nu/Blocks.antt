-- ===== src/Nu/Blocks.antt =====
-- nu/module.rs: how the kernel finds its own commands in the parsed text of their module.
pub mod First
use nu_jupyter_kernel.Prelude.{List, [], ◌∷◌, Option, none, some, Bool, true, false, if◌then◌else◌}
use nu_jupyter_kernel.Prelude.Text.{Text, lit, text_eq}
use nu_jupyter_kernel.Prelude.Maybe.{◌>>=◌}

-- The syntax trees of `nu_protocol` as these functions match on them. Each field is the content of
-- one constructor; an argument that is not positional is `none`.
pub record Ast : Type 1 where
  pub Expression : Type 0
  pub BlockId : Type 0
  pub DeclId : Type 0
  pub Span : Type 0
  -- `Expr::Call`: the declaration and the arguments
  pub call : Expression → Option (DeclId × List (Option Expression))
  -- `Expr::String`
  pub string : Expression → Option Text
  -- `Expr::Block`
  pub block : Expression → Option BlockId
  -- `Expr::AttributeBlock`: its item
  pub attribute_item : Expression → Option Expression
  pub span : Expression → Span

pub record KernelInternalRenderSpans (Span : Type 0) : Type 0 where
  pub text : Span
  pub csv : Span
  pub json : Span
  pub html : Span
  pub md : Span
  pub svg : Span

-- A loop that returns at the first element for which `f` has a result.
module _ {A B : Type 0} (f : A → Option B) where
  abbrev pub or_continue : Option B → Option B → Option B
  or_continue none o = o
  or_continue (some b) o = some b

  unfoldable pub in_pipeline : List A → Option B
  in_pipeline [] = none
  in_pipeline (e ∷ elements) = or_continue (f e) (in_pipeline elements)

  unfoldable pub in_pipelines : List (List A) → Option B
  unfolding in_pipeline
  in_pipelines [] = none
  in_pipelines (p ∷ pipelines) = or_continue (in_pipeline p) (in_pipelines pipelines)

unfoldable pub is_name : Text → Option Text → Bool
is_name name none = false
is_name name (some positional_name) = text_eq positional_name name

module _ (ast : Ast) where
  open ast use {Expression, BlockId, DeclId, Span}

  -- `if let Some(Argument::Positional(expr)) = call.arguments.first()` with
  -- `Expr::String(positional_name)` and `positional_name == name`
  unfoldable pub named : Text → List (Option Expression) → Bool
  unfolding is_name
  named name [] = false
  named name (none ∷ arguments) = false
  named name (some e ∷ arguments) = is_name name (ast.string e)

  -- `call.arguments.get(1)` with `Expr::Block(block_id)`
  unfoldable pub block_argument : List (Option Expression) → Option BlockId
  block_argument [] = none
  block_argument (a ∷ []) = none
  block_argument (a ∷ none ∷ arguments) = none
  block_argument (a ∷ some e ∷ arguments) = ast.block e

  unfoldable pub module_of : Text → Option (DeclId × List (Option Expression)) → Option BlockId
  unfolding named block_argument
  module_of name none = none
  module_of name (some (decl_id, arguments)) =
      if named name arguments then block_argument arguments else none

  unfoldable pub find_inner_block : List (List Expression) → Text → Option BlockId
  unfolding in_pipelines module_of
  find_inner_block pipelines name = in_pipelines (λ e. module_of name (ast.call e)) pipelines

  unfoldable pub decl_of :
      Text → Span → Option (DeclId × List (Option Expression)) → Option (DeclId × Span)
  unfolding named
  decl_of name span none = none
  decl_of name span (some (decl_id, arguments)) =
      if named name arguments then some (decl_id, span) else none

  unfoldable pub item_decl : Text → Option Expression → Option (DeclId × Span)
  unfolding decl_of
  item_decl name none = none
  item_decl name (some item) = decl_of name (ast.span item) (ast.call item)

  unfoldable pub find_decl : List (List Expression) → Text → Option (DeclId × Span)
  unfolding in_pipelines item_decl
  find_decl pipelines name = in_pipelines (λ e. item_decl name (ast.attribute_item e)) pipelines

  -- `create_nuju_module` after the parser has given the outer block; `get_block` is that of the
  -- working set, and `none` is a failed `expect`.
  unfoldable pub create_nuju_module :
      (BlockId → List (List Expression))
      → List (List Expression)
      → Option (KernelInternalRenderSpans Span)
  unfolding find_inner_block find_decl
  create_nuju_module get_block outer_block = do
    nuju_block_id ← find_inner_block outer_block (lit "nuju")
    render_block_id ← find_inner_block (get_block nuju_block_id) (lit "render")
    let render_block = get_block render_block_id
    text ← find_decl render_block (lit "text")
    csv ← find_decl render_block (lit "csv")
    json ← find_decl render_block (lit "json")
    html ← find_decl render_block (lit "html")
    md ← find_decl render_block (lit "md")
    svg ← find_decl render_block (lit "svg")
    some (record {
      text = text.1;
      csv = csv.1;
      json = json.1;
      html = html.1;
      md = md.1;
      svg = svg.1;
    })
