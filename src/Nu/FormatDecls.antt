-- ===== src/Nu/FormatDecls.antt =====
-- nu/render.rs, `FormatDeclIds::find`: the declarations of the engine that render a value.
pub mod Last
use nu_jupyter_kernel.Prelude.{List, [], ◌∷◌, Option, none, some, if◌then◌else◌}
use nu_jupyter_kernel.Prelude.Text.{Bytes, Text, lit, text_eq, from_utf8}
use nu_jupyter_kernel.Nu.{Result, ok, err, FormatDeclIds}

-- The variables of the loop.
pub record Found (DeclId : Type 0) : Type 0 where
  pub to_text : Option DeclId
  pub to_csv : Option DeclId
  pub to_json : Option DeclId
  pub to_html : Option DeclId
  pub to_md : Option DeclId
  pub table : Option DeclId
  pub draw_svg : Option DeclId

module _ {DeclId : Type 0} where
  abbrev pub nothing : Found DeclId
  nothing = record {
    to_text = none;
    to_csv = none;
    to_json = none;
    to_html = none;
    to_md = none;
    table = none;
    draw_svg = none;
  }

  -- The `match` on the name.
  unfoldable pub put : Text → DeclId → Found DeclId → Found DeclId
  put s decl_id v =
      if text_eq s (lit "to text")
      then record v { to_text = some decl_id }
      else if text_eq s (lit "to csv")
      then record v { to_csv = some decl_id }
      else if text_eq s (lit "to json")
      then record v { to_json = some decl_id }
      else if text_eq s (lit "to html")
      then record v { to_html = some decl_id }
      else if text_eq s (lit "to md")
      then record v { to_md = some decl_id }
      else if text_eq s (lit "table")
      then record v { table = some decl_id }
      else if text_eq s (lit "draw svg")
      then record v { draw_svg = some decl_id }
      else v

  -- `let Ok(s) = ... else { continue }`
  unfoldable pub put_decoded : Option Text → DeclId → Found DeclId → Found DeclId
  unfolding put
  put_decoded none decl_id v = v
  put_decoded (some s) decl_id v = put s decl_id v

  unfoldable pub scan : List (Bytes × DeclId) → Found DeclId → Found DeclId
  unfolding put_decoded
  scan [] v = v
  scan ((str_bytes, decl_id) ∷ decls) v = scan decls (put_decoded (from_utf8 str_bytes) decl_id v)

  unfoldable pub push_missing : Option DeclId → Text → List Text → List Text
  push_missing none s missing = s ∷ missing
  push_missing (some decl_id) s missing = missing

  unfoldable pub missing : Found DeclId → List Text
  unfolding push_missing
  missing v = push_missing v.to_text (lit "to text") (
      push_missing v.to_csv (lit "to csv") (
        push_missing v.to_json (lit "to json") (
          push_missing v.to_html (lit "to html") (
            push_missing v.to_md (lit "to md")
              (push_missing v.table (lit "table") (push_missing v.draw_svg (lit "draw svg") []))))))

  -- The seven variables at once, where each is `Some`.
  unfoldable pub all_of : Found DeclId → Option (FormatDeclIds DeclId)
  all_of v = elim v.to_text [
    | none ↦ none
    | some to_text ↦ elim v.to_csv [
      | none ↦ none
      | some to_csv ↦ elim v.to_json [
        | none ↦ none
        | some to_json ↦ elim v.to_html [
          | none ↦ none
          | some to_html ↦ elim v.to_md [
            | none ↦ none
            | some to_md ↦ elim v.table [
              | none ↦ none
              | some table ↦ elim v.draw_svg [
                | none ↦ none
                | some draw_svg ↦ some (record {
                  to_text = to_text;
                  to_csv = to_csv;
                  to_json = to_json;
                  to_html = to_html;
                  to_md = to_md;
                  table = table;
                  draw_svg = draw_svg;
                })
              ]
            ]
          ]
        ]
      ]
    ]
  ]

  unfoldable pub answer :
      Option (FormatDeclIds DeclId) → List Text → Result (List Text) (FormatDeclIds DeclId)
  answer none names = err names
  answer (some ids) names = ok ids

  -- `FormatDeclIds::find` on the declarations in the order of `get_decls_sorted`; the error is
  -- `KernelError::MissingFormatDecls`.
  unfoldable pub find : List (Bytes × DeclId) → Result (List Text) (FormatDeclIds DeclId)
  unfolding scan missing all_of answer
  find decls = answer (all_of (scan decls nothing)) (missing (scan decls nothing))
