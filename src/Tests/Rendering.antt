-- ===== src/Tests/Rendering.antt =====
-- Rendering, execution and external commands at the small engine.
use nu_jupyter_kernel.Prelude.{◌≡◌, refl, ◌≢◌, [], ◌∷◌, some, none, true}
use nu_jupyter_kernel.Prelude.Text.{Text, lit, text_eq}
use nu_jupyter_kernel.Prelude.Table.{lookup, insert}
use nu_jupyter_kernel.Nu.{ok, value, Script, just_enabled, already_enabled, disabled}
use nu_jupyter_kernel.Nu.External
use nu_jupyter_kernel.Nu.Render.{
  text_plain, text_html, text_csv, PipelineRender, plain, render, render_value, formats, offer,
  match_filter, keep,
}
use nu_jupyter_kernel.Nu.Render.Formats.{render_filtered}
use nu_jupyter_kernel.Nu.Execute.{execute, modify_last, redirect_last, evaluate}
use nu_jupyter_kernel.Nu.Execute.Order.{Evaluates, execute-Evaluates}
use nu_jupyter_kernel.Tests.Kernel.{engine, decls}

abbrev hi : Text
hi = lit "hi"

plain-hi : (plain engine hi decls 7 none).1 ≡ ok hi
unfolding plain
plain-hi = refl

abbrev html_only : PipelineRender
html_only = record { contents = (text_plain, hi) ∷ (text_html, hi) ∷ []; metadata = [] }

render-html : (render engine (value hi) 7 none decls (some text_html)).1 ≡ ok html_only
unfolding render insert text_eq render_value plain formats offer match_filter keep
render-html = refl

csv_not_html : text_csv ≢ text_html
csv_not_html e = cc

csv_not_plain : text_csv ≢ text_plain
csv_not_plain e = cc

render_filtered_example : lookup text_csv html_only.contents ≡ none
render_filtered_example =
    render_filtered engine 7 decls (value hi) none text_html text_csv html_only render-html
      csv_not_html csv_not_plain

abbrev script : Script engine.Stack (Unit {0}) Text
script = engine.eval_block 8 none (((lit "1", true) ∷ []) ∷ [])

execute-one : execute engine (lit "1") 7 none (lit "cell[1]#1") ≡ some (8, evaluate script)
unfolding execute redirect_last text_eq modify_last
execute-one = refl

execute-Evaluates_example :
    let source = engine.parse 7 (lit "cell[1]#1") (lit "1") in
    Evaluates engine 7 none source.parse_errors source.compile_errors source.delta source.pipelines
      8 script
execute-Evaluates_example =
    execute-Evaluates engine (lit "1") (lit "cell[1]#1") 7 8 none script execute-one

not_disabled : just_enabled ≢ disabled
not_disabled e = cc

apply-first : External.apply engine just_enabled 7 ≡ some (already_enabled, 107)
unfolding External.apply
apply-first = refl
