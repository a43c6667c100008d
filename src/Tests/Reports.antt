-- ===== src/Tests/Reports.antt =====
-- The report of a code that does not parse.
use nu_jupyter_kernel.Prelude.{ℕ, ◌+◌, ◌≡◌, refl, [], none, some, true}
use nu_jupyter_kernel.Prelude.Text.{Text, lit, text_eq}
use nu_jupyter_kernel.Nu.Execute.{parse, failed, execute}
use nu_jupyter_kernel.Shell.Reports.{Miette, ErrorStyle, new, code}
use nu_jupyter_kernel.Shell.Reports.Sources.{Knows, execute-Knows}
use nu_jupyter_kernel.Tests.Kernel.{engine}

abbrev miette : Miette engine
miette = record {
  Diagnostic = Text;
  Source = ℕ;
  of_parse = λ e. e;
  of_compile = λ e. [];
  of_shell = λ e. [];
  code = λ d. none;
  own_source = λ d. none;
  working_set_source = λ e d. e + d;
  new_delta = λ e. 0;
  use_ansi_coloring = λ e. true;
  error_style = λ e. ErrorStyle.nested;
  error_lines = λ e. 3;
  debug = λ handler d source. d;
}

unclosed :
    execute engine (lit "(") 5 none (lit "cell") ≡ some (5, failed (parse (lit "unclosed") 1))
unfolding execute text_eq
unclosed = refl

unknown_code :
    code engine miette (new engine miette 5 (parse (lit "unclosed") 1))
    ≡ lit "nu-jupyter-kernel::unknown-error"
unfolding code new
unknown_code = refl

execute-Knows_example : Knows engine miette 5 1 5 (new engine miette 5 (parse (lit "unclosed") 1))
execute-Knows_example =
    execute-Knows engine miette (lit "(") 5 5 none (lit "cell") (parse (lit "unclosed") 1) unclosed
