-- ===== src/Shell/Reports.antt =====
-- nu/mod.rs, `ReportExecuteError`: the report of an error, which the shell handler sends.
pub mod Sources
use nu_jupyter_kernel.Prelude.{ℕ, ◌++◌, Option, none, some, Bool, false, true}
use nu_jupyter_kernel.Prelude.Text.{Text, lit}
use nu_jupyter_kernel.Nu.{Nu}
use nu_jupyter_kernel.Nu.Execute.{ExecuteError, parse, compile, shell}
use nu_jupyter_kernel.Shell.{Report}

-- `ErrorStyle`, with one name for the styles that are not told apart.
pub data ErrorStyle : Type 0 where
  short plain nested default_style : ErrorStyle

-- The options of `MietteHandlerOpts`; `rgb_colors` is always `Never`.
pub record Options : Type 0 where
  pub color : Bool
  pub unicode : Bool
  pub terminal_links : Bool
  pub context_lines : ℕ
  pub related_as_nested : Bool
  pub with_cause_chain : Bool

pub data ReportHandler : Type 0 where
  short_handler narratable_handler : ReportHandler
  miette_handler : Options → ReportHandler

-- `miette` and the configuration of the engine. A diagnostic is read with the source that it is given;
-- a source of a working set is that of its engine and its delta.
pub record Miette (nu : Nu) : Type 1 where
  pub Diagnostic : Type 0
  pub Source : Type 0
  pub of_parse : nu.ParseError → Diagnostic
  pub of_compile : nu.CompileError → Diagnostic
  pub of_shell : nu.ShellError → Diagnostic
  pub code : Diagnostic → Option Text
  pub own_source : Diagnostic → Option Source
  pub working_set_source : nu.EngineState → nu.Delta → Source
  -- the delta of `StateWorkingSet::new`
  pub new_delta : nu.EngineState → nu.Delta
  pub use_ansi_coloring : nu.EngineState → Bool
  pub error_style : nu.EngineState → ErrorStyle
  -- `error_lines as usize`
  pub error_lines : nu.EngineState → ℕ
  pub debug : ReportHandler → Diagnostic → Source → Text

module _ (nu : Nu) (miette : Miette nu) where
  open miette use {Diagnostic, Source}

  -- The working set is its engine and its delta.
  pub record ReportExecuteError : Type 0 where
    pub diagnostic : Diagnostic
    pub permanent : nu.EngineState
    pub delta : nu.Delta

  -- `ReportExecuteError::new` over a new working set of the engine
  unfoldable pub new : nu.EngineState → ExecuteError nu → ReportExecuteError
  new engine (parse error delta) = record {
    diagnostic = miette.of_parse error;
    permanent = engine;
    delta = delta;
  }
  new engine (compile error delta) = record {
    diagnostic = miette.of_compile error;
    permanent = engine;
    delta = delta;
  }
  new engine (shell error) = record {
    diagnostic = miette.of_shell error;
    permanent = engine;
    delta = miette.new_delta engine;
  }

  source_or : Option Source → ReportExecuteError → Source
  source_or none r = miette.working_set_source r.permanent r.delta
  source_or (some source_code) r = source_code

  -- `source_code`, which gives always something
  unfoldable pub source_code : ReportExecuteError → Source
  unfolding source_or
  source_code r = source_or (miette.own_source r.diagnostic) r

  code_or : Option Text → Text
  code_or none = lit "nu-jupyter-kernel::unknown-error"
  code_or (some code) = code

  unfoldable pub code : ReportExecuteError → Text
  unfolding code_or
  code r = code_or (miette.code r.diagnostic)

  options : Bool → ℕ → Bool → Options
  options ansi_support lines as_nested = record {
    color = ansi_support;
    unicode = ansi_support;
    terminal_links = ansi_support;
    context_lines = lines;
    related_as_nested = as_nested;
    with_cause_chain = as_nested;
  }

  handler : ErrorStyle → Bool → ℕ → ReportHandler
  unfolding options
  handler short ansi_support lines = short_handler
  handler plain ansi_support lines = narratable_handler
  handler nested ansi_support lines = miette_handler (options ansi_support lines true)
  handler default_style ansi_support lines = miette_handler (options ansi_support lines false)

  -- The `Debug` of the report
  unfoldable pub debug : ReportExecuteError → Text
  unfolding handler source_code
  debug r =
      let engine = r.permanent in
      let ansi_support = miette.use_ansi_coloring engine in
      miette.debug (handler (miette.error_style engine) ansi_support (miette.error_lines engine))
        r.diagnostic (source_code r)

  -- What the shell handler takes of a report.
  unfoldable pub report : Report nu
  unfolding new code debug
  report = record {
    code = λ engine error. code (new engine error);
    fmt = λ engine error. debug (new engine error);
  }
