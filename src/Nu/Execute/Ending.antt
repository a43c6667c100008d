-- ===== src/Nu/Execute/Ending.antt =====
-- When `execute` and the evaluation that it prepares come to their end.
use nu_jupyter_kernel.Prelude.{◌≡◌, refl, List, [], ◌∷◌, Option, none, some}
use nu_jupyter_kernel.Prelude.Text.{Text}
use nu_jupyter_kernel.Nu.{Nu, Script}
use nu_jupyter_kernel.Nu.Execute.{
  Prepared, failed, evaluate, redirect_last, start, run_parsed, execute,
}

-- What is to hold of an engine and of the script that it evaluates.
module _ (nu : Nu) (K : nu.EngineState → Script nu.Stack nu.ShellError nu.Value → Type 0) where
  abbrev MergedEnds :
      nu.EngineState × Option nu.ShellError → nu.Stack → List (List nu.Element) → Type 0
  MergedEnds (engine, some e) stack block = Unit
  MergedEnds (engine, none) stack block = K engine (nu.eval_block engine stack block)

  -- The block of a source without errors is not shared, and it holds of what is evaluated.
  abbrev SourceEnds :
      List nu.ParseError
      → List nu.CompileError
      → nu.Delta
      → Option (List (List nu.Element))
      → nu.EngineState
      → nu.Stack
      → Type 0
  SourceEnds (e ∷ _) compile_errors delta pipelines engine stack = Unit
  SourceEnds [] (e ∷ _) delta pipelines engine stack = Unit
  SourceEnds [] [] delta none engine stack = ⊥
  SourceEnds [] [] delta (some block) engine stack =
      MergedEnds (nu.merge_delta engine delta) stack (redirect_last nu block)

  abbrev pub CodeEnds : Text → Text → nu.EngineState → nu.Stack → Type 0
  CodeEnds code name engine stack =
      let source = nu.parse engine name code in
      SourceEnds source.parse_errors source.compile_errors source.delta source.pipelines engine
        stack

  abbrev pub PreparedEnds : Option (nu.EngineState × Prepared nu) → Type 0
  PreparedEnds none = ⊥
  PreparedEnds (some (engine, failed e)) = Unit
  PreparedEnds (some (engine, evaluate script)) = K engine script

  start-MergedEnds :
      (m : nu.EngineState × Option nu.ShellError) (stack : nu.Stack)
      (block : List (List nu.Element))
      → ◌≡◌ {A = Type 0} (PreparedEnds (some (start nu m stack block))) (MergedEnds m stack block)
  unfolding start
  start-MergedEnds (engine, some e) stack block = refl
  start-MergedEnds (engine, none) stack block = refl

  run_parsed-SourceEnds :
      (errors : List nu.ParseError) (compile_errors : List nu.CompileError) (delta : nu.Delta)
      (pipelines : Option (List (List nu.Element))) (engine : nu.EngineState) (stack : nu.Stack)
      → ◌≡◌ {A = Type 0}
          (PreparedEnds (run_parsed nu errors compile_errors delta pipelines engine stack))
          (SourceEnds errors compile_errors delta pipelines engine stack)
  unfolding run_parsed
  run_parsed-SourceEnds (e ∷ _) cs delta ps engine stack = refl
  run_parsed-SourceEnds [] (e ∷ _) delta ps engine stack = refl
  run_parsed-SourceEnds [] [] delta none engine stack = refl
  run_parsed-SourceEnds [] [] delta (some ps) engine stack = start-MergedEnds _ _ _

  pub execute-CodeEnds :
      (code name : Text) (engine : nu.EngineState) (stack : nu.Stack)
      → ◌≡◌ {A = Type 0}
          (PreparedEnds (execute nu code engine stack name))
          (CodeEnds code name engine stack)
  unfolding execute
  execute-CodeEnds code name engine stack = run_parsed-SourceEnds _ _ _ _ engine stack
