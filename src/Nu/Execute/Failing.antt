-- ===== src/Nu/Execute/Failing.antt =====
-- How `execute` fails before it evaluates.
use nu_jupyter_kernel.Prelude.{◌≡◌, sym, ap, List, [], ◌∷◌, Option, none, some}
use nu_jupyter_kernel.Prelude.Text.{Text}
use nu_jupyter_kernel.Nu.{Nu}
use nu_jupyter_kernel.Nu.Execute.{
  ExecuteError, parse, compile, shell, Prepared, failed, redirect_last, start, run_parsed, execute,
}

module _ (nu : Nu) where
  -- The first parse error, or else the first compile error, each with the delta of the parse and
  -- without a change of the engine; or else the error of the merge.
  abbrev pub Fails :
      List nu.ParseError
      → List nu.CompileError
      → nu.Delta
      → nu.EngineState
      → nu.EngineState
      → ExecuteError nu
      → Type 0
  Fails (x ∷ xs) cs delta engine engine' e = (e ≡ parse x delta) × (engine' ≡ engine)
  Fails [] (c ∷ cs) delta engine engine' e = (e ≡ compile c delta) × (engine' ≡ engine)
  Fails [] [] delta engine engine' e =
      (s : nu.ShellError) × (e ≡ shell s) × (nu.merge_delta engine delta ≡ (engine', some s))

  failed-injective : (e e' : ExecuteError nu) → failed e ≡ failed e' → e' ≡ e
  failed-injective e e' h = cc h

  start-Fails :
      (m : nu.EngineState × Option nu.ShellError) (stack : nu.Stack)
      (block : List (List nu.Element)) (engine' : nu.EngineState) (e : ExecuteError nu)
      → start nu m stack block ≡ (engine', failed e)
      → (s : nu.ShellError) × (e ≡ shell s) × (m ≡ (engine', some s))
  unfolding start
  start-Fails (engine, some s) stack block engine' e h =
      (s, failed-injective (shell s) e (ap (λ r. r.1) h), ap (λ x. (x, some s)) (ap (λ r. r.0) h))
  start-Fails (engine, none) stack block engine' e h = cc (ap (λ r. r.1) h)

  run_parsed-Fails :
      (errors : List nu.ParseError) (compile_errors : List nu.CompileError) (delta : nu.Delta)
      (pipelines : Option (List (List nu.Element))) (engine engine' : nu.EngineState)
      (stack : nu.Stack) (e : ExecuteError nu)
      → run_parsed nu errors compile_errors delta pipelines engine stack ≡ some (engine', failed e)
      → Fails errors compile_errors delta engine engine' e
  unfolding run_parsed
  run_parsed-Fails (x ∷ xs) cs delta ps engine engine' stack e h =
      let pair : ◌≡◌ {A = nu.EngineState × Prepared nu} (engine, failed (parse x delta))
          (engine', failed e) =
        cc h in
      (failed-injective (parse x delta) e (ap (λ r. r.1) pair), sym (ap (λ r. r.0) pair))
  run_parsed-Fails [] (c ∷ cs) delta ps engine engine' stack e h =
      let pair : ◌≡◌ {A = nu.EngineState × Prepared nu} (engine, failed (compile c delta))
          (engine', failed e) =
        cc h in
      (failed-injective (compile c delta) e (ap (λ r. r.1) pair), sym (ap (λ r. r.0) pair))
  run_parsed-Fails [] [] delta none engine engine' stack e h = cc h
  run_parsed-Fails [] [] delta (some block) engine engine' stack e h =
      start-Fails (nu.merge_delta engine delta) stack (redirect_last nu block) engine' e (cc h)

  pub execute-Fails :
      (code : Text) (engine engine' : nu.EngineState) (stack : nu.Stack) (name : Text)
      (e : ExecuteError nu)
      → execute nu code engine stack name ≡ some (engine', failed e)
      → Fails
          (nu.parse engine name code).parse_errors
          (nu.parse engine name code).compile_errors
          (nu.parse engine name code).delta
          engine
          engine'
          e
  unfolding execute
  execute-Fails code engine engine' stack name e h =
      let parsed = nu.parse engine name code in
      run_parsed-Fails parsed.parse_errors parsed.compile_errors parsed.delta parsed.pipelines
        engine engine' stack e h
