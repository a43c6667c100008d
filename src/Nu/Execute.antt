-- ===== src/Nu/Execute.antt =====
-- nu/mod.rs, `execute`: parse, report the first error, redirect the last element, merge, evaluate.
pub mod Failing
pub mod Order
pub mod Ending
use nu_jupyter_kernel.Prelude.{List, [], ◌∷◌, Option, none, some}
use nu_jupyter_kernel.Prelude.Text.{Text}
use nu_jupyter_kernel.Nu.{Nu, Script}

unfoldable pub modify_last : {A : Type 0} → (A → A) → List A → List A
modify_last f [] = []
modify_last f (x ∷ []) = f x ∷ []
modify_last f (x ∷ y ∷ xs) = x ∷ modify_last f (y ∷ xs)

module _ (nu : Nu) where
  pub data ExecuteError : Type 0 where
    parse : nu.ParseError → nu.Delta → ExecuteError
    compile : nu.CompileError → nu.Delta → ExecuteError
    shell : nu.ShellError → ExecuteError

  -- How far `execute` comes: an error, or the evaluation of the redirected block.
  pub data Prepared : Type 0 where
    failed : ExecuteError → Prepared
    evaluate : Script nu.Stack nu.ShellError nu.Value → Prepared

  unfoldable pub redirect_last : List (List nu.Element) → List (List nu.Element)
  redirect_last = modify_last (modify_last nu.redirect_to_pipes)

  start :
      nu.EngineState × Option nu.ShellError
      → nu.Stack
      → List (List nu.Element)
      → nu.EngineState × Prepared
  start (engine, some e) stack pipelines = (engine, failed (shell e))
  start (engine, none) stack pipelines = (engine, evaluate (nu.eval_block engine stack pipelines))

  run_parsed :
      List nu.ParseError
      → List nu.CompileError
      → nu.Delta
      → Option (List (List nu.Element))
      → nu.EngineState
      → nu.Stack
      → Option (nu.EngineState × Prepared)
  unfolding start redirect_last
  run_parsed (e ∷ _) compile_errors delta pipelines engine stack =
      some (engine, failed (parse e delta))
  run_parsed [] (e ∷ _) delta pipelines engine stack = some (engine, failed (compile e delta))
  run_parsed [] [] delta none engine stack = none
  run_parsed [] [] delta (some pipelines) engine stack =
      some (start (nu.merge_delta engine delta) stack (redirect_last pipelines))

  -- `none` is the `todo!` for a block that is shared.
  unfoldable pub execute :
      Text → nu.EngineState → nu.Stack → Text → Option (nu.EngineState × Prepared)
  unfolding run_parsed
  execute code engine stack name =
      let parsed = nu.parse engine name code in
      run_parsed parsed.parse_errors parsed.compile_errors parsed.delta parsed.pipelines engine
        stack
