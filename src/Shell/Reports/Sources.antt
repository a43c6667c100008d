-- ===== src/Shell/Reports/Sources.antt =====
-- Where the report of an error finds the code that it is about.
use nu_jupyter_kernel.Prelude.{◌≡◌, ◌⊎◌, inl, inr, refl, sym, ap, List, [], ◌∷◌, some}
use nu_jupyter_kernel.Prelude.Text.{Text}
use nu_jupyter_kernel.Nu.{Nu}
use nu_jupyter_kernel.Nu.Execute.{ExecuteError, failed, execute}
use nu_jupyter_kernel.Nu.Execute.Failing.{Fails, execute-Fails}
use nu_jupyter_kernel.Shell.Reports.{Miette, ReportExecuteError, new}

module _ (nu : Nu) (miette : Miette nu) where
  -- A report reads its positions in a working set that knows the code: the delta that the code was
  -- parsed into, over the engine as it was, or an engine that the delta is merged into.
  abbrev pub Knows :
      nu.EngineState → nu.Delta → nu.EngineState → ReportExecuteError nu miette → Type 0
  Knows engine delta engine' r =
      (r.permanent ≡ engine')
      × (((engine' ≡ engine) × (r.delta ≡ delta))
          ⊎ ((engine' ≡ (nu.merge_delta engine delta).0) × (r.delta ≡ miette.new_delta engine')))

  Fails-Knows :
      (errors : List nu.ParseError) (compile_errors : List nu.CompileError) (delta : nu.Delta)
      (engine engine' : nu.EngineState) (e : ExecuteError nu)
      → Fails nu errors compile_errors delta engine engine' e
      → Knows engine delta engine' (new nu miette engine' e)
  unfolding new
  Fails-Knows (x ∷ xs) cs delta engine engine' e h = rw h.0 (refl, inl (h.1, refl))
  Fails-Knows [] (c ∷ cs) delta engine engine' e h = rw h.0 (refl, inl (h.1, refl))
  Fails-Knows [] [] delta engine engine' e h = rw h.1 (refl, inr (sym (ap (λ r. r.0) h.2), refl))

  -- Where `execute` fails on a code before it evaluates it, the report is made over the engine that it
  -- leaves and reads its positions where the code is known: an engine as it was before with the delta
  -- that the code was parsed into, or an engine that this delta was merged into.
  pub execute-Knows :
      (text : Text) (engine engine' : nu.EngineState) (stack : nu.Stack) (name : Text)
      (e : ExecuteError nu)
      → execute nu text engine stack name ≡ some (engine', failed e)
      → Knows engine (nu.parse engine name text).delta engine' (new nu miette engine' e)
  execute-Knows text engine engine' stack name e h =
      Fails-Knows _ _ _ engine engine' e (execute-Fails nu text engine engine' stack name e h)
