-- ===== src/Nu/Execute/Order.antt =====
-- When `execute` evaluates, and what it evaluates.
use nu_jupyter_kernel.Prelude.{
  ◌≡◌, ◌⊎◌, inl, inr, refl, ap, List, [], ◌∷◌, ◌++◌, Option, none, some,
}
use nu_jupyter_kernel.Prelude.Text.{Text}
use nu_jupyter_kernel.Nu.{Nu, Script}
use nu_jupyter_kernel.Nu.Execute.{modify_last, evaluate, redirect_last, start, run_parsed, execute}

modify_last-append :
    {A : Type 0} (f : A → A) (xs : List A) (x : A) → modify_last f (xs ++ x ∷ []) ≡ xs ++ f x ∷ []
unfolding modify_last
modify_last-append f [] x = refl
modify_last-append f (y ∷ []) x = refl
modify_last-append f (y ∷ z ∷ xs) x = ap (◌∷◌ y) (modify_last-append f (z ∷ xs) x)

-- Two lists that are both empty, or that differ in their last elements only, which are related.
abbrev pub LastBy : {A : Type 0} → (A → A → Type 0) → List A → List A → Type 0
LastBy {A} R xs ys =
    ((xs ≡ []) × (ys ≡ []))
    ⊎ ((front : List A) × (x : A) × (y : A) × (xs ≡ front ++ x ∷ [])
        × (ys ≡ front ++ y ∷ [])
        × R x y)

modify_last-LastBy :
    {A : Type 0} (f : A → A) (R : A → A → Type 0)
    → ((x : A) → R x (f x))
    → (xs : List A) → LastBy R xs (modify_last f xs)
unfolding modify_last
modify_last-LastBy f R h [] = inl (refl, refl)
modify_last-LastBy f R h (x ∷ []) = inr ([], x, f x, refl, refl, h x)
modify_last-LastBy f R h (x ∷ y ∷ xs) = elim (modify_last-LastBy f R h (y ∷ xs)) [
  | inl (e, _) ↦ cc e
  | inr (front, a, b, e, e', r) ↦ inr (x ∷ front, a, b, ap (◌∷◌ x) e, ap (◌∷◌ x) e', r)
]

module _ (nu : Nu) where
  -- The pipelines of a block, with the last element of the last pipeline redirected to pipes.
  abbrev pub RedirectsLast : List (List nu.Element) → List (List nu.Element) → Type 0
  RedirectsLast = LastBy (LastBy (λ e e'. e' ≡ nu.redirect_to_pipes e))

  redirect_last-RedirectsLast :
      (block : List (List nu.Element)) → RedirectsLast block (redirect_last nu block)
  unfolding redirect_last
  redirect_last-RedirectsLast =
      modify_last-LastBy _ (LastBy (λ e e'. e' ≡ nu.redirect_to_pipes e))
        (modify_last-LastBy nu.redirect_to_pipes (λ e e'. e' ≡ nu.redirect_to_pipes e) (λ e. refl))

  -- Where the last pipeline has an element, its last element is redirected, and nothing else
  -- changes.
  pub redirect_last-append :
      (pipelines : List (List nu.Element)) (elements : List nu.Element) (last : nu.Element)
      → redirect_last nu (pipelines ++ (elements ++ last ∷ []) ∷ [])
        ≡ pipelines ++ (elements ++ nu.redirect_to_pipes last ∷ []) ∷ []
  unfolding redirect_last
  redirect_last-append pipelines elements last = rw (
    modify_last-append (modify_last nu.redirect_to_pipes) pipelines (elements ++ last ∷ []),
    modify_last-append nu.redirect_to_pipes elements last,
  )

  -- The evaluation of a source that parsed and compiled.
  pub record Evaluates (engine : nu.EngineState) (stack : nu.Stack) (errors : List nu.ParseError)
      (compile_errors : List nu.CompileError) (delta : nu.Delta)
      (pipelines : Option (List (List nu.Element))) (engine' : nu.EngineState)
      (script : Script nu.Stack nu.ShellError nu.Value) : Type 0 where
    pub parsed : errors ≡ []
    pub compiled : compile_errors ≡ []
    pub block : List (List nu.Element)
    pub unshared : pipelines ≡ some block
    pub merged : nu.merge_delta engine delta ≡ (engine', none)
    pub redirected : List (List nu.Element)
    pub redirects : RedirectsLast block redirected
    pub evaluated : nu.eval_block engine' stack redirected ≡ script

  start-Evaluates :
      (m : nu.EngineState × Option nu.ShellError) (stack : nu.Stack)
      (block : List (List nu.Element)) {engine' : nu.EngineState}
      {script : Script nu.Stack nu.ShellError nu.Value}
      → start nu m stack block ≡ (engine', evaluate script)
      → (m ≡ (engine', none)) × (nu.eval_block engine' stack block ≡ script)
  unfolding start
  start-Evaluates (engine, some e) stack block h = absurd (cc)
  start-Evaluates (engine, none) stack block {engine'} h = (cc, cc)

  run_parsed-Evaluates :
      (errors : List nu.ParseError) (compile_errors : List nu.CompileError) (delta : nu.Delta)
      (pipelines : Option (List (List nu.Element))) (engine engine' : nu.EngineState)
      (stack : nu.Stack) (script : Script nu.Stack nu.ShellError nu.Value)
      → run_parsed nu errors compile_errors delta pipelines engine stack
        ≡ some (engine', evaluate script)
      → Evaluates engine stack errors compile_errors delta pipelines engine' script
  unfolding run_parsed
  run_parsed-Evaluates (e ∷ _) cs delta ps engine engine' stack script h = absurd (cc)
  run_parsed-Evaluates [] (e ∷ _) delta ps engine engine' stack script h = absurd (cc)
  run_parsed-Evaluates [] [] delta none engine engine' stack script h = absurd (cc)
  run_parsed-Evaluates [] [] delta (some ps) engine engine' stack script h =
      let (m, e) = start-Evaluates (nu.merge_delta engine delta) stack (redirect_last nu ps) (cc) in
      record {
        parsed = refl;
        compiled = refl;
        block = ps;
        unshared = refl;
        merged = m;
        redirected = redirect_last nu ps;
        redirects = redirect_last-RedirectsLast ps;
        evaluated = e;
      }

  -- `execute` evaluates only a source without parse and compile errors whose delta merged, and then,
  -- on the merged engine, the block in which nothing but the last element of the last pipeline, where
  -- there is one, is replaced, by its redirection to pipes.
  pub execute-Evaluates :
      (code name : Text) (engine engine' : nu.EngineState) (stack : nu.Stack)
      (script : Script nu.Stack nu.ShellError nu.Value)
      → execute nu code engine stack name ≡ some (engine', evaluate script)
      → let source = nu.parse engine name code in
        Evaluates engine stack source.parse_errors source.compile_errors source.delta
          source.pipelines engine' script
  unfolding execute
  execute-Evaluates code name engine engine' stack script h =
      run_parsed-Evaluates _ _ _ _ engine engine' stack script h
