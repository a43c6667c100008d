-- ===== src/Nu/Blocks/First.antt =====
-- The searches of nu/module.rs find the first element of the wanted form.
use nu_jupyter_kernel.Prelude.{
  ◌≡◌, refl, sym, ap, ◌∙◌, ◌↔◌, inl, inr, List, [], ◌∷◌, ◌++◌, Option, none, some, Bool, true,
  false, if◌then◌else◌, Option-cases, All,
}
use nu_jupyter_kernel.Prelude.Text.{Text, text_eq_iff, text_eq_refl}
use nu_jupyter_kernel.Nu.Blocks.{
  Ast, or_continue, in_pipeline, in_pipelines, is_name, named, block_argument, module_of,
  find_inner_block, decl_of, item_decl, find_decl,
}

-- The elements of a block, pipeline after pipeline.
abbrev pub flatten {ℓ} : {A : Type ℓ} → List (List A) → List A
flatten [] = []
flatten (p ∷ pipelines) = p ++ flatten pipelines

-- A list has a first element with a property, and before it none that has one.
abbrev pub First : {A B : Type 0} → (A → B → Type 0) → List A → B → Type 0
First {A = A} {B = B} P xs b =
    (front : List A) × (x : A) × (back : List A) × (xs ≡ front ++ x ∷ back)
    × P x b
    × All (λ y. (c : B) → ¬ P y c) front

module _ {A B : Type 0} (f : A → Option B) where
  in_pipeline-append :
      (xs ys : List A)
      → in_pipeline f (xs ++ ys) ≡ or_continue f (in_pipeline f xs) (in_pipeline f ys)
  unfolding in_pipeline
  in_pipeline-append [] ys = refl
  in_pipeline-append (x ∷ xs) ys = elim (Option-cases (f x)) [
    | inl e ↦ rw e (in_pipeline-append xs ys)
    | inr (b, e) ↦ rw e refl
  ]

  in_pipelines-flatten :
      (pipelines : List (List A)) → in_pipelines f pipelines ≡ in_pipeline f (flatten pipelines)
  unfolding in_pipelines in_pipeline
  in_pipelines-flatten [] = refl
  in_pipelines-flatten (p ∷ pipelines) =
      ap (or_continue f (in_pipeline f p)) (in_pipelines-flatten pipelines)
      ∙ sym (in_pipeline-append p (flatten pipelines))

  module _ (P : A → B → Type 0) (same : (a : A) (b : B) → (f a ≡ some b) ↔ P a b) where
    in_pipeline-First : (xs : List A) (b : B) → in_pipeline f xs ≡ some b → First P xs b
    unfolding in_pipeline
    in_pipeline-First [] b h = cc
    in_pipeline-First (x ∷ xs) b h = elim (Option-cases (f x)) [
      | inl e ↦
          let (front, y, back, s, p, none_before) =
            in_pipeline-First xs b (sym (ap (λ o. or_continue f o (in_pipeline f xs)) e) ∙ h) in
          (x ∷ front, y, back, ap (λ z. x ∷ z) s, p, (λ c q. cc (e, (same x c).1 q), none_before))
      | inr (c, e) ↦ (
        [],
        x,
        xs,
        refl,
        (same x b).0 (e ∙ sym (ap (λ o. or_continue f o (in_pipeline f xs)) e) ∙ h),
        tt,
      )
    ]

    none_of : (x : A) → ((c : B) → ¬ P x c) → f x ≡ none
    none_of x h = elim (Option-cases (f x)) [
      | inl e ↦ e
      | inr (c, e) ↦ absurd (h c ((same x c).0 e))
    ]

    First-in_pipeline :
        (front : List A) (x : A) (back : List A) (b : B)
        → P x b
        → All (λ y. (c : B) → ¬ P y c) front
        → in_pipeline f (front ++ x ∷ back) ≡ some b
    unfolding in_pipeline
    First-in_pipeline [] x back b p h = rw ((same x b).1 p) refl
    First-in_pipeline (y ∷ front) x back b p h =
        rw (none_of y h.0) (First-in_pipeline front x back b p h.1)

    in_pipelines_iff :
        (pipelines : List (List A)) (b : B)
        → (in_pipelines f pipelines ≡ some b) ↔ First P (flatten pipelines) b
    in_pipelines_iff pipelines b = (
      λ h. in_pipeline-First (flatten pipelines) b (sym (in_pipelines-flatten pipelines) ∙ h),
      λ (front, x, back, s, p, h).
          in_pipelines-flatten pipelines
          ∙ ap (in_pipeline f) s
          ∙ First-in_pipeline front x back b p h,
    )

is_name-some : (name : Text) (o : Option Text) → is_name name o ≡ true → o ≡ some name
unfolding is_name
is_name-some name none h = cc
is_name-some name (some t) h = ap some ((text_eq_iff t name).0 h)

if_some :
    {A : Type 0} (b : Bool) (o : Option A) (a : A)
    → (if b then o else none) ≡ some a
    → (b ≡ true) × (o ≡ some a)
if_some true o a h = (refl, h)
if_some false o a h = cc

module _ (ast : Ast) where
  open ast use {Expression, BlockId, DeclId, Span}

  -- A call whose first argument is the string of the name.
  abbrev pub CallsWith : Expression → DeclId → Text → List (Option Expression) → Type 0
  CallsWith e decl_id name more =
      (s : Expression) × (ast.call e ≡ some (decl_id, some s ∷ more)) × (ast.string s ≡ some name)

  -- ... and whose second is the block.
  abbrev pub IsModule : Text → Expression → BlockId → Type 0
  IsModule name e id =
      (decl_id : DeclId) × (b : Expression) × (rest : List (Option Expression)) × CallsWith e
        decl_id name (some b ∷ rest)
      × (ast.block b ≡ some id)

  abbrev pub IsDecl : Text → Expression → DeclId × Span → Type 0
  IsDecl name e found =
      (item : Expression) × (rest : List (Option Expression)) × (ast.attribute_item e ≡ some item)
      × CallsWith item (found.0) name rest
      × (found.1 ≡ ast.span item)

  named-string :
      (name : Text) (arguments : List (Option Expression))
      → named ast name arguments ≡ true
      → (s : Expression) × (rest : List (Option Expression)) × (arguments ≡ some s ∷ rest)
        × (ast.string s ≡ some name)
  unfolding named
  named-string name [] h = cc
  named-string name (none ∷ rest) h = cc
  named-string name (some s ∷ rest) h = (s, rest, refl, is_name-some name (ast.string s) h)

  string-named :
      (name : Text) (s : Expression) (rest : List (Option Expression))
      → ast.string s ≡ some name
      → named ast name (some s ∷ rest) ≡ true
  unfolding named is_name
  string-named name s rest h = rw h (text_eq_refl name)

  block_argument-some :
      (s : Expression) (rest : List (Option Expression)) (id : BlockId)
      → block_argument ast (some s ∷ rest) ≡ some id
      → (b : Expression) × (more : List (Option Expression)) × (rest ≡ some b ∷ more)
        × (ast.block b ≡ some id)
  unfolding block_argument
  block_argument-some s [] id h = cc
  block_argument-some s (none ∷ rest) id h = cc
  block_argument-some s (some b ∷ rest) id h = (b, rest, refl, h)

  module_of-IsModule :
      (name : Text) (e : Expression) (id : BlockId) (c : Option (DeclId × List (Option Expression)))
      → ast.call e ≡ c
      → module_of ast name c ≡ some id
      → IsModule name e id
  unfolding module_of
  module_of-IsModule name e id none k h = cc
  module_of-IsModule name e id (some (d, arguments)) k h =
      let (n, a) = if_some (named ast name arguments) (block_argument ast arguments) id h in
      let (s, rest, split, t) = named-string name arguments n in
      let (b, more, rest_split, i) =
        block_argument-some s rest id (sym (ap (block_argument ast) split) ∙ a) in
      (d, b, more, (s, cc (k, split, rest_split), t), i)

  IsModule-iff :
      (name : Text) (e : Expression) (id : BlockId)
      → (module_of ast name (ast.call e) ≡ some id) ↔ IsModule name e id
  unfolding module_of block_argument
  IsModule-iff name e id = (
    module_of-IsModule name e id (ast.call e) refl,
    λ (d, b, rest, (s, k, t), i). rw (k, string-named name s (some b ∷ rest) t) i,
  )

  item_decl-IsDecl :
      (name : Text) (e : Expression) (found : DeclId × Span) (i : Option Expression)
      → ast.attribute_item e ≡ i
      → item_decl ast name i ≡ some found
      → IsDecl name e found
  unfolding item_decl decl_of
  item_decl-IsDecl name e found none k h = cc
  item_decl-IsDecl name e found (some item) k h = go (ast.call item) refl h
    where
      go :
          (c : Option (DeclId × List (Option Expression)))
          → ast.call item ≡ c
          → decl_of ast name (ast.span item) c ≡ some found
          → IsDecl name e found
      go none l h = cc
      go (some (d, arguments)) l h =
          let (n, a) = if_some (named ast name arguments) (some (d, ast.span item)) found h in
          let (s, rest, split, t) = named-string name arguments n in
          (item, rest, k, (s, cc (l, split, a), t), cc a)

  IsDecl-iff :
      (name : Text) (e : Expression) (found : DeclId × Span)
      → (item_decl ast name (ast.attribute_item e) ≡ some found) ↔ IsDecl name e found
  unfolding item_decl decl_of
  IsDecl-iff name e found = (
    item_decl-IsDecl name e found (ast.attribute_item e) refl,
    λ (item, rest, k, (s, l, t), i). rw (k, l, string-named name s rest t) (cc i),
  )

  -- `find_inner_block` finds the block of the first call, in the order of the text, whose arguments
  -- start with the string of the name and a block, and `find_decl` the declaration and the span of
  -- the first attributed call whose first argument is the string of the name; where there is no such
  -- call, neither finds anything.
  pub find_iff :
      (pipelines : List (List Expression)) (name : Text)
      → ((id : BlockId)
          → (find_inner_block ast pipelines name ≡ some id)
            ↔ First (IsModule name) (flatten pipelines) id)
        × ((found : DeclId × Span)
            → (find_decl ast pipelines name ≡ some found)
              ↔ First (IsDecl name) (flatten pipelines) found)
  unfolding find_inner_block find_decl
  find_iff pipelines name = (
    in_pipelines_iff _ (IsModule name) (IsModule-iff name) pipelines,
    in_pipelines_iff _ (IsDecl name) (IsDecl-iff name) pipelines,
  )
