-- ===== src/Plotters/Arguments/Loops.antt =====
-- What a loop over named arguments does to one field.
use mathlib.Core.Path.{subst}
use nu_jupyter_kernel.Prelude.{
  ◌≡◌, refl, sym, ap, ◌∙◌, [], ◌∷◌, Option, none, some, Bool, true, false, if◌then◌else◌,
  Bool-cases, inl, inr,
}
use nu_jupyter_kernel.Prelude.Text.{Text, text_eq, text_eq_iff}
use nu_jupyter_kernel.Prelude.Table.{lookup}
use nu_jupyter_kernel.Nu.{Result, ok, err}
use nu_jupyter_kernel.Nu.Results.{◌>>=◌, >>=-eq-ok}
use nu_jupyter_kernel.Plotters.Arguments.{Named}

-- No name is given twice.
abbrev pub Once : {Value : Type 0} → Named Value → Type 0
Once [] = Unit {0}
Once ((name, value) ∷ named) = (lookup name named ≡ none) × Once named

>>=-ok :
    {E A : Type 0} (m : Result E A) (k : A → Result E A) → ((a : A) → k a ≡ ok a) → (m >>= k) ≡ m
>>=-ok (err e) k h = refl
>>=-ok (ok a) k h = h a

module _ {Value E : Type 0} where
  -- One argument, and the field that a name stands for.
  unfoldable pub read_one :
      {A : Type 0} → (Option Value → Result E A) → Text → Text → Option Value → A → Result E A
  read_one extract field name value old = if text_eq name field then extract value else ok old

  -- The last argument of the name; each has to be readable.
  unfoldable pub read_field :
      {A : Type 0} → (Option Value → Result E A) → Text → Named Value → A → Result E A
  unfolding read_one
  read_field extract field [] old = ok old
  read_field extract field ((name, value) ∷ named) old =
      read_one extract field name value old >>= read_field extract field named

  abbrev pub or_old :
      {A : Type 0} → (Option Value → Result E A) → Option (Option Value) → A → Result E A
  or_old extract none old = ok old
  or_old extract (some value) old = extract value

  read_field-absent :
      {A : Type 0} (extract : Option Value → Result E A) (field : Text) (named : Named Value)
      (old : A)
      → lookup field named ≡ none
      → read_field extract field named old ≡ ok old
  unfolding read_field read_one lookup
  read_field-absent extract field [] old h = refl
  read_field-absent extract field ((name, value) ∷ named) old h =
      elim (Bool-cases (text_eq name field)) [
        | inl e ↦ absurd (cc (sym (ap (λ b. if b then some value else lookup field named) e) ∙ h))
        | inr e ↦ rw e (
            read_field-absent extract field named old
              (sym (ap (λ b. if b then some value else lookup field named) e) ∙ h))
      ]

  -- The field of a name that is given once.
  pub read_field-lookup :
      {A : Type 0} (extract : Option Value → Result E A) (field : Text) (named : Named Value)
      (old : A)
      → Once named
      → read_field extract field named old ≡ or_old extract (lookup field named) old
  unfolding read_field read_one lookup
  read_field-lookup extract field [] old h = refl
  read_field-lookup extract field ((name, value) ∷ named) old h =
      elim (Bool-cases (text_eq name field)) [
        | inl e ↦ rw e (
            >>=-ok (extract value) _ λ x.
              read_field-absent extract field named x
                (subst (λ n. lookup n named ≡ none) ((text_eq_iff name field).0 e) h.0))
        | inr e ↦ rw e (read_field-lookup extract field named old h.1)
      ]

-- A case on a test.
pub by_test : {P : Type 0} (b : Bool) → (b ≡ true → P) → (b ≡ false → P) → P
by_test b yes_case no_case = elim (Bool-cases b) [ inl e ↦ yes_case e | inr e ↦ no_case e ]

-- One name of a `match`: what it reads, and what it makes of the options.
pub named_at :
    {Value E O A : Type 0} (set : Text → Option Value → O → Result E O) (k name : Text)
    (value : Option Value) (o o' : O) (m : Result E A) (g : A → O) (P : Text → O → Type 0)
    → set k value o ≡ (m >>= λ x. ok (g x))
    → ((a : A) → m ≡ ok a → P k (g a))
    → set name value o ≡ ok o'
    → text_eq name k ≡ true
    → P name o'
named_at set k name value o o' m g P chain step e here =
    let same_name : name ≡ k = (text_eq_iff name k).0 here in
    let at : set k value o ≡ ok o' = subst (λ x. set x value o ≡ ok o') same_name e in
    let (a, read, same) = >>=-eq-ok m (λ x. ok (g x)) (sym chain ∙ at) in
    let eq : g a ≡ o' = cc same in
    subst (λ x. P x o') (sym same_name) (subst (P k) eq (step a read))
