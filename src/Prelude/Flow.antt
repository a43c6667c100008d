-- ===== src/Prelude/Flow.antt =====
-- A Rust `Result` with the panics: `panics` is an `unwrap` that fails, a `todo!`, or a slice out of range.
use mathlib.Core.Path.{◌≡◌, refl, subst, ap, ◌∙◌}
use mathlib.Core.Logic.{◌↔◌, ◌⊎◌, inl, inr}
use mathlib.Core.Bool.{Bool, true, false}
use mathlib.Core.Option.{Option, none, some}
use nu_jupyter_kernel.Prelude.Tests.{if◌then◌else◌}

pub data Flow (E : Type 0) (A : Type 0) : Type 0 where
  ok : A → Flow E A
  err : E → Flow E A
  panics : Flow E A

infixl 5 ◌>>=◌
abbrev pub ◌>>=◌ : {E A B : Type 0} → Flow E A → (A → Flow E B) → Flow E B
ok a >>= f = f a
err e >>= f = err e
panics >>= f = panics

-- `.map(f).unwrap()` on what may fail.
abbrev pub or_panic : {E A B : Type 0} → (A → B) → Option A → Flow E B
or_panic f none = panics
or_panic f (some a) = ok (f a)

-- Where it is a result, `P` holds of it.
pub record Gives {E A : Type 0} (P : A → Type 0) (m : Flow E A) : Type 0 where
  pub apply : (a : A) → m ≡ ok a → P a

pub Gives-bind :
    {E A B : Type 0} (P : B → Type 0) (m : Flow E A) (f : A → Flow E B)
    → ((a : A) → m ≡ ok a → Gives P (f a))
    → Gives P (m >>= f)
Gives-bind P (ok a) f h = h a refl
Gives-bind P (err x) f h = record { apply = λ b e. cc }
Gives-bind P panics f h = record { apply = λ b e. cc }

pub Gives-ok : {E A : Type 0} (P : A → Type 0) (a : A) → P a → Gives {E = E} P (ok a)
Gives-ok P a h = record { apply = λ b e. let same : a ≡ b = cc in subst P same h }

pub Gives-panics : {E A : Type 0} (P : A → Type 0) → Gives {E = E} P panics
Gives-panics P = record { apply = λ b e. cc }

pub Gives-err : {E A : Type 0} (P : A → Type 0) (e : E) → Gives {E = E} P (err e)
Gives-err P e = record { apply = λ b k. cc }

pub Gives-if :
    {E A : Type 0} (P : A → Type 0) (b : Bool) (m n : Flow E A)
    → Gives P m
    → Gives P n
    → Gives P (if b then m else n)
Gives-if P true m n h k = h
Gives-if P false m n h k = k

-- Where it panics.
pub bind-panics :
    {E A B : Type 0} (m : Flow E A) (f : A → Flow E B)
    → ((m >>= f) ≡ panics) ↔ ((m ≡ panics) ⊎ ((a : A) × (m ≡ ok a) × (f a ≡ panics)))
bind-panics (ok a) f = (
  λ e. inr (a, refl, e),
  λ h. elim h [ inl e ↦ cc | inr (b, same, e) ↦ (let at : a ≡ b = cc same in ap f at ∙ e) ],
)
bind-panics (err x) f = (λ e. cc, λ h. elim h [ inl e ↦ cc | inr (b, same, e) ↦ cc ])
bind-panics panics f = (λ e. inl refl, λ h. refl)

pub or_panic-panics :
    {E A : Type 0} (m : Option A) → (or_panic {E = E} (λ (c : A). c) m ≡ panics) ↔ (m ≡ none)
or_panic-panics none = (λ e. refl, λ e. refl)
or_panic-panics (some a) = (λ e. cc, λ e. cc)

pub or_panic-Gives :
    {E A B : Type 0} (P : B → Type 0) (f : A → B) (m : Option A)
    → ((a : A) → m ≡ some a → P (f a))
    → Gives {E = E} P (or_panic f m)
or_panic-Gives P f none h = Gives-panics P
or_panic-Gives P f (some a) h = Gives-ok P (f a) (h a refl)

pub or_panic-eq-ok :
    {E A : Type 0} (m : Option A) (a : A) → or_panic {E = E} (λ (x : A). x) m ≡ ok a → m ≡ some a
or_panic-eq-ok none a e = cc
or_panic-eq-ok (some b) a e = cc
