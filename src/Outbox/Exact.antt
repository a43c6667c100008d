-- ===== src/Outbox/Exact.antt =====
-- Steps that panic exactly if a condition fails, once `DIGESTER` has a key.
use mathlib.Core.Path.{subst, fun_ext}
use nu_jupyter_kernel.Prelude.{◌≡◌, refl, sym, ◌⊎◌, inl, inr, Option, none, some}
use nu_jupyter_kernel.Nu.{Process}
use nu_jupyter_kernel.Outbox.{M, ◌>>=◌}
use nu_jupyter_kernel.Outbox.Completes.{Completes, HasKey, Any}

-- `P` holds and the step returns, the key still set, or `P` does not hold and the step panics.
abbrev pub Ending : {J A : Type 0} → Type 0 → M J A → Process J → Type 0
Ending {J} {A} P m p =
    (P × (a : A) × (p' : Process J) × (m p ≡ some (a, p')) × HasKey p') ⊎ ((P → ⊥) × (m p ≡ none))

-- The same from every process with a key.
pub record Exact {J A : Type 0} (P : Type 0) (m : M J A) : Type 0 where
  pub apply : (p : Process J) → HasKey p → Ending P m p

module _ {J A : Type 0} where
  pub Exact-of_Completes : (m : M J A) → Completes Any m → Exact (Unit {0}) m
  Exact-of_Completes m h = record {
    apply = λ p k. let (a, p', e, k', _) = h.apply p k in inl (tt, a, p', e, k');
  }

  pub Exact-panic : (P : Type 0) (m : M J A) → (P → ⊥) → ((p : Process J) → m p ≡ none) → Exact P m
  Exact-panic P m not_P h = record { apply = λ p k. inr (not_P, h p) }

  pub bind-none :
      {B : Type 0} (m : M J B) (f : B → M J A) (p : Process J) → m p ≡ none → (m >>= f) p ≡ none
  bind-none m f p e = rw (e, ◌>>=◌) refl

  pub bind-some :
      {B : Type 0} (m : M J B) (f : B → M J A) (p : Process J) {b : B} {p' : Process J}
      → m p ≡ some (b, p')
      → (m >>= f) p ≡ f b p'
  bind-some m f p e = rw (e, ◌>>=◌) refl

  pub Exact-given : {P : Type 0} {m : M J A} → P → Completes Any m → Exact P m
  Exact-given x h = record {
    apply = λ p k. let (a, p', e, k', _) = h.apply p k in inl (x, a, p', e, k');
  }

  pub Exact-both : (P Q : Type 0) (m : M J A) → P → Exact Q m → Exact (P × Q) m
  Exact-both P Q m x h = record {
    apply = λ p k. elim (h.apply p k) [
      | inl (y, a, p', e, k') ↦ inl ((x, y), a, p', e, k')
      | inr (not_Q, e) ↦ inr (λ b. not_Q b.1, e)
    ];
  }

  -- A step before, and a step after.
  pub Ending-after :
      {B : Type 0} (P : Type 0) (m : M J B) (f : B → M J A) (p p' : Process J) (b : B)
      → m p ≡ some (b, p')
      → Ending P (f b) p'
      → Ending P (m >>= f) p
  Ending-after P m f p p' b e h = rw (e, ◌>>=◌) h

  pub Ending-then :
      {B : Type 0} (P : Type 0) (m : M J B) (f : B → M J A) (p : Process J)
      → Ending P m p
      → ((b : B) → Completes Any (f b))
      → Ending P (m >>= f) p
  Ending-then P m f p h hf = elim h [
    | inl (x, b, p', e, k') ↦
        let (a, p'', e', k'', _) = (hf b).apply p' k' in inl (x, a, p'', rw (e, ◌>>=◌) e', k'')
    | inr (not_P, e) ↦ inr (not_P, rw (e, ◌>>=◌) refl)
  ]

  pub Exact-after :
      {B : Type 0} (Q : B → Type 0) (P : Type 0) (m : M J B) (f : B → M J A)
      → Completes Q m
      → ((b : B) → Q b → Exact P (f b))
      → Exact P (m >>= f)
  Exact-after Q P m f hm hf = record {
    apply = λ p k. let (b, p', e, k', q) = hm.apply p k in rw (e, ◌>>=◌) ((hf b q).apply p' k');
  }

  pub Exact-then :
      {B : Type 0} (P : Type 0) (m : M J B) (f : B → M J A)
      → Exact P m
      → ((b : B) → Completes Any (f b))
      → Exact P (m >>= f)
  Exact-then P m f hm hf = record { apply = λ p k. Ending-then P m f p (hm.apply p k) hf }

  -- A step before whose result is known.
  pub Exact-known :
      {B : Type 0} (b : B) (P : Type 0) (m : M J B) (f : B → M J A)
      → Completes (λ x. x ≡ b) m
      → Exact P (f b)
      → Exact P (m >>= f)
  Exact-known b P m f hm hf =
      Exact-after (λ x. x ≡ b) P m f hm (λ x e. subst (λ x. Exact P (f x)) (sym e) hf)

  pub Exact-assoc :
      {B C : Type 0} (P : Type 0) (m : M J B) (g : B → M J C) (f : C → M J A)
      → Exact P (m >>= λ b. g b >>= f)
      → Exact P (m >>= g >>= f)
  Exact-assoc {B = B} P m g f h = subst (Exact P) (fun_ext (λ p. go p (m p))) h
    where
      go :
          (p : Process J) (r : Option (B × Process J))
          → ((λ q. r) >>= λ b. g b >>= f) p ≡ ((λ q. r) >>= g >>= f) p
      go p none = refl
      go p (some (b, p')) = refl
