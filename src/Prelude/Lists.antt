-- ===== src/Prelude/Lists.antt =====
-- Lists measured by native numbers, and predicates that hold along a list.
use Prim.Native.Nat.{ℕ, suc, ◌+◌}
use mathlib.Core.Path.{◌≡◌, refl, sym}
use mathlib.Core.Logic.{◌≢◌}
use mathlib.Core.Logic.Or
use mathlib.Core.HLevel.{⊥_prop}
use mathlib.Core.List.{List, [], ◌∷◌, ◌++◌, Mem, mem-cons, not-mem-nil}
use native.Mathlib.Omega.{arith}

module _ {ℓ} {A : Type ℓ} where
  abbrev pub length : List A → ℕ
  length [] = 0
  length (x ∷ xs) = suc (length xs)

  pub length-append : (xs ys : List A) → length (xs ++ ys) ≡ length xs + length ys
  length-append [] ys = omega arith
  length-append (x ∷ xs) ys = omega (arith, length-append xs ys)

abbrev pub All {ℓ κ} : {A : Type ℓ} → (A → Type κ) → List A → Type κ
All P [] = Unit
All P (x ∷ xs) = P x × All P xs

pub All-append {ℓ κ} :
    {A : Type ℓ} (P : A → Type κ) (xs ys : List A) → All P xs → All P ys → All P (xs ++ ys)
All-append P [] ys hx hy = hy
All-append P (x ∷ xs) ys hx hy = (hx.0, All-append P xs ys hx.1 hy)

pub All-imp {ℓ κ ι} :
    {A : Type ℓ} (P : A → Type κ) (Q : A → Type ι) (xs : List A)
    → ((a : A) → P a → Q a)
    → All P xs
    → All Q xs
All-imp P Q [] f h = tt
All-imp P Q (x ∷ xs) f h = (f x h.0, All-imp P Q xs f h.1)

pub All-zip {ℓ κ ι} :
    {A : Type ℓ} (P : A → Type κ) (Q : A → Type ι) (xs : List A)
    → All P xs
    → All Q xs
    → All (λ a. P a × Q a) xs
All-zip P Q [] hp hq = tt
All-zip P Q (x ∷ xs) hp hq = ((hp.0, hq.0), All-zip P Q xs hp.1 hq.1)

module _ {ℓ} {A : Type ℓ} where
  pub not_mem_of_All : (a : A) (xs : List A) → All (λ x. x ≢ a) xs → ¬ Mem a xs
  not_mem_of_All a [] h m = not-mem-nil m
  not_mem_of_All a (x ∷ xs) h m =
      Or.elim ⊥_prop (mem-cons.0 m) (λ e. h.0 (sym e)) (not_mem_of_All a xs h.1)

  -- A separator that occurs in neither prefix fixes where both lists split.
  pub split_unique :
      (sep : A) (xs ys s t : List A)
      → All (λ x. x ≢ sep) xs
      → All (λ x. x ≢ sep) ys
      → xs ++ sep ∷ s ≡ ys ++ sep ∷ t
      → (xs ≡ ys) × (s ≡ t)
  split_unique sep [] [] s t hx hy e = (refl, cc)
  split_unique sep [] (y ∷ ys) s t hx hy e = absurd (hy.0 (cc))
  split_unique sep (x ∷ xs) [] s t hx hy e = absurd (hx.0 (cc))
  split_unique sep (x ∷ xs) (y ∷ ys) s t hx hy e =
      let ih = split_unique sep xs ys s t hx.1 hy.1 (cc) in (cc (ih.0), ih.1)

  pub append_cancel_left : (p xs ys : List A) → p ++ xs ≡ p ++ ys → xs ≡ ys
  append_cancel_left [] xs ys e = e
  append_cancel_left (x ∷ p) xs ys e = append_cancel_left p xs ys (cc)
