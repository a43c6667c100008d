-- ===== src/Nu/Results.antt =====
-- Chains of Rust results, `?`.
use nu_jupyter_kernel.Prelude.{◌≡◌, refl}
use nu_jupyter_kernel.Nu.{Result, ok, err}

infixl 5 ◌>>=◌
abbrev pub ◌>>=◌ : {E A B : Type 0} → Result E A → (A → Result E B) → Result E B
err e >>= k = err e
ok a >>= k = k a

pub >>=-eq-ok :
    {E A B : Type 0} (m : Result E A) (k : A → Result E B) {b : B}
    → (m >>= k) ≡ ok b
    → (a : A) × (m ≡ ok a) × (k a ≡ ok b)
>>=-eq-ok (err e) k h = cc
>>=-eq-ok (ok a) k h = (a, refl, h)

pub >>=-cong :
    {E A B : Type 0} (m : Result E A) (k l : A → Result E B)
    → ((a : A) → k a ≡ l a)
    → (m >>= k) ≡ (m >>= l)
>>=-cong (err e) k l h = refl
>>=-cong (ok a) k l h = h a
