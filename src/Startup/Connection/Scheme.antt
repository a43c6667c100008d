-- ===== src/Startup/Connection/Scheme.antt =====
-- Which signature schemes are accepted.
use nu_jupyter_kernel.Prelude.{
  ℕ, ◌≡◌, refl, sym, ap, ◌∙◌, ◌↔◌, ◌⊎◌, inl, inr, List, [], ◌∷◌, ◌++◌, Bool, true, false,
  if◌then◌else◌, ◌==◌, Bool-cases, ==_iff,
}
use nu_jupyter_kernel.Prelude.Text.{Text, lit, text_eq, text_eq_iff}
use nu_jupyter_kernel.Nu.{Result, ok, err}
use nu_jupyter_kernel.Startup.Connection.{
  SupportedSignatureAlgorithm, SupportedSignatureHashFunction, SignatureScheme, SchemeError,
  cons_head, split, algorithm_of, hash_fn_of, scheme, from_parts, deserialize,
}

-- A text without the separator is one part; any other is split at its first separator.
split-first :
    (sep : ℕ) (s : Text)
    → (split sep s ≡ s ∷ [])
      ⊎ ((f : Text) × (t : Text) × (s ≡ f ++ sep ∷ t) × (split sep s ≡ f ∷ split sep t))
unfolding split cons_head
split-first sep [] = inl refl
split-first sep (c ∷ s) = elim (Bool-cases (c == sep)) [
  | inl e ↦ inr ([], s, ap (λ x. x ∷ s) ((==_iff c sep).0 e), rw e refl)
  | inr e ↦ elim (split-first sep s) [
    | inl h ↦ inl (rw (e, h) refl)
    | inr (f, t, h, k) ↦ inr (c ∷ f, t, ap (λ x. c ∷ x) h, rw (e, k) refl)
  ]
]

if_ok :
    {E A : Type 0} (b : Bool) (a : A) (e : E) (r : A)
    → (if b then ok a else err e) ≡ ok r
    → b ≡ true
if_ok true a e r h = refl
if_ok false a e r h = cc

scheme-ok :
    (x : Result SchemeError SupportedSignatureAlgorithm)
    (y : Result SchemeError SupportedSignatureHashFunction) (r : SignatureScheme)
    → scheme x y ≡ ok r
    → ((p : SupportedSignatureAlgorithm) × (x ≡ ok p))
      × ((q : SupportedSignatureHashFunction) × (y ≡ ok q))
unfolding scheme
scheme-ok (err e) y r h = cc
scheme-ok (ok p) (err e) r h = cc
scheme-ok (ok p) (ok q) r h = ((p, refl), (q, refl))

from_parts-ok :
    (a h : Text) (parts : List Text) (r : SignatureScheme)
    → from_parts (a ∷ h ∷ parts) ≡ ok r
    → (a ≡ lit "hmac") × (h ≡ lit "sha256")
unfolding from_parts algorithm_of hash_fn_of
from_parts-ok a h parts r e =
    let ((p, x), (q, y)) = scheme-ok (algorithm_of a) (hash_fn_of h) r e in
    (
      (text_eq_iff a (lit "hmac")).0 (if_ok (text_eq a (lit "hmac")) _ _ p x),
      (text_eq_iff h (lit "sha256")).0 (if_ok (text_eq h (lit "sha256")) _ _ q y),
    )

deserialize-ok :
    (s : Text) (r : SignatureScheme)
    → deserialize s ≡ ok r
    → (s ≡ lit "hmac-sha256") ⊎ ((rest : Text) × (s ≡ lit "hmac-sha256-" ++ rest))
unfolding deserialize from_parts
deserialize-ok s r e = elim (split-first b'-' s) [
  | inl h ↦ cc (sym (ap from_parts h) ∙ e)
  | inr (f, t, h, k) ↦ elim (split-first b'-' t) [
    | inl l ↦
        let (x, y) = from_parts-ok f t [] r (sym (ap from_parts (k ∙ ap (λ z. f ∷ z) l)) ∙ e) in
        inl (cc (h, x, y))
    | inr (g, u, l, m) ↦
        let (x, y) =
          from_parts-ok f g (split b'-' u) r (sym (ap from_parts (k ∙ ap (λ z. f ∷ z) m)) ∙ e) in
        inr (
          u,
          h
              ∙ ap (λ z. z ++ b'-' ∷ t) x
              ∙ ap (λ z. lit "hmac-" ++ z) (l ∙ ap (λ z. z ++ b'-' ∷ u) y),
        )
  ]
]

accepted : SignatureScheme
accepted = record {
  algorithm = SupportedSignatureAlgorithm.hmac;
  hash_fn = SupportedSignatureHashFunction.sha256;
}

-- Exactly the text `hmac-sha256`, and what continues it with a dash, is accepted.
pub deserialize_iff :
    (s : Text)
    → ((r : SignatureScheme) × (deserialize s ≡ ok r))
      ↔ ((s ≡ lit "hmac-sha256") ⊎ ((rest : Text) × (s ≡ lit "hmac-sha256-" ++ rest)))
unfolding deserialize from_parts split cons_head text_eq accepted scheme algorithm_of hash_fn_of
deserialize_iff s = (
  λ (r, e). deserialize-ok s r e,
  λ h. elim h [
    | inl e ↦ (accepted, ap deserialize e)
    | inr (rest, e) ↦ (accepted, ap deserialize e)
  ],
)
