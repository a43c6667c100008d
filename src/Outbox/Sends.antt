-- ===== src/Outbox/Sends.antt =====
-- What a step of the process sends: a postcondition on its result and on the messages that it adds.
use mathlib.Core.Path.{subst}
use mathlib.Core.List.{append-nil, append_assoc}
use nu_jupyter_kernel.Prelude.{◌≡◌, refl, sym, ap, ◌∙◌, List, [], ◌∷◌, ◌++◌, Option, none, some}
use nu_jupyter_kernel.Prelude.Text.{Bytes, Text}
use nu_jupyter_kernel.Prelude.Flow.{Flow, ok, err, panics}
use nu_jupyter_kernel.Messages.{Header, Message, new_header}
use nu_jupyter_kernel.Messages.Content.{OutgoingContent}
use nu_jupyter_kernel.Messages.Multipart.{into_multipart}
use nu_jupyter_kernel.Nu.{Env, Process, Route, Sent}
use nu_jupyter_kernel.Outbox.{M, ◌>>=◌, return, unwrap, compose, push, send}

run_bind :
    {J A B : Type 0} (o : Option (A × Process J)) (f : A → M J B) {r : B × Process J}
    → (elim o [ none ↦ none | some (a, p') ↦ f a p' ]) ≡ some r
    → (a : A) × (p' : Process J) × (o ≡ some (a, p')) × (f a p' ≡ some r)
run_bind none f h = cc
run_bind (some (a, p')) f h = (a, p', refl, h)

pub >>=-eq-some :
    {J A B : Type 0} (m : M J A) (f : A → M J B) (p : Process J) {r : B × Process J}
    → (m >>= f) p ≡ some r
    → (a : A) × (p' : Process J) × (m p ≡ some (a, p')) × (f a p' ≡ some r)
>>=-eq-some m f p h = run_bind (m p) f h

pub some_pair :
    {A B : Type 0} {a a' : A} {b b' : B}
    → ◌≡◌ {A = Option (A × B)} (some (a, b)) (some (a', b'))
    → (a ≡ a') × (b ≡ b')
some_pair e = (cc, cc)

-- Wherever the step returns, `P` holds of its result and of what it sent.
pub record Sends {J A : Type 0} (P : A → List (Sent J) → Type 0) (m : M J A) : Type 0 where
  pub apply :
      (p : Process J) (a : A) (p' : Process J)
      → m p ≡ some (a, p')
      → (xs : List (Sent J)) × (p'.sent ≡ p.sent ++ xs) × P a xs

module _ {J A : Type 0} where
  -- A step that sends nothing.
  pub Sends-quiet :
      (P : A → List (Sent J) → Type 0) (m : M J A)
      → ((p : Process J) (a : A) (p' : Process J)
          → m p ≡ some (a, p')
          → (p'.sent ≡ p.sent) × P a [])
      → Sends P m
  Sends-quiet P m h = record {
    apply = λ p a p' e. let (same, post) = h p a p' e in ([], same ∙ sym (append-nil p.sent), post);
  }

  pub Sends-return : (P : A → List (Sent J) → Type 0) (a : A) → P a [] → Sends P (return a)
  Sends-return P a h = Sends-quiet P (return a) λ p b p' e.
      let (same, kept) = some_pair e in (sym (ap (λ q. q.sent) kept), subst (λ b. P b []) same h)

  pub Sends-bind :
      {B : Type 0} (P : A → List (Sent J) → Type 0) (Q : B → List (Sent J) → Type 0) (m : M J A)
      (f : A → M J B)
      → Sends P m
      → ((a : A) (xs : List (Sent J)) → P a xs → Sends (λ b ys. Q b (xs ++ ys)) (f a))
      → Sends Q (m >>= f)
  Sends-bind P Q m f hm hf = record {
    apply = λ p b p'' e.
        let (a, p', e1, e2) = >>=-eq-some m f p e in
        let (xs, s1, h1) = hm.apply p a p' e1 in
        let (ys, s2, h2) = (hf a xs h1).apply p' b p'' e2 in
        (xs ++ ys, s2 ∙ ap (λ s. s ++ ys) s1 ∙ append_assoc p.sent xs ys, h2);
  }

  pub Sends-imp :
      (P Q : A → List (Sent J) → Type 0) (m : M J A)
      → ((a : A) (xs : List (Sent J)) → P a xs → Q a xs)
      → Sends P m
      → Sends Q m
  Sends-imp P Q m f h = record {
    apply = λ p a p' e. let (xs, s, post) = h.apply p a p' e in (xs, s, f a xs post);
  }

pub Sends-panic : {J A : Type 0} (P : A → List (Sent J) → Type 0) → Sends {J = J} P (λ p. none)
Sends-panic P = Sends-quiet P _ (λ p a p' e. cc)

pub Sends-unwrap :
    {J E A : Type 0} (P : A → List (Sent J) → Type 0) (r : Flow E A)
    → ((a : A) → r ≡ ok a → P a [])
    → Sends {J = J} P (unwrap r)
Sends-unwrap P (ok a) h = Sends-return P a (h a refl)
Sends-unwrap P (err e) h = Sends-quiet P _ (λ p a p' e. cc)
Sends-unwrap P panics h = Sends-quiet P _ (λ p a p' e. cc)

module _ (env : Env) where
  open env use {J, serde, host}

  pub Sends-compose :
      (P : Message J (OutgoingContent J) → List (Sent J) → Type 0) (ids : List Bytes)
      (msg_type : Text) (parent : Option Header) (content : OutgoingContent J)
      → ((m : Message J (OutgoingContent J))
          → m.zmq_identities ≡ ids
          → m.header.msg_type ≡ msg_type
          → m.parent_header ≡ parent
          → m.content ≡ content
          → P m [])
      → Sends P (compose env ids msg_type parent content)
  unfolding compose new_header
  Sends-compose P ids msg_type parent content h = Sends-quiet P _ λ p a p' e.
      let (same, kept) = some_pair e in
      (sym (ap (λ q. q.sent) kept), subst (λ m. P m []) same (h _ refl refl refl refl))

  pub pushed :
      (route : Route) (m : Message J (OutgoingContent J)) (p : Process J) (o : Option (List Bytes))
      {r : Unit {0} × Process J}
      → (elim o [ none ↦ none | some frames ↦ some (tt, push env route m frames p) ]) ≡ some r
      → (frames : List Bytes) × (push env route m frames p ≡ r.1)
  pushed route m p none e = cc
  pushed route m p (some frames) e = (frames, cc)

  pub Sends-send :
      (P : Unit {0} → List (Sent J) → Type 0) (route : Route) (m : Message J (OutgoingContent J))
      → ((frames : List Bytes) → P tt (record { route = route; message = m; frames = frames } ∷ []))
      → Sends P (send env route m)
  unfolding send
  Sends-send P route m h = record {
    apply = λ p a p' e.
        let (frames, kept) = pushed route m p (into_multipart serde host p.globals.key m) e in
        (
          record { route = route; message = m; frames = frames } ∷ [],
          sym (ap (λ q. q.sent) kept),
          h frames,
        );
  }
