-- ===== src/Outbox/Completes.antt =====
-- Steps that end without a panic and keep the key, once `DIGESTER` has one.
use mathlib.Core.Path.{subst}
use nu_jupyter_kernel.Prelude.{◌≡◌, ◌≢◌, refl, sym, ◌∙◌, List, Option, some}
use nu_jupyter_kernel.Prelude.Text.{Bytes, Text}
use nu_jupyter_kernel.Prelude.Flow.{Flow, ok}
use nu_jupyter_kernel.Messages.{Header, Message, Host, Globals, new_header, get_session}
use nu_jupyter_kernel.Messages.Content.{OutgoingContent, Serde, Writes}
use nu_jupyter_kernel.Messages.Multipart.{into_multipart, parent_to_string, sign, chain, try_from}
use nu_jupyter_kernel.Prelude.{none, [], ◌∷◌, arith}
use nu_jupyter_kernel.Nu.{Env, Process, Route}
use nu_jupyter_kernel.Outbox.{M, ◌>>=◌, return, unwrap, compose, push, send}

pub record HasKey {J : Type 0} (p : Process J) : Type 0 where
  pub key : Bytes
  pub is_set : p.globals.key ≡ some key

-- From every process with a key, the step returns, the key still set, and `P` holds of the result.
pub record Completes {J A : Type 0} (P : A → Type 0) (m : M J A) : Type 0 where
  pub apply :
      (p : Process J)
      → HasKey p
      → (a : A) × (p' : Process J) × (m p ≡ some (a, p')) × HasKey p' × P a

abbrev pub Any : {A : Type 0} → A → Type 0
Any a = Unit {0}

module _ {J A : Type 0} where
  pub Completes-return : (P : A → Type 0) (a : A) → P a → Completes P (return {J = J} a)
  Completes-return P a h = record { apply = λ p k. (a, p, refl, k, h) }

  pub Completes-bind :
      {B : Type 0} (P : A → Type 0) (Q : B → Type 0) (m : M J A) (f : A → M J B)
      → Completes P m
      → ((a : A) → P a → Completes Q (f a))
      → Completes Q (m >>= f)
  Completes-bind P Q m f hm hf = record {
    apply = λ p k.
        let (a, p', e, k', h) = hm.apply p k in
        let (b, p'', e', k'', h') = (hf a h).apply p' k' in (b, p'', rw (e, ◌>>=◌) e', k'', h');
  }

pub Completes-not_none :
    {J A : Type 0} {P : A → Type 0} {m : M J A} {p : Process J}
    → Completes P m
    → HasKey p
    → m p ≢ none
Completes-not_none h key e = let (a, p', e', _, _) = h.apply _ key in cc

pub Completes-unwrap :
    {J E A : Type 0} (r : Flow E A) (a : A) → r ≡ ok a → Completes {J = J} (λ b. b ≡ a) (unwrap r)
Completes-unwrap r a e = rw e (Completes-return _ a refl)

try_from-chain :
    (ids : List Bytes) (a b c d e : Text) (buffers : List Bytes)
    → (frames : List Bytes) × (try_from (chain ids a b c d e buffers) ≡ some frames)
unfolding try_from chain
try_from-chain [] a b c d e buffers = (_, refl)
try_from-chain (x ∷ ids) a b c d e buffers = (_, refl)

parent_to_string-Writes :
    {J : Type 0} (serde : Serde J) (p : Option Header)
    → Writes serde
    → (t : Text) × (parent_to_string serde p ≡ some t)
unfolding parent_to_string
parent_to_string-Writes serde none w = (_, refl)
parent_to_string-Writes serde (some h) w = w.header h

-- With a key, every message whose parts are written has frames.
pub into_multipart_total :
    {J : Type 0} (serde : Serde J) (host : Host) (key : Bytes) (m : Message J (OutgoingContent J))
    → Writes serde
    → (frames : List Bytes) × (into_multipart serde host (some key) m ≡ some frames)
unfolding into_multipart
into_multipart_total serde host key m w =
    let (header, e1) = w.header m.header in
    let (parent, e2) = parent_to_string-Writes serde m.parent_header w in
    let (metadata, e3) = w.metadata m.metadata in
    let (content, e4) = w.content m.content in
    let (frames, e5) =
      try_from-chain m.zmq_identities (sign host key header parent metadata content) header parent
        metadata content m.buffers in
    (frames, rw (e1, e2, e3, e4) e5)

new_header-key : (host : Host) (type : Text) (g : Globals) → (new_header host type g).1.key ≡ g.key
unfolding new_header get_session
new_header-key host type g = ground arith

module _ (env : Env) where
  open env use {J, serde, host}

  send_of_frames :
      (route : Route) (m : Message J (OutgoingContent J)) (p : Process J) (frames : List Bytes)
      → into_multipart serde host p.globals.key m ≡ some frames
      → send env route m p ≡ some (tt, push env route m frames p)
  unfolding send
  send_of_frames route m p frames e = rw (e, send)

  pub Completes-compose :
      (ids : List Bytes) (type : Text) (parent : Option Header) (content : OutgoingContent J)
      → Completes Any (compose env ids type parent content)
  unfolding compose
  Completes-compose ids type parent content = record {
    apply = λ p k. (
      _,
      _,
      refl,
      record { key = k.key; is_set = new_header-key host type p.globals ∙ k.is_set },
      tt,
    );
  }

  pub Completes-send :
      (route : Route) (m : Message J (OutgoingContent J))
      → Writes serde
      → Completes Any (send env route m)
  Completes-send route m w = record {
    apply = λ p k.
        let (frames, e) = into_multipart_total serde host k.key m w in
        let e' = subst (λ key. into_multipart serde host key m ≡ some frames) (sym k.is_set) e in
        (
          tt,
          push env route m frames p,
          send_of_frames route m p frames e',
          record { key = k.key; is_set = k.is_set },
          tt,
        );
  }
