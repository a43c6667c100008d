-- ===== src/Messages/Wire/Framing.antt =====
-- What `recv` makes of frames laid out as `into_multipart` lays them out.
use mathlib.Core.Path.{subst}
use nu_jupyter_kernel.Prelude.Maybe.{>>=-eq-some}
use nu_jupyter_kernel.Prelude.{
  ◌≡◌, refl, ◌≢◌, inl, inr, List, [], ◌∷◌, ◌++◌, Option, none, some, true, false, All, Bool-cases,
}
use nu_jupyter_kernel.Prelude.Text.{
  Bytes, Text, lit, text_eq, text_eq_iff, text_eq_refl, is_utf8, from_utf8,
}
use nu_jupyter_kernel.Prelude.Flow.{Flow, ok, ◌>>=◌}
use nu_jupyter_kernel.Messages.{Header, Message, Channel, Host}
use nu_jupyter_kernel.Messages.Content.{IncomingContent, OutgoingContent, Serde, content_to_string}
use nu_jupyter_kernel.Messages.Wire.{
  delimiter, take_identities, next_string, read_parent, read_content, recv,
}
use nu_jupyter_kernel.Messages.Multipart.{chain, parent_to_string, into_multipart, try_from}

abbrev pub NoDelimiter : List Bytes → Type 0
NoDelimiter = All (λ frame. frame ≢ delimiter)

take_identities-append :
    (ids rest : List Bytes)
    → NoDelimiter ids
    → take_identities (ids ++ delimiter ∷ rest) ≡ (ids, rest)
unfolding take_identities
take_identities-append [] rest h = rw (text_eq_refl delimiter)
take_identities-append (x ∷ ids) rest h = elim (Bool-cases (text_eq x delimiter)) [
  | inl e ↦ absurd (h.0 ((text_eq_iff x delimiter).0 e))
  | inr e ↦ rw (e, take_identities-append ids rest h.1)
]

next_string_of_utf8 :
    (s : Text) (rest : List Bytes) → is_utf8 s ≡ true → next_string (s ∷ rest) ≡ ok (s, rest)
unfolding next_string from_utf8
next_string_of_utf8 s rest h = rw h

braces-utf8 : is_utf8 (lit "{}") ≡ true
unfolding is_utf8
braces-utf8 = refl

try_from-eq-some :
    (frames : List Bytes) {sent : List Bytes} → try_from frames ≡ some sent → frames ≡ sent
unfolding try_from
try_from-eq-some [] e = cc
try_from-eq-some (frame ∷ frames) e = cc

module _ {J : Type 0} (serde : Serde J) where
  read_parent-none : read_parent serde (lit "{}") ≡ ok none
  unfolding read_parent
  read_parent-none = rw (text_eq_refl (lit "{}"))

  -- The message that the five texts give, once the content is read.
  abbrev pub assemble :
      List Bytes
      → Header
      → Option Header
      → J
      → List Bytes
      → Flow (Unit {0}) (IncomingContent J)
      → Flow (Unit {0}) (Message J (IncomingContent J))
  assemble ids header parent metadata buffers content = content >>= λ c. ok (record {
    zmq_identities = ids;
    header = header;
    parent_header = parent;
    metadata = metadata;
    content = c;
    buffers = buffers;
  })

  -- A message whose identities hold no delimiter and whose five texts are UTF-8 and parse is read
  -- into these parts, whatever its signature; only the content can still be refused.
  pub recv-chain :
      (source : Channel) (ids : List Bytes) (signature header parent metadata content : Text)
      (buffers : List Bytes) (h : Header) (p : Option Header) (m : J)
      → NoDelimiter ids
      → is_utf8 signature ≡ true
      → is_utf8 header ≡ true
      → is_utf8 parent ≡ true
      → is_utf8 metadata ≡ true
      → is_utf8 content ≡ true
      → serde.header_from_str header ≡ some h
      → read_parent serde parent ≡ ok p
      → serde.metadata_from_str metadata ≡ some m
      → recv serde source (chain ids signature header parent metadata content buffers)
        ≡ assemble ids h p m buffers (read_content serde source h.msg_type content)
  unfolding chain recv
  recv-chain source ids signature header parent metadata content buffers h p m plain u0 u1 u2 u3 u4
        eh ep em =
      rw (
        take_identities-append ids _ plain,
        next_string_of_utf8 signature _ u0,
        next_string_of_utf8 header _ u1,
        eh,
        next_string_of_utf8 parent _ u2,
        ep,
        next_string_of_utf8 metadata _ u3,
        em,
        next_string_of_utf8 content _ u4,
      )

  -- No message is refused for its signature: frames that differ only in two UTF-8 signatures are
  -- read alike, whatever the other texts are.
  pub recv_ignores_signature :
      (source : Channel) (ids : List Bytes) (forged signature header parent metadata content : Text)
      (buffers : List Bytes)
      → NoDelimiter ids
      → is_utf8 forged ≡ true
      → is_utf8 signature ≡ true
      → recv serde source (chain ids forged header parent metadata content buffers)
        ≡ recv serde source (chain ids signature header parent metadata content buffers)
  unfolding chain recv
  recv_ignores_signature source ids forged signature header parent metadata content buffers plain u
        v =
      rw (
        take_identities-append ids (forged ∷ header ∷ parent ∷ metadata ∷ content ∷ buffers) plain,
        take_identities-append ids (signature ∷ header ∷ parent ∷ metadata ∷ content ∷ buffers)
            plain,
        next_string_of_utf8 forged _ u,
        next_string_of_utf8 signature _ v,
      )

  -- `serde_json` reads back the headers and the metadata that it writes, a header also as that of a
  -- parent; the texts are UTF-8, and that of a header is not the empty object.
  pub record Reads : Type 0 where
    pub header_back :
        (h : Header) (t : Text)
        → serde.header_to_string h ≡ some t
        → (serde.header_from_str t ≡ some h)
          × (serde.parent_from_str t ≡ some (some h))
          × (is_utf8 t ≡ true)
          × (text_eq t (lit "{}") ≡ false)
    pub metadata_back :
        (m : J) (t : Text)
        → serde.metadata_to_string m ≡ some t
        → (serde.metadata_from_str t ≡ some m) × (is_utf8 t ≡ true)
    pub content_utf8 :
        (c : OutgoingContent J) (t : Text) → content_to_string serde c ≡ some t → is_utf8 t ≡ true

  read_parent_back :
      (p : Option Header) (t : Text)
      → Reads
      → parent_to_string serde p ≡ some t
      → (read_parent serde t ≡ ok p) × (is_utf8 t ≡ true)
  unfolding parent_to_string read_parent
  read_parent_back none t r e =
      let same : lit "{}" ≡ t = cc in
      subst (λ t. (read_parent serde t ≡ ok none) × (is_utf8 t ≡ true)) same
        (read_parent-none, braces-utf8)
  read_parent_back (some h) t r e =
      let (_, back, utf8, other) = r.header_back h t e in (rw (other, back), utf8)

  -- What `into_multipart` sends, `recv` reads back to the same identities, headers, metadata and
  -- buffers, where the JSON round-trips, no identity is the delimiter and the hex digits are UTF-8;
  -- only the content is left to the reader.
  pub recv-into_multipart :
      (host : Host) (digester : Option Bytes) (m : Message J (OutgoingContent J)) (source : Channel)
      {frames : List Bytes}
      → Reads
      → ((b : Bytes) → is_utf8 (host.hex_encode b) ≡ true)
      → NoDelimiter m.zmq_identities
      → into_multipart serde host digester m ≡ some frames
      → (body : Text) × (content_to_string serde m.content ≡ some body)
        × (recv serde source frames
            ≡ assemble m.zmq_identities m.header m.parent_header m.metadata m.buffers
                (read_content serde source m.header.msg_type body))
  unfolding into_multipart
  recv-into_multipart host digester m source r hex plain e =
      let (header, e1, k1) = >>=-eq-some (serde.header_to_string m.header) _ e in
      let (parent, e2, k2) = >>=-eq-some (parent_to_string serde m.parent_header) _ k1 in
      let (metadata, e3, k3) = >>=-eq-some (serde.metadata_to_string m.metadata) _ k2 in
      let (content, e4, k4) = >>=-eq-some (content_to_string serde m.content) _ k3 in
      let (key, e5, k5) = >>=-eq-some digester _ k4 in
      let (back, _, utf8, _) = r.header_back m.header header e1 in
      let (parent_back, parent_utf8) = read_parent_back m.parent_header parent r e2 in
      let (metadata_back, metadata_utf8) = r.metadata_back m.metadata metadata e3 in
      (
        content,
        e4,
        subst
            (λ sent.
              recv serde source sent
              ≡ assemble m.zmq_identities m.header m.parent_header m.metadata m.buffers
                  (read_content serde source m.header.msg_type content))
            (try_from-eq-some _ k5)
            (recv-chain source m.zmq_identities _ header parent metadata content m.buffers m.header
              m.parent_header m.metadata plain (hex _) utf8 parent_utf8 metadata_utf8
              (r.content_utf8 m.content content e4) back parent_back metadata_back),
      )
