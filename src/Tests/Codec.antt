-- ===== src/Tests/Codec.antt =====
-- A codec of headers that reads back what it writes: each number in unary, a comma after it, and a
-- semicolon after each text.
use nu_jupyter_kernel.Prelude.{
  ℕ, zero, suc, ◌≡◌, refl, ap, List, [], ◌∷◌, Option, none, some, true, false, if◌then◌else◌, ◌==◌,
}
use nu_jupyter_kernel.Prelude.Text.{Text, lit, text_eq, is_utf8}
use nu_jupyter_kernel.Messages.{Header}

bump : List Text → List Text
bump [] = []
bump ([] ∷ rest) = [] ∷ rest
bump ((n ∷ ns) ∷ rest) = (suc n ∷ ns) ∷ rest

begin_number : List Text → List Text
begin_number [] = []
begin_number (ns ∷ rest) = (0 ∷ ns) ∷ rest

act : ℕ → List Text → List Text
unfolding bump begin_number
act c texts = if c == b'1' then bump texts else if c == b',' then begin_number texts else [] ∷ texts

decode : Text → List Text
decode [] = []
decode (c ∷ s) = act c (decode s)

number : ℕ → Text → Text
number zero rest = b',' ∷ rest
number (suc n) rest = b'1' ∷ number n rest

field : Text → Text → Text
field [] rest = b';' ∷ rest
field (n ∷ ns) rest = number n (field ns rest)

decode-number :
    (n : ℕ) (rest : Text) (ns : Text) (texts : List Text)
    → decode rest ≡ ns ∷ texts
    → decode (number n rest) ≡ (n ∷ ns) ∷ texts
unfolding decode number act
decode-number zero rest ns texts e = rw e
decode-number (suc n) rest ns texts e = rw (decode-number n rest ns texts e)

decode-field :
    (s rest : Text) (texts : List Text) → decode rest ≡ texts → decode (field s rest) ≡ s ∷ texts
unfolding field decode act
decode-field [] rest texts e = rw e
decode-field (n ∷ ns) rest texts e =
    decode-number n (field ns rest) ns texts (decode-field ns rest texts e)

utf8-number : (s : Text) → is_utf8 s ≡ true → is_utf8 (b'1' ∷ s) ≡ true
unfolding is_utf8
utf8-number s h = h

utf8-comma : (s : Text) → is_utf8 s ≡ true → is_utf8 (b',' ∷ s) ≡ true
unfolding is_utf8
utf8-comma s h = h

utf8-semicolon : (s : Text) → is_utf8 s ≡ true → is_utf8 (b';' ∷ s) ≡ true
unfolding is_utf8
utf8-semicolon s h = h

utf8-start : (s : Text) → is_utf8 s ≡ true → is_utf8 (b'{' ∷ b'h' ∷ s) ≡ true
unfolding is_utf8
utf8-start s h = h

utf8-nil : is_utf8 [] ≡ true
unfolding is_utf8
utf8-nil = refl

number-utf8 : (n : ℕ) (rest : Text) → is_utf8 rest ≡ true → is_utf8 (number n rest) ≡ true
unfolding number
number-utf8 zero rest h = utf8-comma rest h
number-utf8 (suc n) rest h = utf8-number (number n rest) (number-utf8 n rest h)

field-utf8 : (s rest : Text) → is_utf8 rest ≡ true → is_utf8 (field s rest) ≡ true
unfolding field
field-utf8 [] rest h = utf8-semicolon rest h
field-utf8 (n ∷ ns) rest h = number-utf8 n (field ns rest) (field-utf8 ns rest h)

fields : Header → Text
fields h =
    field h.msg_id
      (field h.session (field h.username (field h.date (field h.msg_type (field h.version [])))))

pub header_to_text : Header → Text
unfolding fields
header_to_text h = b'{' ∷ b'h' ∷ fields h

of_texts : List Text → Option Header
of_texts (i ∷ s ∷ u ∷ d ∷ t ∷ v ∷ rest) =
    some (record { msg_id = i; session = s; username = u; date = d; msg_type = t; version = v })
of_texts texts = none

-- The text after its first two bytes.
pub header_of_text : Text → Option Header
unfolding of_texts decode
header_of_text [] = none
header_of_text (a ∷ []) = none
header_of_text (a ∷ b ∷ s) = of_texts (decode s)

pub header_back : (h : Header) → header_of_text (header_to_text h) ≡ some h
unfolding header_of_text header_to_text fields decode
header_back h = ap of_texts (
    decode-field h.msg_id _ _ (
      decode-field h.session _ _ (
        decode-field h.username _ _ (
          decode-field h.date _ _
            (decode-field h.msg_type _ _ (decode-field h.version [] [] refl))))))

pub header-utf8 : (h : Header) → is_utf8 (header_to_text h) ≡ true
unfolding header_to_text fields
header-utf8 h = utf8-start _ (
    field-utf8 h.msg_id _ (
      field-utf8 h.session _ (
        field-utf8 h.username _
          (field-utf8 h.date _ (field-utf8 h.msg_type _ (field-utf8 h.version [] utf8-nil))))))

pub header-not_empty : (h : Header) → text_eq (header_to_text h) (lit "{}") ≡ false
unfolding header_to_text text_eq
header-not_empty h = refl
