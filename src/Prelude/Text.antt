-- ===== src/Prelude/Text.antt =====
-- A Rust `String` is the list of its bytes, and so are `Bytes` and `Vec<u8>`.
use Prim.Native.Char.{code}
use Prim.Native.String.{String}
use Prim.Native.Nat.{ℕ, zero, suc, ◌+◌, ◌-◌, ◌*◌, ◌/◌, ◌%◌, ◌≤◌, ◌<◌}
use mathlib.Core.Path.{◌≡◌, refl, sym, ap, ◌∙◌}
use mathlib.Core.Logic.{◌↔◌, inl, inr}
use mathlib.Core.Bool.{Bool, true, false, ◌&&◌}
use mathlib.Core.Option.{Option, none, some}
use mathlib.Core.List.{List, [], ◌∷◌, ◌++◌}
use native.Mathlib.Omega.{arith}
use nu_jupyter_kernel.Prelude.Tests.{ltb, leb, ◌==◌, if◌then◌else◌, Option-cases}
use nu_jupyter_kernel.Prelude.Lists.{All, All-append}

abbrev pub Bytes : Type 0
Bytes = List ℕ

abbrev pub Text : Type 0
Text = List ℕ

-- An ASCII literal.
abbrev pub lit : String → Text
lit String.[] = []
lit (String.◌∷◌ c s) = code c ∷ lit s

unfoldable pub text_eq : Text → Text → Bool
text_eq [] [] = true
text_eq [] (b ∷ t) = false
text_eq (a ∷ s) [] = false
text_eq (a ∷ s) (b ∷ t) = a == b && text_eq s t

pub text_eq_iff : (s t : Text) → (text_eq s t ≡ true) ↔ (s ≡ t)
unfolding text_eq
text_eq_iff [] [] = (λ _. refl, λ _. refl)
text_eq_iff [] (b ∷ t) = (λ h. cc, λ h. cc)
text_eq_iff (a ∷ s) [] = (λ h. cc, λ h. cc)
text_eq_iff (a ∷ s) (b ∷ t) = ground (arith, text_eq_iff s t)

pub text_eq_refl : (s : Text) → text_eq s s ≡ true
text_eq_refl s = (text_eq_iff s s).1 refl

-- `format!("{}", n)` of an unsigned number: its decimal digits, on fuel that `decimal` gives.
decimal_from : ℕ → ℕ → Text
decimal_from zero n = []
decimal_from (suc f) n =
    let rest = decimal_from f (n / 10) in
    if ltb n 10 then (b'0' + n) ∷ [] else rest ++ (b'0' + n % 10) ∷ []

unfoldable pub decimal : ℕ → Text
unfolding decimal_from
decimal n = decimal_from (suc n) n

-- The number that a text of digits stands for.
value_from : ℕ → Text → ℕ
value_from acc [] = acc
value_from acc (d ∷ ds) = value_from (acc * 10 + (d - b'0')) ds

value_from-append :
    (acc : ℕ) (ds : Text) (d : ℕ)
    → value_from acc (ds ++ d ∷ []) ≡ value_from acc ds * 10 + (d - b'0')
unfolding value_from
value_from-append acc [] d = refl
value_from-append acc (x ∷ ds) d = value_from-append (acc * 10 + (x - b'0')) ds d

value_from-decimal_from : (f n : ℕ) → n < f → value_from 0 (decimal_from f n) ≡ n
unfolding decimal_from value_from
value_from-decimal_from zero n h = elim h [ ]
value_from-decimal_from (suc f) n h = ground (
  arith,
  value_from-decimal_from f (n / 10),
  value_from-append 0 (decimal_from f (n / 10)) (b'0' + n % 10),
)

-- Distinct numbers are printed differently.
pub decimal-injective : (m n : ℕ) → decimal m ≡ decimal n → m ≡ n
unfolding decimal
decimal-injective m n e =
    sym (value_from-decimal_from (suc m) m (omega arith))
    ∙ ap (value_from 0) e
    ∙ value_from-decimal_from (suc n) n (omega arith)

abbrev pub IsDigit : ℕ → Type 0
IsDigit d = (b'0' ≤ d) × (d ≤ b'9')

decimal_from-IsDigit : (f n : ℕ) → All IsDigit (decimal_from f n)
unfolding decimal_from
decimal_from-IsDigit zero n = tt
decimal_from-IsDigit (suc f) n = ground (
  arith,
  decimal_from-IsDigit f (n / 10),
  All-append IsDigit (decimal_from f (n / 10)) ((b'0' + n % 10) ∷ []),
)

pub decimal-IsDigit : (n : ℕ) → All IsDigit (decimal n)
unfolding decimal
decimal-IsDigit n = decimal_from-IsDigit (suc n) n

-- `String::from_utf8` accepts the well-formed UTF-8 of the Unicode standard (table 3-7). `lead`
-- gives the ranges that the bytes after a first byte have to lie in.
in_range : ℕ → ℕ → ℕ → Bool
in_range lo hi b = leb lo b && leb b hi

abbrev continuation : ℕ × ℕ
continuation = (0x80, 0xbf)

lead : ℕ → Option (List (ℕ × ℕ))
unfolding in_range
lead b =
    if ltb b 0x80
    then some []
    else if in_range 0xc2 0xdf b
    then some (continuation ∷ [])
    else if b == 0xe0
    then some ((0xa0, 0xbf) ∷ continuation ∷ [])
    else if b == 0xed
    then some ((0x80, 0x9f) ∷ continuation ∷ [])
    else if in_range 0xe1 0xef b
    then some (continuation ∷ continuation ∷ [])
    else if b == 0xf0
    then some ((0x90, 0xbf) ∷ continuation ∷ continuation ∷ [])
    else if in_range 0xf1 0xf3 b
    then some (continuation ∷ continuation ∷ continuation ∷ [])
    else if b == 0xf4
    then some ((0x80, 0x8f) ∷ continuation ∷ continuation ∷ [])
    else none

utf8_from : List (ℕ × ℕ) → Bytes → Bool
utf8_from [] [] = true
utf8_from (p ∷ ps) [] = false
utf8_from ((lo, hi) ∷ ps) (b ∷ bs) = in_range lo hi b && utf8_from ps bs
utf8_from [] (b ∷ bs) = elim (lead b) [ none ↦ false | some ps ↦ utf8_from ps bs ]

unfoldable pub is_utf8 : Bytes → Bool
unfolding utf8_from lead in_range
is_utf8 bs = utf8_from [] bs

unfoldable pub from_utf8 : Bytes → Option Text
from_utf8 bs = if is_utf8 bs then some bs else none

utf8_from-append :
    (ps : List (ℕ × ℕ)) (xs ys : Bytes)
    → utf8_from ps xs ≡ true
    → utf8_from [] ys ≡ true
    → utf8_from ps (xs ++ ys) ≡ true
unfolding utf8_from
utf8_from-append [] [] ys h k = k
utf8_from-append (p ∷ ps) [] ys h k = cc
utf8_from-append ((lo, hi) ∷ ps) (b ∷ bs) ys h k = ground (arith, utf8_from-append ps bs ys)
utf8_from-append [] (b ∷ bs) ys h k = elim (Option-cases (lead b)) [
  | inl e ↦ ground arith
  | inr (ps, e) ↦ ground (arith, utf8_from-append ps bs ys)
]

pub is_utf8-append :
    (xs ys : Bytes) → is_utf8 xs ≡ true → is_utf8 ys ≡ true → is_utf8 (xs ++ ys) ≡ true
unfolding is_utf8
is_utf8-append xs ys h k = utf8_from-append [] xs ys h k

euro : (is_utf8 (0xe2 ∷ 0x82 ∷ 0xac ∷ []) ≡ true) × (is_utf8 (0xe2 ∷ 0x82 ∷ []) ≡ false)
unfolding is_utf8
euro = (refl, refl)
