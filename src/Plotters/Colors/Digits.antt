-- ===== src/Plotters/Colors/Digits.antt =====
-- The numbers that hexadecimal digits stand for.
use nu_jupyter_kernel.Prelude.{
  ℕ, ◌≡◌, ◌≤◌, refl, [], ◌∷◌, ◌++◌, Option, none, some, Bool, true, false, if◌then◌else◌, ◌==◌,
  arith, length,
}
use nu_jupyter_kernel.Prelude.Text.{Text}
use nu_jupyter_kernel.Prelude.Flow.{
  Flow, ok, err, ◌>>=◌, Gives, Gives-bind, Gives-ok, Gives-err, Gives-if,
}
use nu_jupyter_kernel.Plotters.Colors.{
  to_digit, add_digit, digits_from, from_str_radix_16, u8_from_hex, slice, long_hex, short_hex, hex,
}

-- Numbers that are read from hexadecimal digits.
Byte : Option ℕ → Type 0
Byte o = (n : ℕ) → o ≡ some n → n ≤ 255

add_digit-Byte : (acc : ℕ) (d : Option ℕ) → Byte (add_digit acc d)
unfolding Byte add_digit
add_digit-Byte acc none n e = cc
add_digit-Byte acc (some d) n e = ground arith

digits_from-Byte : (acc : Option ℕ) (s : Text) → Byte acc → Byte (digits_from acc s)
unfolding Byte digits_from
digits_from-Byte acc [] h = h
digits_from-Byte none (c ∷ s) h = λ n e. cc
digits_from-Byte (some acc) (c ∷ s) h =
    digits_from-Byte (add_digit acc (to_digit c)) s (add_digit-Byte acc (to_digit c))

zero-Byte : Byte (some 0)
unfolding Byte
zero-Byte n e = let same : 0 ≡ n = cc in omega (arith, same)

if_Byte : (b : Bool) (x y : Option ℕ) → Byte x → Byte y → Byte (if b then x else y)
if_Byte true x y h k = h
if_Byte false x y h k = k

from_str_radix_16-Byte : (s : Text) → Byte (from_str_radix_16 s)
unfolding from_str_radix_16 Byte
from_str_radix_16-Byte [] = λ n e. cc
from_str_radix_16-Byte (c ∷ []) = digits_from-Byte (some 0) (c ∷ []) zero-Byte
from_str_radix_16-Byte (c ∷ d ∷ s) =
    if_Byte (c == b'+') _ _ (digits_from-Byte (some 0) (d ∷ s) zero-Byte)
      (digits_from-Byte (some 0) (c ∷ d ∷ s) zero-Byte)

u8_from_hex-le : (s : Text) → Gives (λ n. n ≤ 255) (u8_from_hex s)
unfolding u8_from_hex Byte
u8_from_hex-le s = go (from_str_radix_16 s) (from_str_radix_16-Byte s)
  where
    go : (o : Option ℕ) → Byte o → Gives (λ n. n ≤ 255) (elim o [ none ↦ err tt | some n ↦ ok n ])
    go none h = Gives-err _ tt
    go (some n) h = Gives-ok _ n (h n refl)

abbrev pub AreBytes : ℕ × ℕ × ℕ → Type 0
AreBytes c = (c.0 ≤ 255) × (c.1 ≤ 255) × (c.2 ≤ 255)

-- Three readings of bytes in a row.
three_bytes :
    (r g b : Flow (Unit {0}) ℕ)
    → Gives (λ n. n ≤ 255) r
    → Gives (λ n. n ≤ 255) g
    → Gives (λ n. n ≤ 255) b
    → Gives AreBytes (r >>= λ x. g >>= λ y. b >>= λ z. ok (x, y, z))
three_bytes r g b hr hg hb = Gives-bind AreBytes r _ λ x ex. Gives-bind AreBytes g _ λ y ey.
    Gives-bind AreBytes b _
      λ z ez. Gives-ok AreBytes (x, y, z) (hr.apply x ex, hg.apply y ey, hb.apply z ez)

byte_of :
    (o : Flow (Unit {0}) Text) (f : Text → Text)
    → Gives (λ n. n ≤ 255) (o >>= λ s. u8_from_hex (f s))
byte_of o f = Gives-bind _ o _ λ s _. u8_from_hex-le (f s)

-- A hexadecimal colour that is read has channels of 8 bits.
pub hex-AreBytes : (s : Text) → Gives AreBytes (hex s)
unfolding hex long_hex short_hex
hex-AreBytes s =
    Gives-if AreBytes (length s == 6) _ _
      (three_bytes _ _ _ (byte_of (slice 0 2 s) (λ t. t)) (byte_of (slice 2 2 s) (λ t. t))
        (byte_of (slice 4 2 s) (λ t. t)))
      (Gives-if AreBytes (length s == 3) _ _
        (three_bytes _ _ _ (byte_of (slice 0 1 s) (λ t. t ++ t))
          (byte_of (slice 1 1 s) (λ t. t ++ t)) (byte_of (slice 2 1 s) (λ t. t ++ t)))
        (Gives-err AreBytes tt))
