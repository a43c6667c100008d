-- ===== src/Plotters/Hex.antt =====
-- Hexadecimal colours, printed and read.
use nu_jupyter_kernel.Prelude.{
  ℕ, ◌+◌, ◌*◌, ◌<◌, ◌≤◌, ◌≡◌, refl, ap, [], ◌∷◌, some, true, false, ltb, leb, ◌==◌, if◌then◌else◌,
  arith,
}
use nu_jupyter_kernel.Prelude.Flow.{ok}
use nu_jupyter_kernel.Plotters.Colors.{
  to_digit, from_str_radix_16, u8_from_hex, slice, long_hex, short_hex, hex,
}

-- The digit of a number below 16, in lower case.
unfoldable pub digit : ℕ → ℕ
digit d = if ltb d 10 then b'0' + d else 87 + d

to_digit-digit : (d : ℕ) → d < 16 → to_digit (digit d) ≡ some d
unfolding to_digit digit
to_digit-digit d h = ground arith

digit-plain : (d : ℕ) → d < 16 → ((digit d == b'+') ≡ false) × ((leb 0x80 (digit d)) ≡ false)
unfolding digit
digit-plain d h = (ground arith, ground arith)

leb-true : (m n : ℕ) → m ≤ n → leb m n ≡ true
leb-true m n h = ground arith

-- Two digits are read as the number that they stand for.
u8_from_hex-digits :
    (d e : ℕ) → d < 16 → e < 16 → u8_from_hex (digit d ∷ digit e ∷ []) ≡ ok (d * 16 + e)
unfolding u8_from_hex from_str_radix_16
u8_from_hex-digits d e hd he =
    rw
      (
        u8_from_hex,
        from_str_radix_16,
        (digit-plain d hd).0,
        to_digit-digit d hd,
        leb-true (0 * 16 + d) 255 (omega arith),
        to_digit-digit e he,
        leb-true ((0 * 16 + d) * 16 + e) 255 (omega arith),
      )
      (ap ok (omega arith))

twice : (n : ℕ) → n * 16 + n ≡ n * 17
twice n = omega arith

u8_from_hex-plus : (d : ℕ) → d < 16 → u8_from_hex (b'+' ∷ digit d ∷ []) ≡ ok d
unfolding u8_from_hex from_str_radix_16
u8_from_hex-plus d h =
    rw (u8_from_hex, from_str_radix_16, to_digit-digit d h, leb-true (0 * 16 + d) 255 (omega arith))
      (ap ok (omega arith))

-- Six lower-case hexadecimal digits are read as three numbers of two digits, and three digits as
-- the numbers that have each of them twice.
pub hex-digits :
    (a b c d e f : ℕ)
    → a < 16
    → b < 16
    → c < 16
    → d < 16
    → e < 16
    → f < 16
    → (hex (digit a ∷ digit b ∷ digit c ∷ digit d ∷ digit e ∷ digit f ∷ [])
        ≡ ok (a * 16 + b, c * 16 + d, e * 16 + f))
      × (hex (digit a ∷ digit b ∷ digit c ∷ []) ≡ ok (a * 17, b * 17, c * 17))
unfolding hex long_hex short_hex slice
hex-digits a b c d e f ha hb hc hd he hf = (
  rw
      (
        (digit-plain a ha).1,
        (digit-plain c hc).1,
        (digit-plain e he).1,
        u8_from_hex-digits a b ha hb,
        u8_from_hex-digits c d hc hd,
        u8_from_hex-digits e f he hf,
      )
      refl,
  rw
      (
        (digit-plain a ha).1,
        (digit-plain b hb).1,
        (digit-plain c hc).1,
        u8_from_hex-digits a a ha ha,
        u8_from_hex-digits b b hb hb,
        u8_from_hex-digits c c hc hc,
      )
      (rw (twice a, twice b, twice c) refl),
)

-- Six bytes that are three times a plus sign and a lower-case hexadecimal digit are read as the
-- colour of the three digits.
pub hex-plus :
    (d e f : ℕ)
    → d < 16
    → e < 16
    → f < 16
    → hex (b'+' ∷ digit d ∷ b'+' ∷ digit e ∷ b'+' ∷ digit f ∷ []) ≡ ok (d, e, f)
unfolding hex long_hex slice
hex-plus d e f hd he hf =
    rw (u8_from_hex-plus d hd, u8_from_hex-plus e he, u8_from_hex-plus f hf) refl
