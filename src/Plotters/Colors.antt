-- ===== src/Plotters/Colors.antt =====
-- value/color.rs: a colour from the text of a string value, in lower case.
pub mod Digits
use nu_jupyter_kernel.Prelude.{
  ℕ, zero, suc, ◌+◌, ◌-◌, ◌*◌, [], ◌∷◌, ◌++◌, Option, none, some, Bool, true, not, ◌&&◌, ltb, leb,
  ◌==◌, if◌then◌else◌, length,
}
use nu_jupyter_kernel.Prelude.Text.{Text}
use nu_jupyter_kernel.Prelude.Flow.{Flow, ok, err, panics, ◌>>=◌}

-- `char::to_digit(16)`
unfoldable pub to_digit : ℕ → Option ℕ
to_digit c =
    if leb b'0' c && leb c b'9'
    then some (c - b'0')
    else if leb b'a' c && leb c b'f'
    then some (c - b'a' + 10)
    else if leb b'A' c && leb c b'F'
    then some (c - b'A' + 10)
    else none

-- `u8::from_str_radix(_, 16)`: a sign is let through where more follows, a minus sign then fails as a
-- digit, and a number over 255 is an error.
add_digit : ℕ → Option ℕ → Option ℕ
add_digit acc none = none
add_digit acc (some d) = if leb (acc * 16 + d) 255 then some (acc * 16 + d) else none

digits_from : Option ℕ → Text → Option ℕ
unfolding add_digit
digits_from acc [] = acc
digits_from none (c ∷ rest) = none
digits_from (some acc) (c ∷ rest) = digits_from (add_digit acc (to_digit c)) rest

unfoldable pub from_str_radix_16 : Text → Option ℕ
unfolding digits_from
from_str_radix_16 [] = none
from_str_radix_16 (c ∷ []) = digits_from (some 0) (c ∷ [])
from_str_radix_16 (c ∷ d ∷ rest) =
    if c == b'+' then digits_from (some 0) (d ∷ rest) else digits_from (some 0) (c ∷ d ∷ rest)

-- `u8_from_hex`
unfoldable pub u8_from_hex : Text → Flow (Unit {0}) ℕ
u8_from_hex s = elim (from_str_radix_16 s) [ none ↦ err tt | some n ↦ ok n ]

-- `is_char_boundary`: no byte that goes on with a character stands there.
starts_char : Text → Bool
starts_char [] = true
starts_char (b ∷ rest) = not (leb 0x80 b && ltb b 0xc0)

drop : ℕ → Text → Text
drop zero s = s
drop (suc n) [] = []
drop (suc n) (b ∷ s) = drop n s

take : ℕ → Text → Text
take zero s = []
take (suc n) [] = []
take (suc n) (b ∷ s) = b ∷ take n s

-- `&val[from..from + count]` within the text.
unfoldable pub slice : ℕ → ℕ → Text → Flow (Unit {0}) Text
unfolding starts_char drop take
slice from count s =
    if starts_char (drop from s) && starts_char (drop (from + count) s)
    then ok (take count (drop from s))
    else panics

-- The arms for six and for three bytes after the `#`.
unfoldable pub long_hex : Text → Flow (Unit {0}) (ℕ × ℕ × ℕ)
unfolding slice
long_hex val = do
  r ← slice 0 2 val >>= u8_from_hex
  g ← slice 2 2 val >>= u8_from_hex
  b ← slice 4 2 val >>= u8_from_hex
  ok (r, g, b)

unfoldable pub short_hex : Text → Flow (Unit {0}) (ℕ × ℕ × ℕ)
unfolding slice
short_hex val = do
  r ← slice 0 1 val >>= λ s. u8_from_hex (s ++ s)
  g ← slice 1 1 val >>= λ s. u8_from_hex (s ++ s)
  b ← slice 2 1 val >>= λ s. u8_from_hex (s ++ s)
  ok (r, g, b)

unfoldable pub hex : Text → Flow (Unit {0}) (ℕ × ℕ × ℕ)
unfolding long_hex short_hex
hex val =
    if length val == 6 then long_hex val else if length val == 3 then short_hex val else err tt
