-- ===== src/Plotters/Reading/Channels.antt =====
-- Which colours are read.
use nu_jupyter_kernel.Prelude.{
  ℕ, ◌≡◌, ◌≤◌, refl, [], ◌∷◌, Option, none, some, Bool, true, false, if◌then◌else◌, ◌==◌, arith,
  All,
}
use nu_jupyter_kernel.Prelude.Text.{Text, lit, text_eq}
use nu_jupyter_kernel.Prelude.Flow.{Flow, Gives, Gives-ok, Gives-err, Gives-panics, Gives-if}
use nu_jupyter_kernel.Nu.{Result, ok, err}
use nu_jupyter_kernel.Plotters.{Color}
use nu_jupyter_kernel.Plotters.Colors.{hex}
use nu_jupyter_kernel.Plotters.Colors.Digits.{AreBytes, hex-AreBytes}
use nu_jupyter_kernel.Plotters.Reading.{
  RgbColor, Kind, record_value, list_value, other_value, string_value, Library, in_u8, channel_of,
  channel, alpha_of, alpha, alpha_or, of_dto, of_tuples, of_hex, hash_color, of_rgb, of_name,
  of_kind, from_value,
}

module _ (library : Library) where
  open library use {Value, ShellError, F}

  -- A part is what its reader gives for some value.
  abbrev pub Part : {A : Type 0} → (Value → Result ShellError A) → A → Type 0
  Part reader a = (w : Value) × (reader w ≡ ok a)

  abbrev pub OptionalPart : {A : Type 0} → (Value → Result ShellError A) → Option A → Type 0
  OptionalPart reader none = Unit
  OptionalPart reader (some a) = Part reader a

  abbrev pub IsRgb : RgbColor → Type 0
  IsRgb c = AreBytes (c.red, c.green, c.blue)

  -- What the readers of the library give comes from the readers of the parts; the constants have
  -- channels of 8 bits, and 1.0 is in the unit interval.
  pub record Laws : Type 0 where
    pub color_dto-Part :
        (r : Value → Result ShellError ℕ) (a : Value → Result ShellError F) (v : Value) (x y z : ℕ)
        (o : Option F)
        → library.color_dto r a v ≡ ok (x, y, z, o)
        → Part r x × Part r y × Part r z × OptionalPart a o
    pub tuple_4-Part :
        (r : Value → Result ShellError ℕ) (a : Value → Result ShellError F) (v : Value) (x y z : ℕ)
        (f : F)
        → library.tuple_4 r a v ≡ ok (x, y, z, f)
        → Part r x × Part r y × Part r z × Part a f
    pub tuple_3-Part :
        (r : Value → Result ShellError ℕ) (v : Value) (x y z : ℕ)
        → library.tuple_3 r v ≡ ok (x, y, z)
        → Part r x × Part r y × Part r z
    pub one-in_unit : library.in_unit library.one ≡ true
    pub constants-IsRgb : All IsRgb (
        library.black ∷ library.blue ∷ library.cyan ∷ library.green ∷ library.magenta ∷ library.red
        ∷ library.white ∷ library.yellow ∷ [])

  abbrev pub IsValid : Color F → Type 0
  IsValid c = AreBytes (c.r, c.g, c.b) × (library.in_unit c.a ≡ true)

  in_u8-le : (v : Value) (n m : ℕ) → in_u8 library v n ≡ ok m → m ≤ 255
  unfolding in_u8
  in_u8-le v n m e = ground arith

  channel_of-le :
      (v : Value) (r : Result ShellError ℕ) (m : ℕ) → channel_of library v r ≡ ok m → m ≤ 255
  unfolding channel_of
  channel_of-le v (err x) m e = cc
  channel_of-le v (ok n) m e = in_u8-le v n m e

  channel-le : (n : ℕ) → Part (channel library) n → n ≤ 255
  unfolding channel
  channel-le n (w, e) = channel_of-le w (library.i64 w) n e

  if_ok :
      (b : Bool) (f g : F) (x : ShellError)
      → (if b then ok f else err x) ≡ ok g
      → (b ≡ true) × (f ≡ g)
  if_ok true f g x e = (refl, cc)
  if_ok false f g x e = cc

  alpha_of-in_unit :
      (v : Value) (r : Result ShellError F) (f : F)
      → alpha_of library v r ≡ ok f
      → library.in_unit f ≡ true
  unfolding alpha_of
  alpha_of-in_unit v (err x) f e = cc
  alpha_of-in_unit v (ok g) f e = let (h, same) = if_ok (library.in_unit g) g f _ e in cc (h, same)

  alpha-in_unit : (f : F) → Part (alpha library) f → library.in_unit f ≡ true
  unfolding alpha
  alpha-in_unit f (w, e) = alpha_of-in_unit w (library.f64 w) f e

  module _ (laws : Laws) where
    alpha_or-in_unit :
        (o : Option F)
        → OptionalPart (alpha library) o
        → library.in_unit (alpha_or library o) ≡ true
    alpha_or-in_unit none h = laws.one-in_unit
    alpha_or-in_unit (some f) h = alpha-in_unit f h

    of_dto-IsValid :
        (v : Value) (r : Result ShellError (ℕ × ℕ × ℕ × Option F))
        → library.color_dto (channel library) (alpha library) v ≡ r
        → Gives IsValid (of_dto library r)
    unfolding of_dto
    of_dto-IsValid v (err e) h = Gives-err _ e
    of_dto-IsValid v (ok (x, y, z, o)) h =
        let (a, b, c, d) = laws.color_dto-Part _ _ v x y z o h in
        Gives-ok IsValid _ ((channel-le x a, channel-le y b, channel-le z c), alpha_or-in_unit o d)

    of_tuples-IsValid :
        (v : Value) (r : Result ShellError (ℕ × ℕ × ℕ × F)) (s : Result ShellError (ℕ × ℕ × ℕ))
        → library.tuple_4 (channel library) (alpha library) v ≡ r
        → library.tuple_3 (channel library) v ≡ s
        → Gives IsValid (of_tuples library r s)
    unfolding of_tuples
    of_tuples-IsValid v (ok (x, y, z, f)) s h k =
        let (a, b, c, d) = laws.tuple_4-Part _ _ v x y z f h in
        Gives-ok IsValid _ ((channel-le x a, channel-le y b, channel-le z c), alpha-in_unit f d)
    of_tuples-IsValid v (err e) (ok (x, y, z)) h k =
        let (a, b, c) = laws.tuple_3-Part _ v x y z k in
        Gives-if IsValid (library.is_cant_find_column e) _ _
          (Gives-ok IsValid _ ((channel-le x a, channel-le y b, channel-le z c), laws.one-in_unit))
          (Gives-err _ e)
    of_tuples-IsValid v (err e) (err f) h k = Gives-err _ f

    of_hex-IsValid :
        (v : Value) (m : Flow (Unit {0}) (ℕ × ℕ × ℕ))
        → Gives AreBytes m
        → Gives IsValid (of_hex library v m)
    unfolding of_hex
    of_hex-IsValid v (Flow.ok (x, y, z)) h = Gives-ok IsValid _ (h.apply _ refl, laws.one-in_unit)
    of_hex-IsValid v (Flow.err e) h = Gives-err _ _
    of_hex-IsValid v Flow.panics h = Gives-panics _

    hash_color-IsValid : (v : Value) (s : Text) → Gives IsValid (hash_color library v s)
    unfolding hash_color
    hash_color-IsValid v [] = Gives-err _ _
    hash_color-IsValid v (c ∷ s) =
        Gives-if IsValid (c == b'#') _ _ (of_hex-IsValid v (hex s) (hex-AreBytes s)) (Gives-err _ _)

    of_rgb-IsValid : (c : RgbColor) → IsRgb c → Gives IsValid (of_rgb library c)
    unfolding of_rgb
    of_rgb-IsValid c h = Gives-ok IsValid _ (h, laws.one-in_unit)

    of_name-IsValid : (v : Value) (s : Text) → Gives IsValid (of_name library v s)
    unfolding of_name
    of_name-IsValid v s =
        let (k, (b, (c, (g, (m, (r, (w, (y, _)))))))) = laws.constants-IsRgb in
        Gives-if IsValid (text_eq s (lit "black")) _ _ (of_rgb-IsValid _ k) (
          Gives-if IsValid (text_eq s (lit "blue")) _ _ (of_rgb-IsValid _ b) (
            Gives-if IsValid (text_eq s (lit "cyan")) _ _ (of_rgb-IsValid _ c) (
              Gives-if IsValid (text_eq s (lit "green")) _ _ (of_rgb-IsValid _ g) (
                Gives-if IsValid (text_eq s (lit "magenta")) _ _ (of_rgb-IsValid _ m) (
                  Gives-if IsValid (text_eq s (lit "red")) _ _ (of_rgb-IsValid _ r) (
                    Gives-if IsValid (text_eq s (lit "white")) _ _ (of_rgb-IsValid _ w) (
                      Gives-if IsValid (text_eq s (lit "yellow")) _ _ (of_rgb-IsValid _ y)
                        (hash_color-IsValid v s))))))))

    of_kind-IsValid : (v : Value) (k : Kind) → Gives IsValid (of_kind library v k)
    unfolding of_kind
    of_kind-IsValid v record_value = of_dto-IsValid v _ refl
    of_kind-IsValid v list_value = of_tuples-IsValid v _ _ refl refl
    of_kind-IsValid v (string_value s) = of_name-IsValid v (library.to_lowercase s)
    of_kind-IsValid v other_value = Gives-err _ _

    -- Where the library reads each part by the reader of the part and its constants have channels
    -- of 8 bits: every colour that is read, from a record, a list, a name or hexadecimal digits,
    -- has channels of 8 bits and an alpha value from 0 to 1.
    pub from_value-IsValid :
        (v : Value) (c : Color F) → from_value library v ≡ Flow.ok c → IsValid c
    unfolding from_value
    from_value-IsValid v c e = (of_kind-IsValid v (library.kind v)).apply c e
