-- ===== src/Plotters/Arguments/OfBar/Reading.antt =====
-- The two ways to read the arguments of `series bar`, inside Nushell and as a plugin.
use mathlib.Core.Path.{subst}
use nu_jupyter_kernel.Prelude.{◌≡◌, refl, sym, ◌∙◌, [], ◌∷◌, Option, none, some}
use nu_jupyter_kernel.Prelude.Text.{Text, lit, text_eq}
use nu_jupyter_kernel.Prelude.Table.{lookup}
use nu_jupyter_kernel.Nu.{ok}
use nu_jupyter_kernel.Nu.Results.{>>=-eq-ok}
use nu_jupyter_kernel.Plotters.Arguments.{Named, Library, extract_named}
use nu_jupyter_kernel.Plotters.Arguments.Loops.{Once, read_one, read_field, by_test, named_at}
use nu_jupyter_kernel.Plotters.Arguments.Agreement.{IsPresent, Holds, by_name, named_agrees}
use nu_jupyter_kernel.Plotters.Arguments.OfBar.{BarOptions, no_options, set, read_named, read_call}

module _ (library : Library) where
  open library use {Value, ShellError, F, Call}

  abbrev Options : Type 0
  Options = BarOptions F

  -- What one argument does to every field, and what all of them do.
  abbrev By : Text → Option Value → Options → Options → Type 0
  By name value o o' =
      (read_one (extract_named library library.color (lit "color")) (lit "color") name value o.color
        ≡ ok o'.color)
      × (read_one (extract_named library library.bool (lit "filled")) (lit "filled") name value
            o.filled
          ≡ ok o'.filled)
      × (read_one (extract_named library library.u32 (lit "stroke-width")) (lit "stroke-width") name
            value o.stroke_width
          ≡ ok o'.stroke_width)

  abbrev ByAll : Named Value → Options → Options → Type 0
  ByAll named o o' =
      (read_field (extract_named library library.color (lit "color")) (lit "color") named o.color
        ≡ ok o'.color)
      × (read_field (extract_named library library.bool (lit "filled")) (lit "filled") named
            o.filled
          ≡ ok o'.filled)
      × (read_field (extract_named library library.u32 (lit "stroke-width")) (lit "stroke-width")
            named o.stroke_width
          ≡ ok o'.stroke_width)

  set-By :
      (name : Text) (value : Option Value) (o o' : Options)
      → set library name value o ≡ ok o'
      → By name value o o'
  unfolding set read_one text_eq
  set-By name value o o' e =
      by_test (text_eq name (lit "color"))
        (named_at (set library) (lit "color") name value o o'
          (extract_named library library.color (lit "color") value) (λ x. record o { color = x })
          (λ k. By k value o) refl (λ x read. (read, refl, refl)) e)
        λ e0.
          by_test (text_eq name (lit "filled"))
            (named_at (set library) (lit "filled") name value o o'
              (extract_named library library.bool (lit "filled") value)
              (λ x. record o { filled = x }) (λ k. By k value o) refl (λ x read. (refl, read, refl))
              e)
            λ e1.
              by_test (text_eq name (lit "stroke-width"))
                (named_at (set library) (lit "stroke-width") name value o o'
                  (extract_named library library.u32 (lit "stroke-width") value)
                  (λ x. record o { stroke_width = x }) (λ k. By k value o) refl
                  (λ x read. (refl, refl, read)) e)
                λ e2.
                  let kept : set library name value o ≡ ok o = rw (e0, e1, e2) refl in
                  let eq : o ≡ o' = cc (sym kept ∙ e) in
                  let all : By name value o o = rw (e0, e1, e2) (refl, refl, refl) in
                  subst (By name value o) eq all

  read_named-ByAll :
      (named : Named Value) (o o' : Options) → read_named library named o ≡ ok o' → ByAll named o o'
  unfolding read_named read_field
  read_named-ByAll [] o o' e =
      let all : ByAll [] o o = (refl, refl, refl) in subst (ByAll [] o) (cc e) all
  read_named-ByAll ((name, value) ∷ named) o o' e =
      let (o1, first, rest) = >>=-eq-ok (set library name value o) _ e in
      let p = set-By name value o o1 first in
      let q = read_named-ByAll named o1 o' rest in (rw p.0 q.0, rw p.1 q.1, rw p.2 q.2)

  -- Where no name is given twice and no value is `nothing`: options that the plugin's loop accepts are
  -- the options that the command inside Nushell reads.
  pub read_named-read_call :
      (call : Call) (named : Named Value)
      → Once named
      → ((name : Text) (v : Value) → lookup name named ≡ some (some v) → IsPresent library v)
      → Holds library call named
      → (o : Options) → read_named library named no_options ≡ ok o
      → read_call library call ≡ ok o
  unfolding read_call no_options
  read_named-read_call call named once present holds o e =
      let read = read_named-ByAll named no_options o e in
      let g0 =
        named_agrees library call named once present holds _ library.color (lit "color") o.color _
          refl
          (by_name library call named once present holds _ _ (lit "color") none o.color read.0) in
      let g1 =
        named_agrees library call named once present holds _ library.bool (lit "filled") o.filled _
          refl
          (by_name library call named once present holds _ _ (lit "filled") none o.filled read.1) in
      let g2 =
        named_agrees library call named once present holds _ library.u32 (lit "stroke-width")
          o.stroke_width _ refl
          (by_name library call named once present holds _ _ (lit "stroke-width") none
            o.stroke_width read.2) in
      rw (g0, g1, g2) refl
