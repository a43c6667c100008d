-- ===== src/Nu/Environment/Spans.antt =====
-- The spans of the variables.
use mathlib.Core.List.{append_assoc}
use nu_jupyter_kernel.Prelude.{
  ◌+◌, ◌≡◌, refl, sym, ap, ◌∙◌, List, [], ◌∷◌, ◌++◌, arith, length, length-append, All, All-append,
  All-imp,
}
use nu_jupyter_kernel.Prelude.Text.{Text, lit}
use nu_jupyter_kernel.Nu.Environment.{Span, Entry, Lines, line, add_line, add_lines, lines}

-- A span holds a text if the file is the text between two others, at these offsets.
abbrev pub Holds : Text → Span → Text → Type 0
Holds file span text =
    (front : Text) × (back : Text) × (file ≡ front ++ (text ++ back))
    × (span.start ≡ length front)
    × (span.end ≡ length front + length text)

module _ (debug : Text → Text) where
  -- Every value stands where its span says.
  abbrev pub HoldsAll : Text → List Entry → Type 0
  HoldsAll file entries = All (λ (e : Entry). Holds file e.span (debug e.value)) entries

  Holds-append :
      (file more : Text) (e : Entry)
      → Holds file e.span (debug e.value)
      → Holds (file ++ more) e.span (debug e.value)
  Holds-append file more e (front, back, split, s, t) = (
    front,
    back ++ more,
    ap (λ f. f ++ more) split
        ∙ append_assoc front (debug e.value ++ back) more
        ∙ ap (λ f. front ++ f) (append_assoc (debug e.value) back more),
    s,
    t,
  )

  abbrev IsFine : Lines → Type 0
  IsFine s = (s.line_offset ≡ length s.toml) × HoldsAll s.toml s.values

  -- The text and the offsets of one line.
  split :
      (toml key d : Text)
      → (toml ++ ((key ++ (lit " = " ++ d)) ++ lit "\n"))
        ≡ (toml ++ (key ++ lit " = ")) ++ (d ++ lit "\n")
  split toml key d =
      ap (λ x. toml ++ x)
        (append_assoc key (lit " = " ++ d) (lit "\n")
          ∙ sym (append_assoc key (lit " = ") (d ++ lit "\n")))
      ∙ sym (append_assoc toml (key ++ lit " = ") (d ++ lit "\n"))

  length-line : (key d : Text) → length (key ++ (lit " = " ++ d)) ≡ length key + 3 + length d
  length-line key d = omega (arith, length-append key (lit " = " ++ d), length-append (lit " = ") d)

  add_line-IsFine : (key value : Text) (s : Lines) → IsFine s → IsFine (add_line debug key value s)
  unfolding add_line line
  add_line-IsFine key value s h = (
    omega (arith, h.0, length-append s.toml (text ++ lit "\n"), length-append text (lit "\n")),
    All-append _ s.values _ (All-imp _ _ s.values (λ e k. Holds-append s.toml _ e k) h.1) (
        (
          (
            s.toml ++ (key ++ lit " = "),
            lit "\n",
            split s.toml key d,
            omega (
              arith,
              h.0,
              length-append s.toml (key ++ lit " = "),
              length-append key (lit " = "),
            ),
            omega (
              arith,
              h.0,
              length-append s.toml (key ++ lit " = "),
              length-append key (lit " = "),
              length-line key d,
            ),
          ),
          tt,
        )),
  )
    where
      d : Text
      d = debug value

      text : Text
      text = key ++ (lit " = " ++ d)

  add_lines-IsFine :
      (env_map : List (Text × Text)) (s : Lines) → IsFine s → IsFine (add_lines debug env_map s)
  unfolding add_lines
  add_lines-IsFine [] s h = h
  add_lines-IsFine ((key, value) ∷ env_map) s h =
      add_lines-IsFine env_map (add_line debug key value s) (add_line-IsFine key value s h)

  -- The span of every variable holds the printed value in the text of the file.
  pub lines-HoldsAll :
      (env_map : List (Text × Text))
      → HoldsAll (lines debug env_map).toml (lines debug env_map).values
  unfolding lines
  lines-HoldsAll env_map =
      (add_lines-IsFine env_map (record { toml = []; values = []; line_offset = 0 }) (refl, tt)).1
