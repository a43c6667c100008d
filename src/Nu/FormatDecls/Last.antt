-- ===== src/Nu/FormatDecls/Last.antt =====
-- What `find` finds: the last declaration of each name.
use mathlib.Core.Path.{subst, fun_ext}
use nu_jupyter_kernel.Prelude.{
  ◌≡◌, refl, sym, ap, ◌∙◌, ◌≢◌, ◌⊎◌, inl, inr, List, [], ◌∷◌, Option, none, some, Bool, true, false,
  if◌then◌else◌, Bool-cases, All,
}
use nu_jupyter_kernel.Prelude.Text.{Bytes, Text, lit, text_eq, text_eq_iff, is_utf8, from_utf8}
use nu_jupyter_kernel.Nu.{ok, err, FormatDeclIds}
use nu_jupyter_kernel.Nu.FormatDecls.{
  Found, nothing, put, put_decoded, scan, push_missing, missing, all_of, answer, find,
}

-- A name that is no UTF-8 is none of the seven.
other_name : (s n : Text) → is_utf8 s ≡ false → is_utf8 n ≡ true → text_eq s n ≡ false
other_name s n h k = elim (Bool-cases (text_eq s n)) [
  | inl e ↦ cc (h, k, (text_eq_iff s n).0 e)
  | inr e ↦ e
]

abbrev pub wanted : List Text
wanted =
    lit "to text"
    ∷ lit "to csv"
    ∷ lit "to json"
    ∷ lit "to html"
    ∷ lit "to md"
    ∷ lit "table"
    ∷ lit "draw svg"
    ∷ []

module _ {DeclId : Type 0} where
  abbrev or_else : Option DeclId → Option DeclId → Option DeclId
  or_else none o = o
  or_else (some d) o = some d

  -- The declaration of a name, which a later one of the same name replaces.
  abbrev pub last_of : List (Bytes × DeclId) → Text → Option DeclId
  last_of [] name = none
  last_of ((s, d) ∷ decls) name =
      or_else (last_of decls name) (if text_eq s name then some d else none)

  -- The names that `find` looks for, with what it puts in each field.
  abbrev pub fields : FormatDeclIds DeclId → List (Text × DeclId)
  fields ids =
      (lit "to text", ids.to_text)
      ∷ (lit "to csv", ids.to_csv)
      ∷ (lit "to json", ids.to_json)
      ∷ (lit "to html", ids.to_html)
      ∷ (lit "to md", ids.to_md)
      ∷ (lit "table", ids.table)
      ∷ (lit "draw svg", ids.draw_svg)
      ∷ []

  -- The value of every variable, by its name.
  abbrev Holds : (Text → Option DeclId) → Found DeclId → Type 0
  Holds value v =
      (v.to_text ≡ value (lit "to text"))
      × (v.to_csv ≡ value (lit "to csv"))
      × (v.to_json ≡ value (lit "to json"))
      × (v.to_html ≡ value (lit "to html"))
      × (v.to_md ≡ value (lit "to md"))
      × (v.table ≡ value (lit "table"))
      × (v.draw_svg ≡ value (lit "draw svg"))

  abbrev updated : Text → DeclId → (Text → Option DeclId) → Text → Option DeclId
  updated s d value name = if text_eq s name then some d else value name

  put_at :
      (s : Text) (d : DeclId) (value : Text → Option DeclId) (v : Found DeclId) (k : Text)
      → text_eq s k ≡ true
      → Holds (updated k d value) (put k d v)
      → Holds (updated s d value) (put s d v)
  put_at s d value v k e h =
      subst (λ x. Holds (updated x d value) (put x d v)) (sym ((text_eq_iff s k).0 e)) h

  put-Holds :
      (s : Text) (d : DeclId) (value : Text → Option DeclId) (v : Found DeclId)
      → Holds value v
      → Holds (updated s d value) (put s d v)
  unfolding put text_eq
  put-Holds s d value v h = elim (Bool-cases (text_eq s (lit "to text"))) [
    | inl e ↦ put_at s d value v (lit "to text") e (refl, h.1, h.2, h.3, h.4, h.5, h.6)
    | inr e0 ↦ elim (Bool-cases (text_eq s (lit "to csv"))) [
      | inl e ↦ put_at s d value v (lit "to csv") e (h.0, refl, h.2, h.3, h.4, h.5, h.6)
      | inr e1 ↦ elim (Bool-cases (text_eq s (lit "to json"))) [
        | inl e ↦ put_at s d value v (lit "to json") e (h.0, h.1, refl, h.3, h.4, h.5, h.6)
        | inr e2 ↦ elim (Bool-cases (text_eq s (lit "to html"))) [
          | inl e ↦ put_at s d value v (lit "to html") e (h.0, h.1, h.2, refl, h.4, h.5, h.6)
          | inr e3 ↦ elim (Bool-cases (text_eq s (lit "to md"))) [
            | inl e ↦ put_at s d value v (lit "to md") e (h.0, h.1, h.2, h.3, refl, h.5, h.6)
            | inr e4 ↦ elim (Bool-cases (text_eq s (lit "table"))) [
              | inl e ↦ put_at s d value v (lit "table") e (h.0, h.1, h.2, h.3, h.4, refl, h.6)
              | inr e5 ↦ elim (Bool-cases (text_eq s (lit "draw svg"))) [
                | inl e ↦ put_at s d value v (lit "draw svg") e (h.0, h.1, h.2, h.3, h.4, h.5, refl)
                | inr e6 ↦ rw (e0, e1, e2, e3, e4, e5, e6) h
              ]
            ]
          ]
        ]
      ]
    ]
  ]

  put_decoded-Holds :
      (s : Bytes) (d : DeclId) (value : Text → Option DeclId) (v : Found DeclId)
      → Holds value v
      → Holds (updated s d value) (put_decoded (from_utf8 s) d v)
  unfolding put_decoded from_utf8 is_utf8
  put_decoded-Holds s d value v h = elim (Bool-cases (is_utf8 s)) [
    | inl e ↦ rw e (put-Holds s d value v h)
    | inr e ↦
        rw
          (
            e,
            other_name s (lit "to text") e refl,
            other_name s (lit "to csv") e refl,
            other_name s (lit "to json") e refl,
            other_name s (lit "to html") e refl,
            other_name s (lit "to md") e refl,
            other_name s (lit "table") e refl,
            other_name s (lit "draw svg") e refl,
          )
          h
  ]

  or_else_updated :
      (o : Option DeclId) (b : Bool) (d : DeclId) (w : Option DeclId)
      → or_else o (if b then some d else w) ≡ or_else (or_else o (if b then some d else none)) w
  or_else_updated none true d w = refl
  or_else_updated none false d w = refl
  or_else_updated (some e) b d w = refl

  scan-Holds :
      (decls : List (Bytes × DeclId)) (value : Text → Option DeclId) (v : Found DeclId)
      → Holds value v
      → Holds (λ name. or_else (last_of decls name) (value name)) (scan decls v)
  unfolding scan
  scan-Holds [] value v h = h
  scan-Holds ((s, d) ∷ decls) value v h =
      subst (λ w. Holds w (scan decls (put_decoded (from_utf8 s) d v)))
        (fun_ext (λ name. or_else_updated (last_of decls name) (text_eq s name) d (value name)))
        (scan-Holds decls (updated s d value) (put_decoded (from_utf8 s) d v)
          (put_decoded-Holds s d value v h))

  or_else-none : (o : Option DeclId) → or_else o none ≡ o
  or_else-none none = refl
  or_else-none (some d) = refl

  found-Holds : (decls : List (Bytes × DeclId)) → Holds (last_of decls) (scan decls nothing)
  found-Holds decls =
      subst (λ w. Holds w (scan decls nothing))
        (fun_ext (λ name. or_else-none (last_of decls name)))
        (scan-Holds decls (λ name. none) nothing (refl, refl, refl, refl, refl, refl, refl))

  -- A name before other names, unless it has a declaration.
  abbrev unless : Option DeclId → Text → List Text → List Text
  unless none name names = name ∷ names
  unless (some d) name names = names

  -- The names without a declaration, in order.
  abbrev pub absent : List (Bytes × DeclId) → List Text → List Text
  absent decls [] = []
  absent decls (n ∷ names) = unless (last_of decls n) n (absent decls names)

  push_missing-unless :
      (o : Option DeclId) (n : Text) {names names' : List Text}
      → names ≡ names'
      → push_missing o n names ≡ unless o n names'
  unfolding push_missing
  push_missing-unless none n e = ap (◌∷◌ n) e
  push_missing-unless (some d) n e = e

  missing-absent :
      (decls : List (Bytes × DeclId)) → missing (scan decls nothing) ≡ absent decls wanted
  unfolding missing
  missing-absent decls =
      let h = found-Holds decls in
      rw (h.0, h.1, h.2, h.3, h.4, h.5, h.6)
        (at_name (lit "to text") (
          at_name (lit "to csv") (
            at_name (lit "to json") (
              at_name (lit "to html")
                (at_name (lit "to md") (at_name (lit "table") (at_name (lit "draw svg") refl)))))))
    where
      at_name :
          (n : Text) {names names' : List Text}
          → names ≡ names'
          → push_missing (last_of decls n) n names ≡ unless (last_of decls n) n names'
      at_name n = push_missing-unless (last_of decls n) n

  -- Either a variable is `None` and its name is missing, or all of them are `Some`.
  Outcome : Found DeclId → Type 0
  Outcome v =
      ((all_of v ≡ none) × (missing v ≢ []))
      ⊎ ((ids : FormatDeclIds DeclId) × (all_of v ≡ some ids)
          × (v.to_text ≡ some ids.to_text)
          × (v.to_csv ≡ some ids.to_csv)
          × (v.to_json ≡ some ids.to_json)
          × (v.to_html ≡ some ids.to_html)
          × (v.to_md ≡ some ids.to_md)
          × (v.table ≡ some ids.table)
          × (v.draw_svg ≡ some ids.draw_svg))

  outcome :
      (a b c d e f g : Option DeclId)
      → Outcome (record {
        to_text = a;
        to_csv = b;
        to_json = c;
        to_html = d;
        to_md = e;
        table = f;
        draw_svg = g;
      })
  unfolding Outcome all_of missing push_missing
  outcome none b c d e f g = inl (refl, λ h. cc)
  outcome (some a) none c d e f g = inl (refl, λ h. cc)
  outcome (some a) (some b) none d e f g = inl (refl, λ h. cc)
  outcome (some a) (some b) (some c) none e f g = inl (refl, λ h. cc)
  outcome (some a) (some b) (some c) (some d) none f g = inl (refl, λ h. cc)
  outcome (some a) (some b) (some c) (some d) (some e) none g = inl (refl, λ h. cc)
  outcome (some a) (some b) (some c) (some d) (some e) (some f) none = inl (refl, λ h. cc)
  outcome (some a) (some b) (some c) (some d) (some e) (some f) (some g) =
      inr (_, refl, refl, refl, refl, refl, refl, refl, refl)

  -- `find` gives the last declaration of each of the seven names, or fails with the names that no
  -- declaration has, of which there is one at least.
  pub find-last :
      (decls : List (Bytes × DeclId))
      → ((ids : FormatDeclIds DeclId) × (find decls ≡ ok ids)
          × All (λ f. last_of decls (f.0) ≡ some (f.1)) (fields ids))
        ⊎ ((find decls ≡ err (absent decls wanted)) × (absent decls wanted ≢ []))
  unfolding find answer Outcome
  find-last decls =
      let v = scan decls nothing in
      let h = found-Holds decls in
      elim (outcome v.to_text v.to_csv v.to_json v.to_html v.to_md v.table v.draw_svg) [
        | inl (e, some_name) ↦
            inr (rw e (ap err (missing-absent decls)), λ z. some_name (missing-absent decls ∙ z))
        | inr (ids, e, a, b, c, d, t, f, g) ↦ inl (
          ids,
          rw e refl,
          (
            sym h.0 ∙ a,
            (
              sym h.1 ∙ b,
              (sym h.2 ∙ c, (sym h.3 ∙ d, (sym h.4 ∙ t, (sym h.5 ∙ f, (sym h.6 ∙ g, tt))))),
            ),
          ),
        )
      ]
