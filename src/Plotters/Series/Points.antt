-- ===== src/Plotters/Series/Points.antt =====
-- Which lists of values make a series, and of which points.
use nu_jupyter_kernel.Prelude.{ℕ, ◌+◌, ◌%◌, ◌^◌, ◌≡◌, ◌≢◌, ◌↔◌, ◌⊎◌, inl, inr, refl, List, [], ◌∷◌}
use nu_jupyter_kernel.Prelude.Flow.{Flow}
use nu_jupyter_kernel.Nu.{Result, ok, err}
use nu_jupyter_kernel.Plotters.{Coord1d, int, Coord2d}
use nu_jupyter_kernel.Plotters.Series.{
  Values, coord_1d, tuple, coord_2d, tuple_or_record, at_index, number_at, of_tuple, tuple_at,
  coord_at, push_to, each, by_first, of_list, of_input, series_from_value,
}

-- The values of a list from an index on and as many points, each pair related at its index.
abbrev pub Pointwise : {A B : Type 0} → (ℕ → A → B → Type 0) → ℕ → List A → List B → Type 0
Pointwise P i [] [] = Unit
Pointwise P i [] (b ∷ ys) = ⊥
Pointwise P i (a ∷ xs) [] = ⊥
Pointwise P i (a ∷ xs) (b ∷ ys) = P i a b × Pointwise P (i + 1) xs ys

module _ (values : Values) where
  open values use {Value, ShellError, F}

  -- A number is a point over its index.
  abbrev pub IsNumber : ℕ → Value → Coord2d F → Type 0
  IsNumber i v p = (coord_1d values v ≡ ok p.y) × (p.x ≡ int (i % 2 ^ 64))

  abbrev pub IsPair : ℕ → Value → Coord2d F → Type 0
  IsPair i v p = tuple values v ≡ ok (p.x, p.y)

  -- A pair, or a record of x and y.
  abbrev pub IsCoord : ℕ → Value → Coord2d F → Type 0
  IsCoord i v p =
      (tuple values v ≡ ok (p.x, p.y))
      ⊎ (((e : ShellError) × (tuple values v ≡ err e))
          × (values.x_y (coord_1d values) v ≡ ok (p.x, p.y)))

  -- The form that all values of a list have to have, from the readings of the first.
  abbrev pub Form :
      {A B C : Type 0}
      → Result ShellError A
      → Result ShellError B
      → Result ShellError C
      → ℕ
      → Value
      → Coord2d F
      → Type 0
  Form (ok a) t c i v p = IsNumber i v p
  Form (err e) (ok b) c i v p = IsPair i v p
  Form (err e) (err f) (ok c) i v p = IsCoord i v p
  Form (err e) (err f) (err g) i v p = ⊥

  at_index-ok :
      (i : ℕ) (r : Result ShellError (Coord1d F)) (p : Coord2d F)
      → (at_index values i r ≡ ok p) ↔ ((r ≡ ok p.y) × (p.x ≡ int (i % 2 ^ 64)))
  unfolding at_index
  at_index-ok i (ok y) p = (λ h. (cc h, cc h), λ h. cc (h.0, h.1))
  at_index-ok i (err e) p = (λ h. cc, λ h. cc (h.0))

  of_tuple-ok :
      (r : Result ShellError (Coord1d F × Coord1d F)) (p : Coord2d F)
      → (of_tuple values r ≡ ok p) ↔ (r ≡ ok (p.x, p.y))
  unfolding of_tuple
  of_tuple-ok (ok (x, y)) p = (λ h. cc h, λ h. cc h)
  of_tuple-ok (err e) p = (λ h. cc, λ h. cc)

  tuple_or_record-ok :
      (r s : Result ShellError (Coord1d F × Coord1d F)) (p : Coord2d F)
      → (tuple_or_record values r s ≡ ok p)
        ↔ ((r ≡ ok (p.x, p.y)) ⊎ (((e : ShellError) × (r ≡ err e)) × (s ≡ ok (p.x, p.y))))
  unfolding tuple_or_record
  tuple_or_record-ok (ok (x, y)) s p =
      (λ h. inl (cc h), λ h. elim h [ inl e ↦ cc e | inr ((e, k), l) ↦ cc k ])
  tuple_or_record-ok (err e) (ok (x, y)) p =
      (λ h. inr ((e, refl), cc h), λ h. elim h [ inl e ↦ cc e | inr ((f, k), l) ↦ cc l ])
  tuple_or_record-ok (err e) (err f) p =
      (λ h. cc, λ h. elim h [ inl e ↦ cc e | inr ((g, k), l) ↦ cc l ])

  number_at-IsNumber :
      (i : ℕ) (v : Value) (p : Coord2d F) → (number_at values i v ≡ ok p) ↔ IsNumber i v p
  unfolding number_at
  number_at-IsNumber i v p = at_index-ok i (coord_1d values v) p

  tuple_at-IsPair :
      (i : ℕ) (v : Value) (p : Coord2d F) → (tuple_at values i v ≡ ok p) ↔ IsPair i v p
  unfolding tuple_at
  tuple_at-IsPair i v p = of_tuple-ok (tuple values v) p

  coord_at-IsCoord :
      (i : ℕ) (v : Value) (p : Coord2d F) → (coord_at values i v ≡ ok p) ↔ IsCoord i v p
  unfolding coord_at coord_2d
  coord_at-IsCoord i v p = tuple_or_record-ok (tuple values v) (values.x_y (coord_1d values) v) p

  push_to-ok :
      (r : Result ShellError (Coord2d F)) (rest : Flow ShellError (List (Coord2d F)))
      (p : Coord2d F) (ps : List (Coord2d F))
      → (push_to values r rest ≡ Flow.ok (p ∷ ps)) ↔ ((r ≡ ok p) × (rest ≡ Flow.ok ps))
  unfolding push_to
  push_to-ok (err e) rest p ps = (λ h. cc, λ h. cc)
  push_to-ok (ok q) (Flow.ok qs) p ps = (λ h. (cc, cc), λ h. cc)
  push_to-ok (ok q) (Flow.err e) p ps = (λ h. cc, λ h. cc)
  push_to-ok (ok q) Flow.panics p ps = (λ h. cc, λ h. cc)

  push_to-not_empty :
      (r : Result ShellError (Coord2d F)) (rest : Flow ShellError (List (Coord2d F)))
      → push_to values r rest ≢ Flow.ok []
  unfolding push_to
  push_to-not_empty (err e) rest h = cc
  push_to-not_empty (ok q) (Flow.ok qs) h = cc
  push_to-not_empty (ok q) (Flow.err e) h = cc
  push_to-not_empty (ok q) Flow.panics h = cc

  module _ (body : ℕ → Value → Result ShellError (Coord2d F)) (P : ℕ → Value → Coord2d F → Type 0)
      (same : (i : ℕ) (v : Value) (p : Coord2d F) → (body i v ≡ ok p) ↔ P i v p) where
    each-Pointwise :
        (i : ℕ) (input : List Value) (ps : List (Coord2d F))
        → (each values body i input ≡ Flow.ok ps) ↔ Pointwise P i input ps
    unfolding each
    each-Pointwise i [] [] = (λ h. tt, λ h. refl)
    each-Pointwise i [] (p ∷ ps) = (λ h. cc, λ h. absurd h)
    each-Pointwise i (v ∷ input) [] = (λ h. push_to-not_empty (body i v) _ h, λ h. absurd h)
    each-Pointwise i (v ∷ input) (p ∷ ps) =
        let step = push_to-ok (body i v) (each values body (i + 1) input) p ps in
        let rest = each-Pointwise (i + 1) input ps in
        (
          λ h. let (a, b) = step.0 h in ((same i v p).0 a, rest.0 b),
          λ h. step.1 ((same i v p).1 h.0, rest.1 h.1),
        )

  by_first-Form :
      {A B C : Type 0} (a : Result ShellError A) (b : Result ShellError B) (c : Result ShellError C)
      (first : Value) (rest : List Value) (ps : List (Coord2d F))
      → (by_first values a b c (first ∷ rest) ≡ Flow.ok ps)
        ↔ Pointwise (Form a b c) 0 (first ∷ rest) ps
  unfolding by_first
  by_first-Form (ok a) b c first rest ps =
      each-Pointwise (number_at values) IsNumber number_at-IsNumber 0 (first ∷ rest) ps
  by_first-Form (err e) (ok b) c first rest ps =
      each-Pointwise (tuple_at values) IsPair tuple_at-IsPair 0 (first ∷ rest) ps
  by_first-Form (err e) (err f) (ok c) first rest ps =
      each-Pointwise (coord_at values) IsCoord coord_at-IsCoord 0 (first ∷ rest) ps
  by_first-Form (err e) (err f) (err g) first rest [] = (λ h. cc, λ h. absurd h)
  by_first-Form (err e) (err f) (err g) first rest (p ∷ ps) = (λ h. cc, λ h. absurd h.0)

  push_to-panics :
      (r : Result ShellError (Coord2d F)) (rest : Flow ShellError (List (Coord2d F)))
      → push_to values r rest ≡ Flow.panics
      → rest ≡ Flow.panics
  unfolding push_to
  push_to-panics (err e) rest h = cc
  push_to-panics (ok p) (Flow.ok ps) h = cc
  push_to-panics (ok p) (Flow.err e) h = cc
  push_to-panics (ok p) Flow.panics h = refl

  each-no_panic :
      (body : ℕ → Value → Result ShellError (Coord2d F)) (i : ℕ) (input : List Value)
      → each values body i input ≢ Flow.panics
  unfolding each
  each-no_panic body i [] h = cc
  each-no_panic body i (v ∷ input) h =
      each-no_panic body (i + 1) input (push_to-panics (body i v) _ h)

  -- No form at all.
  abbrev pub IsFormless : Value → Type 0
  IsFormless v =
      ((e : ShellError) × (coord_1d values v ≡ err e))
      × ((e : ShellError) × (tuple values v ≡ err e))
      × ((e : ShellError) × (coord_2d values v ≡ err e))

  by_first-panics_iff :
      {A B C : Type 0} (a : Result ShellError A) (b : Result ShellError B) (c : Result ShellError C)
      (input : List Value)
      → (by_first values a b c input ≡ Flow.panics) ↔ (
          ((e : ShellError) × (a ≡ err e))
          × ((e : ShellError) × (b ≡ err e))
          × ((e : ShellError) × (c ≡ err e)))
  unfolding by_first
  by_first-panics_iff (ok a) b c input =
      (λ h. absurd (each-no_panic (number_at values) 0 input h), λ h. cc (h.0.1))
  by_first-panics_iff (err e) (ok b) c input =
      (λ h. absurd (each-no_panic (tuple_at values) 0 input h), λ h. cc (h.1.1))
  by_first-panics_iff (err e) (err f) (ok c) input =
      (λ h. absurd (each-no_panic (coord_at values) 0 input h), λ h. cc (h.2.1))
  by_first-panics_iff (err e) (err f) (err g) input =
      (λ h. ((e, refl), (f, refl), (g, refl)), λ h. refl)

  -- A list that is not empty makes exactly the series whose points are its values one by one, all in
  -- the first form that its first value has: a number, over its index, a pair, or a coordinate. It
  -- ends in a panic exactly if the first value has no form.
  pub series-Form :
      (v first : Value) (rest : List Value)
      → values.into_list v ≡ ok (first ∷ rest)
      → ((ps : List (Coord2d F))
          → (series_from_value values v ≡ Flow.ok ps)
            ↔ Pointwise
                (Form (coord_1d values first) (tuple values first) (coord_2d values first))
                0
                (first ∷ rest)
                ps)
        × ((series_from_value values v ≡ Flow.panics) ↔ IsFormless first)
  unfolding series_from_value of_input of_list
  series-Form v first rest h = (
    λ ps. rw h (by_first-Form _ _ _ first rest ps),
    rw h (by_first-panics_iff _ _ _ (first ∷ rest)),
  )
