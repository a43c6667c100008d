-- ===== src/Plotters/Bounds.antt =====
-- The ranges hold what they are for: every point of a series, and every series of a chart.
use mathlib.Core.Path.{subst}
use nu_jupyter_kernel.Prelude.{
  ◌≡◌, refl, ◌↔◌, List, [], ◌∷◌, Option, none, some, true, false, All, All-zip, Bool-cases, inl,
  inr, if◌then◌else◌,
}
use nu_jupyter_kernel.Plotters.{Coord2d, Range, Series2d}
use nu_jupyter_kernel.Plotters.Ranges.{
  Floats, Coord, as_float, lt, min, max, widen, map_pairs, range_of, range, x_span, y_span, points,
  x_range, y_range, add_range, ranges, widen_range, chart_range,
}

-- No series, or a first one without a range.
abbrev pub Rangeless : {F : Type 0} → (Series2d F → Option (Range F)) → List (Series2d F) → Type 0
Rangeless f [] = Unit {0}
Rangeless f (first ∷ rest) = f first ≡ none

-- `<` on valid numbers is a strict order whose complement is transitive.
pub record Ordered (floats : Floats) : Type 0 where
  pub irrefl : (a : floats.F) → floats.less a a ≡ false
  pub asym : (a b : floats.F) → floats.less a b ≡ true → floats.less b a ≡ false
  pub le_trans :
      (a b c : floats.F)
      → floats.less b a ≡ false
      → floats.less c b ≡ false
      → floats.less c a ≡ false

module _ (floats : Floats) (ordered : Ordered floats) where
  open floats use {F}

  -- At most: not greater.
  abbrev pub Le : Coord floats → Coord floats → Type 0
  Le a b = lt floats b a ≡ false

  Le-refl : (a : Coord floats) → Le a a
  unfolding lt
  Le-refl a = ordered.irrefl (as_float floats a)

  Le-trans : (a b c : Coord floats) → Le a b → Le b c → Le a c
  unfolding lt
  Le-trans a b c = ordered.le_trans (as_float floats a) (as_float floats b) (as_float floats c)

  Le_of_lt : (a b : Coord floats) → lt floats a b ≡ true → Le a b
  unfolding lt
  Le_of_lt a b = ordered.asym (as_float floats a) (as_float floats b)

  -- The lower of two is at most each, and the greater at least each.
  lower-Le : (a b : Coord floats) → let low = if lt floats a b then a else b in Le low a × Le low b
  lower-Le a b = elim (Bool-cases (lt floats a b)) [
    | inl e ↦ rw e (Le-refl a, Le_of_lt a b e)
    | inr e ↦ rw e (e, Le-refl b)
  ]

  upper-Le :
      (a b : Coord floats) → let high = if lt floats b a then a else b in Le a high × Le b high
  upper-Le a b = elim (Bool-cases (lt floats b a)) [
    | inl e ↦ rw e (Le-refl a, Le_of_lt b a e)
    | inr e ↦ rw e (e, Le-refl b)
  ]

  -- A pair of coordinates lies within two bounds.
  abbrev pub Within : Coord floats × Coord floats → Coord floats × Coord floats → Type 0
  Within bounds p = Le bounds.0 p.0 × Le p.1 bounds.1

  pub Within-trans :
      (outer inner p : Coord floats × Coord floats)
      → Within outer inner
      → Within inner p
      → Within outer p
  Within-trans outer inner p h k =
      (Le-trans outer.0 inner.0 p.0 h.0 k.0, Le-trans p.1 inner.1 outer.1 k.1 h.1)

  -- Bounds around the lower and the greater of two are bounds around both.
  pub min_max-Within :
      (bounds : Coord floats × Coord floats) (a b : Coord floats)
      → Within bounds (min floats a b, max floats a b)
      → Within bounds (a, a) × Within bounds (b, b)
  unfolding min max
  min_max-Within bounds a b h =
      let low = lower-Le b a in
      let high = upper-Le a b in
      (
        (Le-trans _ _ _ h.0 low.1, Le-trans _ _ _ high.0 h.1),
        (Le-trans _ _ _ h.0 low.0, Le-trans _ _ _ high.1 h.1),
      )

  -- The loop ends with bounds around those it began with and around every pair.
  widen-Within :
      (ps : List (Coord floats × Coord floats)) (start : Coord floats × Coord floats)
      → Within (widen floats ps start) start × All (Within (widen floats ps start)) ps
  unfolding widen
  widen-Within [] start = ((Le-refl start.0, Le-refl start.1), tt)
  widen-Within ((lower, upper) ∷ rest) (low, high) =
      let next : Coord floats × Coord floats = (
        if lt floats lower low then lower else low,
        if lt floats high upper then upper else high,
      ) in
      let (outer, others) = widen-Within rest next in
      let below = lower-Le lower low in
      let above = upper-Le upper high in
      (
        Within-trans _ next (low, high) outer (below.1, above.1),
        (Within-trans _ next (lower, upper) outer (below.0, above.0), others),
      )

  All-map_pairs :
      {A : Type 0} (P : Coord floats × Coord floats → Type 0) (f : A → Coord floats × Coord floats)
      (xs : List A)
      → All P (map_pairs floats f xs)
      → All (λ a. P (f a)) xs
  unfolding map_pairs
  All-map_pairs P f [] h = tt
  All-map_pairs P f (x ∷ xs) h = (h.0, All-map_pairs P f xs h.1)

  range-Within :
      (axis : Coord2d F → Coord floats) (span : Coord floats → Coord floats × Coord floats)
      (cs : List (Coord2d F)) (r : Range F)
      → range floats axis span cs ≡ some r
      → All (λ c. Within (r.min, r.max) (span (axis c))) cs
  unfolding range
  range-Within axis span [] r e = cc
  range-Within axis span (first ∷ rest) r e =
      let start : Coord floats × Coord floats = (axis first, axis first) in
      let pairs = map_pairs floats (λ c. span (axis c)) (first ∷ rest) in
      let same : range_of floats (widen floats pairs start) ≡ r = cc in
      subst (λ (r : Range F). All (λ c. Within (r.min, r.max) (span (axis c))) (first ∷ rest)) same
        (All-map_pairs (Within (widen floats pairs start)) (λ c. span (axis c)) (first ∷ rest)
          (widen-Within pairs start).1)

  -- Where `<` orders the numbers, both ranges of a series hold what every point spans on the axis:
  -- the point of a line, the width and the height from zero of a bar.
  pub ranges-Within :
      (s : Series2d F) (x y : Range F)
      → x_range floats s ≡ some x
      → y_range floats s ≡ some y
      → All
          (λ (c : Coord2d F).
            Within (x.min, x.max) (x_span floats s c.x)
            × Within (y.min, y.max) (y_span floats s c.y))
          (points floats s)
  unfolding x_range y_range
  ranges-Within s x y ex ey =
      All-zip _ _ (points floats s)
        (range-Within (λ c. c.x) (x_span floats s) (points floats s) x ex)
        (range-Within (λ c. c.y) (y_span floats s) (points floats s) y ey)

  All-add_range :
      (P : Coord floats × Coord floats → Type 0) (o : Option (Range F))
      (others : List (Coord floats × Coord floats))
      → All P (add_range floats o others)
      → ((r : Range F) → o ≡ some r → P (r.min, r.max)) × All P others
  unfolding add_range
  All-add_range P none others h = (λ r e. absurd (cc), h)
  All-add_range P (some s) others h =
      (λ r e. let same : s ≡ r = cc in subst (λ (r : Range F). P (r.min, r.max)) same h.0, h.1)

  All-ranges :
      (P : Coord floats × Coord floats → Type 0) (f : Series2d F → Option (Range F))
      (series : List (Series2d F))
      → All P (ranges floats f series)
      → All (λ s. (r : Range F) → f s ≡ some r → P (r.min, r.max)) series
  unfolding ranges
  All-ranges P f [] h = tt
  All-ranges P f (s ∷ rest) h =
      let (first, others) = All-add_range P (f s) (ranges floats f rest) h in
      (first, All-ranges P f rest others)

  widen_range-Within :
      (o : Option (Range F)) (pairs : List (Coord floats × Coord floats)) (r : Range F)
      → widen_range floats o pairs ≡ some r
      → All (Within (r.min, r.max)) pairs
  unfolding widen_range
  widen_range-Within none pairs r e = cc
  widen_range-Within (some first) pairs r e =
      let bounds : Coord floats × Coord floats = widen floats pairs (first.min, first.max) in
      let same : range_of floats bounds ≡ r = cc in
      subst (λ (r : Range F). All (Within (r.min, r.max)) pairs) same
        (widen-Within pairs (first.min, first.max)).1

  -- Where `<` orders the numbers, the range of a chart that has none of its own holds the range of
  -- each of its series.
  pub chart_range-Within :
      (f : Series2d F → Option (Range F)) (series : List (Series2d F)) (r : Range F)
      → chart_range floats none f series ≡ some r
      → All (λ s. (r' : Range F) → f s ≡ some r' → Within (r.min, r.max) (r'.min, r'.max)) series
  unfolding chart_range
  chart_range-Within f [] r e = tt
  chart_range-Within f (first ∷ rest) r e =
      All-ranges (Within (r.min, r.max)) f (first ∷ rest)
        (widen_range-Within (f first) (ranges floats f (first ∷ rest)) r e)

widen_range-none_iff :
    (floats : Floats) (o : Option (Range floats.F)) (pairs : List (Coord floats × Coord floats))
    → (widen_range floats o pairs ≡ none) ↔ (o ≡ none)
unfolding widen_range
widen_range-none_iff floats none pairs = (λ e. refl, λ h. refl)
widen_range-none_iff floats (some r) pairs = (λ e. absurd (cc), λ h. absurd (cc))

-- A chart has no range exactly if it has none of its own, and no series or a first series without
-- one, whatever the other series hold.
pub chart_range-none_iff :
    (floats : Floats) (own : Option (Range floats.F))
    (f : Series2d floats.F → Option (Range floats.F)) (series : List (Series2d floats.F))
    → (chart_range floats own f series ≡ none) ↔ ((own ≡ none) × Rangeless f series)
unfolding chart_range
chart_range-none_iff floats (some r) f series = (λ e. absurd (cc), λ h. absurd (cc h.0))
chart_range-none_iff floats none f [] = (λ e. (refl, tt), λ h. refl)
chart_range-none_iff floats none f (first ∷ rest) =
    let (to, from) = widen_range-none_iff floats (f first) (ranges floats f (first ∷ rest)) in
    (λ e. (refl, to e), λ h. from h.1)
