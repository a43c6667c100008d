-- ===== src/Plotters/Drawing/Panics.antt =====
-- Which charts are drawn, and within which ranges.
use mathlib.Core.Path.{subst}
use nu_jupyter_kernel.Prelude.{
  ◌≡◌, ◌↔◌, ◌⊎◌, inl, inr, refl, sym, ap, ◌∙◌, List, [], ◌∷◌, Option, none, some, Bool, true, false,
  All, All-imp, All-zip, Option-cases,
}
use nu_jupyter_kernel.Prelude.Maybe.{◌>>=◌, >>=-eq-some}
use nu_jupyter_kernel.Plotters.{int, float, line, bar, Coord2d, Range, Series2d, Chart2d}
use nu_jupyter_kernel.Plotters.Ranges.{
  Floats, Coord, range, x_range, y_range, x_span, y_span, points, chart_range, add, sub,
}
use nu_jupyter_kernel.Plotters.Bounds.{
  Ordered, Le, Within, Within-trans, min_max-Within, ranges-Within, chart_range-Within,
  chart_range-none_iff,
}
use nu_jupyter_kernel.Plotters.Drawing.{Drawing, any_bar, discrete, drawing, unless_empty, draw}

some-injective : {A : Type 0} {a b : A} → some a ≡ some b → a ≡ b
some-injective e = cc e

module _ (floats : Floats) (divide : floats.F → floats.F → floats.F) (eight_tenths : floats.F) where
  open floats use {F}

  abbrev pub draw_chart : Chart2d F → Option (Drawing F)
  draw_chart chart = draw floats divide eight_tenths chart

  -- The charts without a series, and those whose first series has no point although one of the
  -- ranges is to come from the series.
  abbrev pub Undrawable : Chart2d F → List (Series2d F) → Type 0
  Undrawable chart [] = Unit
  Undrawable chart (first ∷ rest) =
      (points floats first ≡ []) × ((chart.x_range ≡ none) ⊎ (chart.y_range ≡ none))

  range-none_iff :
      (axis : Coord2d F → Coord floats) (span : Coord floats → Coord floats × Coord floats)
      (cs : List (Coord2d F))
      → (range floats axis span cs ≡ none) ↔ (cs ≡ [])
  unfolding range
  range-none_iff axis span [] = (λ h. refl, λ h. refl)
  range-none_iff axis span (c ∷ cs) = (λ h. cc, λ h. cc)

  x_range-none_iff : (s : Series2d F) → (x_range floats s ≡ none) ↔ (points floats s ≡ [])
  unfolding x_range
  x_range-none_iff s = range-none_iff (λ c. c.x) (x_span floats s) (points floats s)

  y_range-none_iff : (s : Series2d F) → (y_range floats s ≡ none) ↔ (points floats s ≡ [])
  unfolding y_range
  y_range-none_iff s = range-none_iff (λ c. c.y) (y_span floats s) (points floats s)

  binds-none_iff :
      {A B C : Type 0} (a : Option A) (b : Option B) (f : A → B → C)
      → ((a >>= λ x. b >>= λ y. some (f x y)) ≡ none) ↔ ((a ≡ none) ⊎ (b ≡ none))
  binds-none_iff none b f = (λ h. inl refl, λ h. refl)
  binds-none_iff (some x) none f = (λ h. inr refl, λ h. refl)
  binds-none_iff (some x) (some y) f = (λ h. cc, λ h. elim h [ inl e ↦ cc e | inr e ↦ cc e ])

  -- The ranges of the chart, for any series.
  abbrev x_range_of : Chart2d F → List (Series2d F) → Option (Range F)
  x_range_of chart series = chart_range floats chart.x_range (x_range floats) series

  abbrev y_range_of : Chart2d F → List (Series2d F) → Option (Range F)
  y_range_of chart series = chart_range floats chart.y_range (y_range floats) series

  ranges-none_iff :
      (chart : Chart2d F) (series : List (Series2d F)) (f : Range F → Range F → Drawing F)
      → ((unless_empty floats divide eight_tenths series >>= λ u.
            x_range_of chart series >>= λ x. y_range_of chart series >>= λ y. some (f x y))
          ≡ none)
        ↔ Undrawable chart series
  unfolding unless_empty
  ranges-none_iff chart [] f = (λ h. tt, λ h. refl)
  ranges-none_iff chart (first ∷ rest) f =
      let (to, from) =
        binds-none_iff (x_range_of chart (first ∷ rest)) (y_range_of chart (first ∷ rest)) f in
      let x = chart_range-none_iff floats chart.x_range (x_range floats) (first ∷ rest) in
      let y = chart_range-none_iff floats chart.y_range (y_range floats) (first ∷ rest) in
      let (xp, px) = x_range-none_iff first in
      let (yp, py) = y_range-none_iff first in
      (
        λ h. elim (to h) [
          | inl e ↦ let (own, none_first) = x.0 e in (xp none_first, inl own)
          | inr e ↦ let (own, none_first) = y.0 e in (yp none_first, inr own)
        ],
        λ h. elim h.1 [
          | inl own ↦ from (inl (x.1 (own, px h.0)))
          | inr own ↦ from (inr (y.1 (own, py h.0)))
        ],
      )

  -- A chart has no drawing, and `draw` panics, exactly if it has no series, or if its first series
  -- has no point and one of the chart's own ranges is missing, whatever the other series hold.
  pub draw-none_iff :
      (chart : Chart2d F) → (draw_chart chart ≡ none) ↔ Undrawable chart chart.series
  unfolding draw
  draw-none_iff chart =
      ranges-none_iff chart chart.series (drawing floats divide eight_tenths chart)

  module _ (ordered : Ordered floats) where
    -- A coordinate between the ends of a range.
    abbrev Between : Range F → Coord floats → Type 0
    Between r c = Le floats ordered r.min c × Le floats ordered c r.max

    -- The point of a line lies within two ranges, or the bar of a point does: a half to its left and
    -- to its right on the one axis, and zero and its height on the other.
    abbrev pub Fits : Range F → Range F → Series2d F → Coord2d F → Type 0
    Fits x y (line s) c = Between x c.x × Between y c.y
    Fits x y (bar s) c =
        Le floats ordered x.min (sub floats c.x (float floats.half))
        × Le floats ordered (add floats c.x (float floats.half)) x.max
        × Between y (int 0)
        × Between y c.y

    -- A point or its bar fits into what is drawn.
    abbrev pub Inside : Drawing F → Series2d F → Coord2d F → Type 0
    Inside d s c = Fits d.x_range d.y_range s c

    Spans : Range F → Range F → Series2d F → Coord2d F → Type 0
    Spans x y s c =
        Within floats ordered (x.min, x.max) (x_span floats s c.x)
        × Within floats ordered (y.min, y.max) (y_span floats s c.y)

    Spans-Fits : (x y : Range F) (s : Series2d F) (c : Coord2d F) → Spans x y s c → Fits x y s c
    unfolding Spans x_span y_span
    Spans-Fits x y (line s) c h = h
    Spans-Fits x y (bar s) c h =
        let (zero_in, point_in) = min_max-Within floats ordered (y.min, y.max) (int 0) c.y h.1 in
        (h.0.0, h.0.1, zero_in, point_in)

    -- The ranges of one series within those of the chart.
    series-Spans :
        (x y : Range F) (s : Series2d F)
        → ((r : Range F)
            → x_range floats s ≡ some r
            → Within floats ordered (x.min, x.max) (r.min, r.max))
        → ((r : Range F)
            → y_range floats s ≡ some r
            → Within floats ordered (y.min, y.max) (r.min, r.max))
        → All (Spans x y s) (points floats s)
    unfolding Spans
    series-Spans x y s hx hy =
        go (Option-cases (x_range floats s)) (Option-cases (y_range floats s))
      where
        go :
            (x_range floats s ≡ none) ⊎ ((r : Range F) × (x_range floats s ≡ some r))
            → (y_range floats s ≡ none) ⊎ ((r : Range F) × (y_range floats s ≡ some r))
            → All (Spans x y s) (points floats s)
        go (inl e) o = subst (All (Spans x y s)) (sym ((x_range-none_iff s).0 e)) tt
        go o (inl e) = subst (All (Spans x y s)) (sym ((y_range-none_iff s).0 e)) tt
        go (inr (rx, ex)) (inr (ry, ey)) =
            All-imp _ (Spans x y s) (points floats s)
              (λ c h. (
                Within-trans floats ordered _ (rx.min, rx.max) _ (hx rx ex) h.0,
                Within-trans floats ordered _ (ry.min, ry.max) _ (hy ry ey) h.1,
              ))
              (ranges-Within floats ordered s rx ry ex ey)

    discrete-Inside :
        (chart : Chart2d F) (x y : Range F) (s : Series2d F) (c : Coord2d F) (b : Bool)
        → any_bar floats divide eight_tenths chart.series ≡ b
        → Spans x y s c
        → Inside (drawing floats divide eight_tenths chart x y) s c
    unfolding Spans drawing discrete
    discrete-Inside chart x y s c true e h =
        rw e (Spans-Fits (record x { metadata = some true }) y s c h)
    discrete-Inside chart x y s c false e h = rw e (Spans-Fits x y s c h)

    -- Where `<` orders the numbers and the chart has no ranges of its own: what is drawn has ranges
    -- that hold every point of every series, and for a bar what is a half to its left, what is a half
    -- to its right, and zero.
    pub draw-Inside :
        (chart : Chart2d F) (d : Drawing F)
        → chart.x_range ≡ none
        → chart.y_range ≡ none
        → draw_chart chart ≡ some d
        → All (λ s. All (Inside d s) (points floats s)) chart.series
    unfolding draw
    draw-Inside chart d no_x no_y e =
        let (u, started, e1) =
          >>=-eq-some (unless_empty floats divide eight_tenths chart.series) _ e in
        let (x, ex, e2) = >>=-eq-some (x_range_of chart chart.series) _ e1 in
        let (y, ey, e3) = >>=-eq-some (y_range_of chart chart.series) _ e2 in
        let same : drawing floats divide eight_tenths chart x y ≡ d = some-injective e3 in
        let hx =
          chart_range-Within floats ordered (x_range floats) chart.series x
            (sym (ap (λ o. chart_range floats o (x_range floats) chart.series) no_x) ∙ ex) in
        let hy =
          chart_range-Within floats ordered (y_range floats) chart.series y
            (sym (ap (λ o. chart_range floats o (y_range floats) chart.series) no_y) ∙ ey) in
        subst (λ d. All (λ s. All (Inside d s) (points floats s)) chart.series) same
          (All-imp _ _ chart.series
            (λ s h.
              All-imp _ _ (points floats s) (λ c k. discrete-Inside chart x y s c _ refl k)
                (series-Spans x y s h.0 h.1))
            (All-zip _ _ chart.series hx hy))
