-- ===== src/Plotters/CustomValues/Kept.antt =====
-- What the values of series keep.
use nu_jupyter_kernel.Prelude.{◌≡◌, ◌↔◌, refl, ap, List, [], ◌∷◌}
use nu_jupyter_kernel.Nu.{ok}
use nu_jupyter_kernel.Plotters.{
  Coord1d, Coord2d, Color, Line2dSeries, Bar2dSeries, Series2d, line, bar,
}
use nu_jupyter_kernel.Plotters.CustomValues

module _ {F : Type 0} where
  coord_1d-injective :
      (a b : Coord1d F) → CustomValues.coord_1d_value a ≡ CustomValues.coord_1d_value b → a ≡ b
  unfolding CustomValues.coord_1d_value
  coord_1d-injective (Coord1d.int n) (Coord1d.int m) e = cc e
  coord_1d-injective (Coord1d.int n) (Coord1d.float g) e = cc e
  coord_1d-injective (Coord1d.float f) (Coord1d.int m) e = cc e
  coord_1d-injective (Coord1d.float f) (Coord1d.float g) e = cc e

  coord_2d-injective :
      (a b : Coord2d F) → CustomValues.coord_2d_value a ≡ CustomValues.coord_2d_value b → a ≡ b
  unfolding CustomValues.coord_2d_value
  coord_2d-injective a b e =
      let x : a.x ≡ b.x = coord_1d-injective a.x b.x (cc e) in
      let y : a.y ≡ b.y = coord_1d-injective a.y b.y (cc e) in rw (x, y) refl

  coords-injective :
      (cs ds : List (Coord2d F))
      → CustomValues.coords_value cs ≡ CustomValues.coords_value ds
      → cs ≡ ds
  unfolding CustomValues.coords_value
  coords-injective [] [] e = refl
  coords-injective [] (d ∷ ds) e = cc e
  coords-injective (c ∷ cs) [] e = cc e
  coords-injective (c ∷ cs) (d ∷ ds) e =
      let first : c ≡ d = coord_2d-injective c d (cc e) in
      let rest : cs ≡ ds = coords-injective cs ds (cc e) in rw (first, rest) refl

  color-injective :
      (a b : Color F) → CustomValues.color_value a ≡ CustomValues.color_value b → a ≡ b
  unfolding CustomValues.color_value
  color-injective a b e =
      let r : a.r ≡ b.r = cc e in
      let g : a.g ≡ b.g = cc e in
      let blue : a.b ≡ b.b = cc e in let alpha : a.a ≡ b.a = cc e in rw (r, g, blue, alpha) refl

  line-injective :
      (s t : Line2dSeries F) → CustomValues.line_fields s ≡ CustomValues.line_fields t → s ≡ t
  unfolding CustomValues.line_fields
  line-injective s t e =
      let points : s.series ≡ t.series = coords-injective s.series t.series (cc e) in
      let color : s.color ≡ t.color = color-injective s.color t.color (cc e) in
      let filled : s.filled ≡ t.filled = cc e in
      let stroke : s.stroke_width ≡ t.stroke_width = cc e in
      let size : s.point_size ≡ t.point_size = cc e in rw (points, color, filled, stroke, size) refl

  bar-injective :
      (s t : Bar2dSeries F) → CustomValues.bar_fields s ≡ CustomValues.bar_fields t → s ≡ t
  unfolding CustomValues.bar_fields
  bar-injective s t e =
      let points : s.series ≡ t.series = coords-injective s.series t.series (cc e) in
      let color : s.color ≡ t.color = color-injective s.color t.color (cc e) in
      let filled : s.filled ≡ t.filled = cc e in
      let stroke : s.stroke_width ≡ t.stroke_width = cc e in rw (points, color, filled, stroke) refl

  -- Two series with the same base value are the same series.
  pub into_base_value-injective :
      (s t : Series2d F) → CustomValues.into_base_value s ≡ CustomValues.into_base_value t → s ≡ t
  unfolding CustomValues.into_base_value
  into_base_value-injective (line s) (line t) e = ap line (line-injective s t (cc e))
  into_base_value-injective (line s) (bar t) e = cc e
  into_base_value-injective (bar s) (line t) e = cc e
  into_base_value-injective (bar s) (bar t) e = ap bar (bar-injective s t (cc e))

  -- A value reads as a series exactly if it is the custom value of that series; a chart does not.
  pub series_of_value_iff :
      (v : CustomValues.Value F) (s : Series2d F)
      → (CustomValues.series_of_value v ≡ ok s) ↔ (v ≡ CustomValues.custom (CustomValues.series s))
  unfolding CustomValues.series_of_value
  series_of_value_iff (CustomValues.int n) s = (λ e. cc, λ e. cc)
  series_of_value_iff (CustomValues.float f) s = (λ e. cc, λ e. cc)
  series_of_value_iff (CustomValues.bool b) s = (λ e. cc, λ e. cc)
  series_of_value_iff (CustomValues.list_value vs) s = (λ e. cc, λ e. cc)
  series_of_value_iff (CustomValues.record_value fs) s = (λ e. cc, λ e. cc)
  series_of_value_iff (CustomValues.string t) s = (λ e. cc, λ e. cc)
  series_of_value_iff (CustomValues.custom (CustomValues.series t)) s = (λ e. cc, λ e. cc)
  series_of_value_iff (CustomValues.custom (CustomValues.chart c)) s = (λ e. cc, λ e. cc)
  series_of_value_iff (CustomValues.custom (CustomValues.other t)) s = (λ e. cc, λ e. cc)
