-- ===== src/Plotters/Drawing/Images/Failing.antt =====
-- When the commands that draw an image fail.
use mathlib.Core.Path.{subst}
use native.Mathlib.Omega.{arith}
use nu_jupyter_kernel.Prelude.{
  ℕ, ◌*◌, ◌<◌, ◌≤◌, ◌≡◌, ◌↔◌, ◌⊎◌, inl, inr, refl, sym, ap, ◌∙◌, Option, none, some, Option-cases,
  Bool-cases, true, false, length,
}
use nu_jupyter_kernel.Prelude.Text.{Bytes}
use nu_jupyter_kernel.Prelude.Flow.{Flow, panics, ◌>>=◌, or_panic}
use nu_jupyter_kernel.Nu
use nu_jupyter_kernel.Plotters.{Color, Chart2d}
use nu_jupyter_kernel.Plotters.Ranges.{Floats}
use nu_jupyter_kernel.Plotters.Drawing.{Drawing, draw}
use nu_jupyter_kernel.Plotters.Drawing.Panics.{Undrawable, draw-none_iff}
use nu_jupyter_kernel.Plotters.Drawing.Images.{
  Imaging, Output, binary, buffer_length, zeros, u32_mod, with_background, bitmap, run_png, in_flow,
  unless_rejected,
}
use nu_jupyter_kernel.Plotters.Drawing.Images.Sizes.{length-zeros, buffer_length_lem}

module _ (floats : Floats) (divide : floats.F → floats.F → floats.F) (eight_tenths : floats.F)
    (imaging : Imaging floats.F) where
  open floats use {F}
  open imaging use {Value, ShellError, Image, white}

  -- The crates: a buffer that is large enough is taken, painting keeps its length, and an image is
  -- made exactly from a buffer that is large enough.
  pub record Bitmaps : Type 0 where
    pub takes :
        (n width height : ℕ) → height * width * 3 ≤ n → imaging.accepts n width height ≡ true
    pub keeps :
        (d : Drawing F) (width height : ℕ) (buf buf' : Bytes)
        → imaging.paint d width height buf ≡ some buf'
        → length buf' ≡ length buf
    pub makes :
        (width height : ℕ) (buf : Bytes)
        → (imaging.from_raw width height buf ≡ none) ↔ (length buf < height * width * 3)

  abbrev with_fill : Chart2d F → Chart2d F
  with_fill chart = with_background floats divide eight_tenths imaging chart chart.background

  -- What is drawn on the bitmap.
  abbrev drawn : Chart2d F → Option (Drawing F)
  drawn chart = draw floats divide eight_tenths (with_fill chart)

  -- The buffer with a drawing painted on it.
  abbrev painted : Chart2d F → Drawing F → Option Bytes
  painted chart d =
      imaging.paint d chart.width chart.height (zeros (buffer_length chart.width chart.height))

  -- The plotters crate cannot paint the drawing, or the image that is made of it cannot be encoded.
  abbrev Unpaintable : Chart2d F → Drawing F → Type 0
  Unpaintable chart d =
      (painted chart d ≡ none)
      ⊎ ((buf : Bytes) × (img : Image) × (painted chart d ≡ some buf)
          × (imaging.from_raw chart.width chart.height buf ≡ some img)
          × (imaging.png img ≡ none))

  -- The chart has no drawing, or has one that cannot be painted or encoded.
  abbrev pub Fails : Chart2d F → Type 0
  Fails chart =
      Undrawable floats divide eight_tenths chart chart.series
      ⊎ ((d : Drawing F) × (drawn chart ≡ some d) × Unpaintable chart d)

  abbrev paint_of : Chart2d F → Option (Drawing F) → Flow ShellError Bytes
  paint_of chart m = or_panic (λ d. d) m >>= λ d. or_panic (λ buf. buf) (painted chart d)

  with_background-none_iff :
      (chart : Chart2d F) (b : Option (Color F))
      → (draw floats divide eight_tenths
            (with_background floats divide eight_tenths imaging chart b)
          ≡ none)
        ↔ Undrawable floats divide eight_tenths chart chart.series
  unfolding with_background
  with_background-none_iff chart none =
      draw-none_iff floats divide eight_tenths (record chart { background = some white })
  with_background-none_iff chart (some c) = draw-none_iff floats divide eight_tenths chart

  bitmap-taken :
      (chart : Chart2d F)
      → imaging.accepts (buffer_length chart.width chart.height) chart.width chart.height ≡ true
      → bitmap floats divide eight_tenths imaging chart ≡ paint_of chart (drawn chart)
  unfolding bitmap unless_rejected
  bitmap-taken chart e = rw e refl

  bitmap-rejected :
      (chart : Chart2d F)
      → imaging.accepts (buffer_length chart.width chart.height) chart.width chart.height ≡ false
      → bitmap floats divide eight_tenths imaging chart ≡ panics
  unfolding bitmap unless_rejected
  bitmap-rejected chart e = rw e refl

  abbrev png_of : Chart2d F → Flow ShellError Bytes → Flow ShellError (Output Image)
  png_of chart m = m >>= λ buf.
      or_panic (λ img. img) (imaging.from_raw chart.width chart.height buf) >>= λ img.
      or_panic (λ png_buf. binary png_buf imaging.png_type) (imaging.png img)

  run_png-read :
      (input : Value) (chart : Chart2d F)
      → imaging.chart input ≡ Nu.ok chart
      → run_png floats divide eight_tenths imaging input
        ≡ png_of chart (bitmap floats divide eight_tenths imaging chart)
  unfolding run_png in_flow
  run_png-read input chart e = rw e refl

  -- What is painted and encoded does not fail.
  encoded :
      (chart : Chart2d F) (d d' : Drawing F) (buf : Bytes) (img : Image) (png_buf : Bytes)
      → painted chart d ≡ some buf
      → imaging.from_raw chart.width chart.height buf ≡ some img
      → imaging.png img ≡ some png_buf
      → d ≡ d'
      → Unpaintable chart d'
      → ⊥
  encoded chart d d' buf img png_buf e f g same (inl h) = cc (sym e ∙ ap (painted chart) same ∙ h)
  encoded chart d d' buf img png_buf e f g same (inr (buf', img', e', f', g')) =
      let same_buf : buf ≡ buf' = cc (sym e ∙ ap (painted chart) same ∙ e') in
      let same_img : img ≡ img' =
        cc (sym f ∙ ap (imaging.from_raw chart.width chart.height) same_buf ∙ f') in
      cc (sym g ∙ ap imaging.png same_img ∙ g')

  module _ (bitmaps : Bitmaps) where
    length-painted :
        (chart : Chart2d F) (d : Drawing F) (buf : Bytes)
        → painted chart d ≡ some buf
        → length buf ≡ buffer_length chart.width chart.height
    length-painted chart d buf e = bitmaps.keeps d chart.width chart.height _ buf e ∙ length-zeros _

    -- A painted buffer that is too short for its image, and one that is long enough.
    png_of-short :
        (chart : Chart2d F) (m : Option (Drawing F))
        → u32_mod ≤ chart.height * chart.width * 3
        → png_of chart (paint_of chart m) ≡ panics
    png_of-short chart none large = refl
    png_of-short chart (some d) large = elim (Option-cases (painted chart d)) [
      | inl e ↦ rw e refl
      | inr (buf, e) ↦
          let short = (buffer_length_lem chart.width chart.height).1 large in
          rw
            (
              e,
              (bitmaps.makes chart.width chart.height buf).1 (
                  subst (λ n. n < chart.height * chart.width * 3)
                    (sym (length-painted chart d buf e)) short),
            )
            refl
    ]

    png_of-long :
        (chart : Chart2d F) (m : Option (Drawing F))
        → chart.height * chart.width * 3 < u32_mod
        → (png_of chart (paint_of chart m) ≡ panics)
          ↔ ((m ≡ none) ⊎ ((d : Drawing F) × (m ≡ some d) × Unpaintable chart d))
    png_of-long chart none small = (λ e. inl refl, λ e. refl)
    png_of-long chart (some d) small = elim (Option-cases (painted chart d)) [
      | inl e ↦ (λ h. inr (d, refl, inl e), λ h. rw e refl)
      | inr (buf, e) ↦
          let exact =
            length-painted chart d buf e ∙ (buffer_length_lem chart.width chart.height).0 small in
          elim (Option-cases (imaging.from_raw chart.width chart.height buf)) [
            | inl f ↦
                absurd (omega (arith, exact, (bitmaps.makes chart.width chart.height buf).0 f))
            | inr (img, f) ↦ elim (Option-cases (imaging.png img)) [
              | inl g ↦ (λ h. inr (d, refl, inr (buf, img, e, f, g)), λ h. rw (e, f, g) refl)
              | inr (png_buf, g) ↦ (
                λ h. absurd (cc (sym h ∙ made chart d buf img png_buf e f g)),
                λ h. elim h [
                  | inl x ↦ cc
                  | inr (d', same, fails) ↦
                      absurd (encoded chart d d' buf img png_buf e f g (cc same) fails)
                ],
              )
            ]
          ]
    ]
      where
        made :
            (chart : Chart2d F) (d : Drawing F) (buf : Bytes) (img : Image) (png_buf : Bytes)
            → painted chart d ≡ some buf
            → imaging.from_raw chart.width chart.height buf ≡ some img
            → imaging.png img ≡ some png_buf
            → png_of chart (paint_of chart (some d)) ≡ Flow.ok (binary png_buf imaging.png_type)
        made chart d buf img png_buf e f g = rw (e, f, g) refl

    -- `draw png` on a readable chart: where the bytes of its pixels fit into 32 bits, it panics
    -- exactly if the chart has no drawing, the plotters crate cannot paint the drawing, or the image
    -- of it cannot be encoded; where they do not fit, it panics always.
    pub run_png-panics_iff :
        (input : Value) (chart : Chart2d F)
        → imaging.chart input ≡ Nu.ok chart
        → (chart.height * chart.width * 3 < u32_mod
            → (run_png floats divide eight_tenths imaging input ≡ panics) ↔ Fails chart)
          × (u32_mod ≤ chart.height * chart.width * 3
              → run_png floats divide eight_tenths imaging input ≡ panics)
    run_png-panics_iff input chart read = (small_case, large_case)
      where
        small_case :
            chart.height * chart.width * 3 < u32_mod
            → (run_png floats divide eight_tenths imaging input ≡ panics) ↔ Fails chart
        small_case small =
            let exact = (buffer_length_lem chart.width chart.height).0 small in
            let taken =
              bitmap-taken chart
                (bitmaps.takes _ chart.width chart.height (omega (arith, exact))) in
            let (to, from) = png_of-long chart (drawn chart) small in
            let (none_to, none_from) = with_background-none_iff chart chart.background in
            rw (run_png-read input chart read, taken)
              (
                λ e. elim (to e) [ inl x ↦ inl (none_to x) | inr x ↦ inr x ],
                λ h. elim h [ inl x ↦ from (inl (none_from x)) | inr x ↦ from (inr x) ],
              )

        large_case :
            u32_mod ≤ chart.height * chart.width * 3
            → run_png floats divide eight_tenths imaging input ≡ panics
        large_case large =
            elim (Bool-cases
              (imaging.accepts (buffer_length chart.width chart.height) chart.width chart.height)) [
                | inl e ↦
                    rw (run_png-read input chart read, bitmap-taken chart e)
                      (png_of-short chart (drawn chart) large)
                | inr e ↦ rw (run_png-read input chart read, bitmap-rejected chart e) refl
              ]
