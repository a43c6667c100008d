-- ===== src/Plotters/Drawing/Images/Backgrounds.antt =====
-- What fills an image behind its chart.
use nu_jupyter_kernel.Prelude.{◌≡◌, refl, sym, ap, ◌∙◌, Option, none, some}
use nu_jupyter_kernel.Prelude.Text.{Text, Bytes}
use nu_jupyter_kernel.Prelude.Maybe
use nu_jupyter_kernel.Prelude.Flow.{
  Flow, ◌>>=◌, or_panic, Gives, Gives-bind, or_panic-Gives, or_panic-eq-ok,
}
use nu_jupyter_kernel.Nu
use nu_jupyter_kernel.Nu.{Result}
use nu_jupyter_kernel.Plotters.{Color, Chart2d}
use nu_jupyter_kernel.Plotters.Chart.{unwrap_or}
use nu_jupyter_kernel.Plotters.Ranges.{Floats, chart_range, x_range, y_range}
use nu_jupyter_kernel.Plotters.Drawing.{Drawing, draw, drawing, unless_empty}
use nu_jupyter_kernel.Plotters.Drawing.Images.{
  Imaging, Output, binary, string, buffer_length, zeros, with_background, bitmap, run_png, run_svg,
  in_flow, unless_rejected,
}

module _ (floats : Floats) (divide : floats.F → floats.F → floats.F) (eight_tenths : floats.F) where
  open floats use {F}

  draw-fill :
      (chart : Chart2d F) (d : Drawing F)
      → draw floats divide eight_tenths chart ≡ some d
      → d.fill ≡ chart.background
  unfolding draw drawing
  draw-fill chart d e =
      let (u, e0, f0) =
        Maybe.>>=-eq-some (unless_empty floats divide eight_tenths chart.series) _ e in
      let (x, e1, f1) =
        Maybe.>>=-eq-some (chart_range floats chart.x_range (x_range floats) chart.series) _ f0 in
      let (y, e2, f2) =
        Maybe.>>=-eq-some (chart_range floats chart.y_range (y_range floats) chart.series) _ f1 in
      let same : drawing floats divide eight_tenths chart x y ≡ d = cc f2 in
      ap (λ (o : Drawing F). o.fill) (sym same)

  module _ (imaging : Imaging F) where
    open imaging use {Value, ShellError, Image, white}

    background-fill :
        (chart : Chart2d F) (b : Option (Color F)) (d : Drawing F)
        → b ≡ chart.background
        → draw floats divide eight_tenths
            (with_background floats divide eight_tenths imaging chart b)
          ≡ some d
        → d.fill ≡ some (unwrap_or b white)
    unfolding with_background
    background-fill chart none d own e = draw-fill (record chart { background = some white }) d e
    background-fill chart (some color) d own e = draw-fill chart d e ∙ sym own

    -- An image of the chart on a background.
    abbrev pub PngOf : Chart2d F → Output Image → Type 0
    PngOf chart out =
        (d : Drawing F) × (buf : Bytes) × (img : Image) × (png_buf : Bytes) × (d.fill
          ≡ some (unwrap_or chart.background white))
        × (imaging.paint d chart.width chart.height (zeros (buffer_length chart.width chart.height))
            ≡ some buf)
        × (imaging.from_raw chart.width chart.height buf ≡ some img)
        × (imaging.png img ≡ some png_buf)
        × (out ≡ binary png_buf imaging.png_type)

    abbrev pub SvgOf : Chart2d F → Output Image → Type 0
    SvgOf chart out =
        (d : Drawing F) × (text : Text) × (d.fill ≡ chart.background)
        × (imaging.svg d chart.width chart.height ≡ some text)
        × (out ≡ string text imaging.svg_type)

    Painted : Chart2d F → Bytes → Type 0
    Painted chart buf =
        (d : Drawing F) × (d.fill ≡ some (unwrap_or chart.background white))
        × (imaging.paint d chart.width chart.height (zeros (buffer_length chart.width chart.height))
            ≡ some buf)

    bitmap-Gives :
        (chart : Chart2d F)
        → Gives (Painted chart) (bitmap floats divide eight_tenths imaging chart)
    unfolding bitmap Painted
    bitmap-Gives chart =
        Gives-bind (Painted chart)
          (unless_rejected floats divide eight_tenths imaging
            (imaging.accepts (buffer_length chart.width chart.height) chart.width chart.height))
          _
          (λ u e. Gives-bind (Painted chart) (or_panic (λ d. d) _) _ (λ d drawn.
            or_panic-Gives (Painted chart) _ _ (λ buf painted. (
              d,
              background-fill chart chart.background d refl (or_panic-eq-ok _ d drawn),
              painted,
            ))))

    png-Gives :
        (chart : Chart2d F) (m : Flow ShellError Bytes)
        → Gives (Painted chart) m
        → Gives (PngOf chart) (
            m >>= λ buf.
            or_panic (λ img. img) (imaging.from_raw chart.width chart.height buf) >>= λ img.
            or_panic (λ png_buf. binary png_buf imaging.png_type) (imaging.png img))
    unfolding Painted
    png-Gives chart m h = Gives-bind (PngOf chart) m _ λ buf e.
        let (d, fill, painted) = h.apply buf e in
        Gives-bind (PngOf chart)
          (or_panic (λ img. img) (imaging.from_raw chart.width chart.height buf)) _
          λ img made.
            or_panic-Gives (PngOf chart) (λ png_buf. binary png_buf imaging.png_type)
              (imaging.png img)
              λ png_buf encoded.
                (d, buf, img, png_buf, fill, painted, or_panic-eq-ok _ img made, encoded, refl)

    -- What `draw png` returns for a readable chart is the encoded image of what is painted on the
    -- background of the chart, or on white where it has none; what `draw svg` returns for it is drawn
    -- on the chart's own background, or on none.
    pub run_png-run_svg :
        (input : Value) (chart : Chart2d F)
        → imaging.chart input ≡ Nu.ok chart
        → Gives (PngOf chart) (run_png floats divide eight_tenths imaging input)
          × Gives (SvgOf chart) (run_svg floats divide eight_tenths imaging input)
    unfolding run_png run_svg in_flow
    run_png-run_svg input chart read = rw read (
      png-Gives chart (bitmap floats divide eight_tenths imaging chart) (bitmap-Gives chart),
      Gives-bind (SvgOf chart) (or_panic (λ d. d) (draw floats divide eight_tenths chart)) _ (λ d e.
          or_panic-Gives (SvgOf chart) _ (imaging.svg d chart.width chart.height)
            (λ text shown. (d, text, draw-fill chart d (or_panic-eq-ok _ d e), shown, refl))),
    )
