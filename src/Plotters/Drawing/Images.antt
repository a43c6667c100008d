-- ===== src/Plotters/Drawing/Images.antt =====
-- commands/draw/png.rs, commands/draw/terminal.rs, commands/draw/svg.rs: a drawing as an image.
pub mod Sizes
pub mod Failing
pub mod Backgrounds
use nu_jupyter_kernel.Prelude.{
  ℕ, zero, suc, ◌*◌, ◌%◌, ◌^◌, List, [], ◌∷◌, Option, none, some, Bool, true, false,
}
use nu_jupyter_kernel.Prelude.Text.{Text, Bytes, lit}
use nu_jupyter_kernel.Prelude.Flow
use nu_jupyter_kernel.Prelude.Flow.{Flow, ok, err, panics, ◌>>=◌, or_panic}
use nu_jupyter_kernel.Nu
use nu_jupyter_kernel.Nu.{Result}
use nu_jupyter_kernel.Plotters.{Color, Chart2d}
use nu_jupyter_kernel.Plotters.Ranges.{Floats}
use nu_jupyter_kernel.Plotters.Drawing.{Drawing, draw}
use nu_jupyter_kernel.Plotters.Arguments.{Ty, Signature}

-- The crates: values, the bitmap and the SVG backend, images and the terminal.
pub record Imaging (F : Type 0) : Type 1 where
  pub Value : Type 0
  pub ShellError : Type 0
  pub chart : Value → Result ShellError (Chart2d F)
  pub white : Color F
  -- whether `BitMapBackend::with_buffer` takes a buffer of a length for a width and a height
  pub accepts : ℕ → ℕ → ℕ → Bool
  -- the drawing on a bitmap of a size and on an SVG; `none` where a call of `draw` to the plotters
  -- crate returns an error, which `draw` unwraps
  pub paint : Drawing F → ℕ → ℕ → Bytes → Option Bytes
  pub svg : Drawing F → ℕ → ℕ → Option Text
  -- `ImageBuffer::from_raw` at a width and a height, and `DynamicImage::ImageRgb8`
  pub Image : Type 0
  pub from_raw : ℕ → ℕ → Bytes → Option Image
  pub png : Image → Option Bytes
  pub png_type : Text
  pub svg_type : Text
  -- `viuer` and `icy_sixel`
  pub shows_images : Bool
  pub print : Image → Option (Unit {0})
  pub sixel : Bytes → ℕ → ℕ → Option Text

-- What a command returns, with its content type, and what it shows on the terminal.
pub data Output (Image : Type 0) : Type 0 where
  binary : Bytes → (content_type : Text) → Output Image
  string : Text → (content_type : Text) → Output Image
  shown_image : Image → Output Image
  shown_text : Text → Output Image

abbrev bytes_per_pixel : ℕ
bytes_per_pixel = 3

abbrev pub u32_mod : ℕ
u32_mod = 2 ^ 32

-- `chart.height * chart.width * BYTES_PER_PIXEL`, in `u32`, which wraps.
unfoldable pub buffer_length : ℕ → ℕ → ℕ
buffer_length width height = (height * width % u32_mod) * bytes_per_pixel % u32_mod

-- `vec![0; n]`
pub zeros : ℕ → Bytes
zeros zero = []
zeros (suc n) = 0 ∷ zeros n

module _ (floats : Floats) (divide : floats.F → floats.F → floats.F) (eight_tenths : floats.F)
    (imaging : Imaging floats.F) where
  open floats use {F}
  open imaging use {Value, ShellError, Image, white}

  in_flow : {A : Type 0} → Result ShellError A → Flow ShellError A
  in_flow (Nu.err e) = err e
  in_flow (Nu.ok a) = ok a

  pub with_background : Chart2d F → Option (Color F) → Chart2d F
  with_background chart none = record chart { background = some white }
  with_background chart (some color) = chart

  unless_rejected : Bool → Flow ShellError (Unit {0})
  unless_rejected false = panics
  unless_rejected true = ok tt

  -- The buffer that the chart is drawn on, with its size.
  unfoldable pub bitmap : Chart2d F → Flow ShellError Bytes
  unfolding buffer_length zeros with_background unless_rejected
  bitmap chart =
      let bytes = buffer_length chart.width chart.height in
      unless_rejected (imaging.accepts bytes chart.width chart.height) >>= λ u.
      or_panic (λ d. d) (draw floats divide eight_tenths (with_background chart chart.background))
      >>= λ d. or_panic (λ buf. buf) (imaging.paint d chart.width chart.height (zeros bytes))

  -- `DrawPng::run`
  unfoldable pub run_png : Value → Flow ShellError (Output Image)
  unfolding in_flow bitmap
  run_png input = in_flow (imaging.chart input) >>= λ chart. bitmap chart >>= λ buf.
      or_panic (λ img. img) (imaging.from_raw chart.width chart.height buf) >>= λ img.
      or_panic (λ png_buf. binary png_buf imaging.png_type) (imaging.png img)

  show : Bool → ℕ → ℕ → Bytes → Flow ShellError (Output Image)
  show true width height buf = or_panic (λ img. img) (imaging.from_raw width height buf) >>= λ img.
      or_panic (λ u. shown_image img) (imaging.print img)
  show false width height buf = or_panic shown_text (imaging.sixel buf width height)

  -- `DrawTerminal::run`
  unfoldable pub run_terminal : Value → Flow ShellError (Output Image)
  unfolding in_flow bitmap show
  run_terminal input = in_flow (imaging.chart input) >>= λ chart.
      bitmap chart >>= λ buf. show imaging.shows_images chart.width chart.height buf

  -- `DrawSvg::run`
  unfoldable pub run_svg : Value → Flow ShellError (Output Image)
  unfolding in_flow
  run_svg input = in_flow (imaging.chart input) >>= λ chart.
      or_panic (λ d. d) (draw floats divide eight_tenths chart) >>= λ d.
      or_panic (λ text. string text imaging.svg_type) (imaging.svg d chart.width chart.height)
