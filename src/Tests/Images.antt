-- ===== src/Tests/Images.antt =====
-- Drawn images: a bitmap that painting leaves as it is, and an encoder that refuses empty images.
use nu_jupyter_kernel.Prelude.{
  ℕ, ◌*◌, ◌-◌, ◌<◌, ◌≤◌, ◌≡◌, ◌↔◌, refl, sym, ap, [], ◌∷◌, Option, none, some, true, leb, length,
  arith, if◌then◌else◌,
}
use nu_jupyter_kernel.Prelude.Text.{Text, Bytes, lit}
use nu_jupyter_kernel.Prelude.Flow.{panics, Gives}
use nu_jupyter_kernel.Nu
use nu_jupyter_kernel.Plotters.{Chart2d, default}
use nu_jupyter_kernel.Plotters.Drawing.Images.{Imaging, u32_mod, run_png, run_svg}
use nu_jupyter_kernel.Plotters.Drawing.Images.Backgrounds.{PngOf, SvgOf, run_png-run_svg}
use nu_jupyter_kernel.Plotters.Drawing.Images.Failing.{Bitmaps, Fails, run_png-panics_iff}
use nu_jupyter_kernel.Tests.Plots.{halves, bars}

unfoldable large_enough : ℕ → ℕ → Bytes → Option Bytes
large_enough width height buf = if leb (height * width * 3) (length buf) then some buf else none

-- The encoder refuses an image without pixels.
abbrev encode : Bytes → Option Bytes
encode [] = none
encode (b ∷ img) = some (b ∷ img)

abbrev imaging : Imaging ℕ
imaging = record {
  Value = Chart2d ℕ;
  ShellError = Text;
  chart = λ c. Nu.ok c;
  white = record { r = 255; g = 255; b = 255; a = 2 };
  accepts = λ n width height. leb (height * width * 3) n;
  paint = λ d width height buf. some buf;
  svg = λ d width height. some (lit "<svg/>");
  Image = Bytes;
  from_raw = large_enough;
  png = encode;
  png_type = lit "image/png";
  svg_type = lit "image/svg+xml";
  shows_images = true;
  print = λ img. some tt;
  sixel = λ buf width height. none;
}

bitmaps : Bitmaps halves ◌-◌ 2 imaging
unfolding large_enough
bitmaps = record {
  takes = λ n width height h. ground arith;
  keeps = λ d width height buf buf' e. ap length (cc (sym e));
  makes = λ width height buf. ground arith;
}

abbrev small : Chart2d ℕ
small = record default { series = bars ∷ []; width = 2; height = 2 }

run_png-panics_iff_example :
    (12 < u32_mod
      → (run_png halves ◌-◌ 2 imaging small ≡ panics) ↔ Fails halves ◌-◌ 2 imaging small)
    × (u32_mod ≤ 12 → run_png halves ◌-◌ 2 imaging small ≡ panics)
run_png-panics_iff_example = run_png-panics_iff halves ◌-◌ 2 imaging bitmaps small small refl

run_png-run_svg_example :
    Gives (PngOf halves ◌-◌ 2 imaging small) (run_png halves ◌-◌ 2 imaging small)
    × Gives (SvgOf halves ◌-◌ 2 imaging small) (run_svg halves ◌-◌ 2 imaging small)
run_png-run_svg_example = run_png-run_svg halves ◌-◌ 2 imaging small small refl
