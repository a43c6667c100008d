-- ===== src/Plotters/Extending.antt =====
-- `chart 2d` on a chart that is already there.
use nu_jupyter_kernel.Prelude.{◌≡◌, refl, List, ◌++◌, some, true}
use nu_jupyter_kernel.Plotters.{Series2d, Chart2d}
use nu_jupyter_kernel.Plotters.Chart.{run, no_options, sides_or, merge}

-- Without options a chart is extended by the series alone, except that both meshes are drawn again,
-- also where the chart had them disabled.
pub run-no_options :
    {F : Type 0} (input : List (Series2d F)) (chart : Chart2d F)
    → run input (some chart) no_options
      ≡ some (record chart { series = chart.series ++ input; x_mesh = true; y_mesh = true })
unfolding run no_options sides_or merge
run-no_options input chart = refl
