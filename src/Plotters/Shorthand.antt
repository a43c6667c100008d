-- ===== src/Plotters/Shorthand.antt =====
-- The shorthand for the four sides, against that of CSS, which the chart's fields name.
use mathlib.Core.Path.{subst}
use nu_jupyter_kernel.Prelude.{ℕ, ◌≡◌, refl, ◌↔◌, List, [], ◌∷◌, Option, none, some}
use nu_jupyter_kernel.Plotters.{Sides}
use nu_jupyter_kernel.Plotters.Chart.{side_shorthand}

-- The shorthand of CSS for one to four values: a side that is left out is that of the side opposite
-- to it, and the right one where there is none that of the top.
unfoldable pub css : List ℕ → Option Sides
css [] = none
css (a ∷ []) = some (record { top = a; right = a; bottom = a; left = a })
css (a ∷ b ∷ []) = some (record { top = a; right = b; bottom = a; left = b })
css (a ∷ b ∷ c ∷ []) = some (record { top = a; right = b; bottom = c; left = b })
css (a ∷ b ∷ c ∷ d ∷ []) = some (record { top = a; right = b; bottom = c; left = d })
css (a ∷ b ∷ c ∷ d ∷ e ∷ rest) = none

-- The lists on which the shorthand is not that of CSS: three values of which the last two differ, and
-- more than four.
abbrev pub IsCss : List ℕ → Type 0
IsCss (a ∷ b ∷ c ∷ []) = b ≡ c
IsCss (a ∷ b ∷ c ∷ d ∷ e ∷ rest) = ⊥
IsCss values = Unit {0}

-- Equal sides have equal bottoms.
third_side : {x y : Sides} → some x ≡ some y → x.bottom ≡ y.bottom
third_side e = cc e

-- The sides are those of CSS exactly for up to two values, for three whose last two agree, and for
-- four: of three the second is the bottom one too, and from the fifth on values are ignored.
pub side_shorthand-css_iff : (values : List ℕ) → (side_shorthand values ≡ css values) ↔ IsCss values
unfolding side_shorthand css
side_shorthand-css_iff [] = (λ e. tt, λ h. refl)
side_shorthand-css_iff (a ∷ []) = (λ e. tt, λ h. refl)
side_shorthand-css_iff (a ∷ b ∷ []) = (λ e. tt, λ h. refl)
side_shorthand-css_iff (a ∷ b ∷ c ∷ []) = (
  λ e. third_side e,
  λ h. subst (λ c. side_shorthand (a ∷ b ∷ c ∷ []) ≡ css (a ∷ b ∷ c ∷ [])) h refl,
)
side_shorthand-css_iff (a ∷ b ∷ c ∷ d ∷ []) = (λ e. tt, λ h. refl)
side_shorthand-css_iff (a ∷ b ∷ c ∷ d ∷ e ∷ rest) = (λ same. cc, λ h. absurd h)
