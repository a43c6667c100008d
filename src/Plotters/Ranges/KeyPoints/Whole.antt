-- ===== src/Plotters/Ranges/KeyPoints/Whole.antt =====
-- The key points of a range of discrete points are the whole numbers in it, in order.
use mathlib.Core.Path.{subst}
use native.Mathlib.Omega.{arith}
use nu_jupyter_kernel.Prelude.{
  ℕ, zero, suc, ◌+◌, ◌-◌, ◌%◌, ◌<◌, ◌≤◌, ◌≡◌, ◌↔◌, refl, ap, List, [], ◌∷◌, Option, none, some,
  true, map,
}
use nu_jupyter_kernel.Plotters.{int, Range}
use nu_jupyter_kernel.Plotters.Ranges.KeyPoints.{
  Axes, i64_mod, place, count_up, inclusive, floor, ceil, key_points, with_metadata,
}

abbrev pub nth : {A : Type 0} → ℕ → List A → Option A
nth i [] = none
nth zero (a ∷ as_list) = some a
nth (suc i) (a ∷ as_list) = nth i as_list

place-suc :
    (bits : ℕ)
    → bits < i64_mod
    → place bits + 1 < i64_mod
    → place ((bits + 1) % i64_mod) ≡ place bits + 1
place-suc bits h k = omega arith

place-injective : (a b : ℕ) → a < i64_mod → b < i64_mod → place a ≡ place b → a ≡ b
place-injective a b h k e = omega arith

nth-count_up :
    (i n bits c : ℕ)
    → bits < i64_mod
    → place bits + n ≤ i64_mod
    → (nth i (count_up bits n) ≡ some c) ↔ ((c < i64_mod) × (place c ≡ place bits + i) × (i < n))
unfolding count_up
nth-count_up i zero bits c hb room = (λ e. cc, λ h. absurd (omega (arith, h.2)))
nth-count_up zero (suc n) bits c hb room = (
  λ e.
      let same : bits ≡ c = cc e in
      subst (λ x. (x < i64_mod) × (place x ≡ place bits + 0) × (0 < suc n)) same
        (hb, omega arith, omega arith),
  λ h. ap some (place-injective bits c hb h.0 (omega (arith, h.1))),
)
nth-count_up (suc i) (suc zero) bits c hb room = (λ e. cc, λ h. absurd (omega (arith, h.2)))
nth-count_up (suc i) (suc (suc n)) bits c hb room =
    let next = place-suc bits hb (omega arith) in
    let (to, from) = nth-count_up i (suc n) ((bits + 1) % i64_mod) c (omega arith) (omega arith) in
    (
      λ e. let (small, at, below) = to e in (small, omega arith, omega arith),
      λ h. from (h.0, omega (arith, h.1), omega (arith, h.2)),
    )

module _ (axes : Axes) where
  open axes use {F, Hint}

  -- The key points of a range with discrete key points are integers, of which the `i`-th is `c`
  -- exactly if `c` is an `i64`, lies `i` above the lower bound, rounded up, and does not lie above the
  -- upper bound, rounded down: they are all the whole numbers of the range, in their order and each
  -- once, and none for a range whose bounds are swapped, whatever the hint asks for.
  pub key_points-discrete :
      (r : Range F) (hint : Hint)
      → r.metadata ≡ some true
      → ceil axes r.min < i64_mod
      → floor axes r.max < i64_mod
      → (points : List ℕ) × (key_points axes r hint ≡ some (map int points))
        × ((i c : ℕ)
            → (nth i points ≡ some c) ↔ (
                (c < i64_mod)
                × (place c ≡ place (ceil axes r.min) + i)
                × (place c ≤ place (floor axes r.max))))
  unfolding key_points with_metadata inclusive
  key_points-discrete r hint discrete lower upper = (
    inclusive (ceil axes r.min) (floor axes r.max),
    rw discrete refl,
    λ i c.
        let (to, from) =
          nth-count_up i (place (floor axes r.max) + 1 - place (ceil axes r.min)) (ceil axes r.min)
            c lower (omega arith) in
        (
          λ e. let (small, at, below) = to e in (small, at, omega arith),
          λ h. from (h.0, h.1, omega (arith, h.1, h.2)),
        ),
  )
