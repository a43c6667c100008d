-- ===== src/Cell/Names.antt =====
-- The names of cells are distinct over a session.
use mathlib.Core.List.{Nodup, Nodup-cons, Nodup-nil}
use nu_jupyter_kernel.Prelude.{
  ℕ, ◌+◌, ◌<◌, ◌≡◌, refl, ◌≢◌, ◌⊎◌, List, [], ◌∷◌, Bool, true, false, arith, length, All, All-imp,
  not_mem_of_All, split_unique, append_cancel_left,
}
use nu_jupyter_kernel.Prelude.Text.{lit, decimal, decimal-injective, IsDigit, decimal-IsDigit}
use nu_jupyter_kernel.Cell.{Cell, new, usize_mod, cell_name, next_name, success, attempt, names}

-- The printed name determines both counters.
pub cell_name-injective : (e r e' r' : ℕ) → cell_name e r ≡ cell_name e' r' → (e ≡ e') × (r ≡ r')
unfolding cell_name
cell_name-injective e r e' r' h =
    let (same, rest) =
      split_unique b']' (decimal e) (decimal e') (b'#' ∷ decimal r) (b'#' ∷ decimal r')
        (All-imp IsDigit (λ d. d ≢ b']') (decimal e) (λ d k. omega arith) (decimal-IsDigit e))
        (All-imp IsDigit (λ d. d ≢ b']') (decimal e') (λ d k. omega arith) (decimal-IsDigit e'))
        (append_cancel_left (lit "cell[") _ _ h) in
    (decimal-injective e e' same, decimal-injective r r' (cc))

-- The counters lie past those of an earlier name.
abbrev IsPast : ℕ → ℕ → Cell → Type 0
IsPast e r c = (e < c.execution_counter) ⊎ ((e ≡ c.execution_counter) × (r < c.retry_counter))

-- The counters stay below the word size over so many attempts.
abbrev HasRoom : Cell → ℕ → Type 0
HasRoom c n =
    (c.execution_counter + n < usize_mod) × (c.retry_counter + n < usize_mod) × (1 + n < usize_mod)

after : Cell → Bool → Cell
after c ran = (attempt c ran).1

attempt-HasRoom : (c : Cell) (ran : Bool) (n : ℕ) → HasRoom c (n + 1) → HasRoom (after c ran) n
unfolding after attempt next_name success
attempt-HasRoom c true n h = omega arith
attempt-HasRoom c false n h = omega arith

attempt-IsPast :
    (e r n : ℕ) (c : Cell) (ran : Bool)
    → HasRoom c (n + 1)
    → IsPast e r c
    → IsPast e r (after c ran)
unfolding after attempt next_name success
attempt-IsPast e r n c true h p = ground arith
attempt-IsPast e r n c false h p = ground arith

attempt-IsPast_self :
    (c : Cell) (ran : Bool) (n : ℕ)
    → HasRoom c (n + 1)
    → IsPast c.execution_counter c.retry_counter (after c ran)
unfolding after attempt next_name success
attempt-IsPast_self c true n h = ground arith
attempt-IsPast_self c false n h = ground arith

names-cons :
    (c : Cell) (ran : Bool) (rest : List Bool)
    → names c (ran ∷ rest)
      ≡ cell_name c.execution_counter c.retry_counter ∷ names (after c ran) rest
unfolding names after attempt next_name
names-cons c true rest = refl
names-cons c false rest = refl

names-nil : (c : Cell) → names c [] ≡ []
unfolding names
names-nil c = refl

names_past :
    (e r : ℕ) (c : Cell) (history : List Bool)
    → HasRoom c (length history)
    → IsPast e r c
    → All (λ n. n ≢ cell_name e r) (names c history)
names_past e r c [] h p = rw (names-nil c) tt
names_past e r c (ran ∷ rest) h p =
    let step =
      names_past e r (after c ran) rest (attempt-HasRoom c ran (length rest) (omega arith))
        (attempt-IsPast e r (length rest) c ran (omega arith) p) in
    rw (names-cons c ran rest) (
      (λ same.
          let (a, b) = cell_name-injective c.execution_counter c.retry_counter e r same in
          ground arith),
      step,
    )

names-Nodup_from :
    (c : Cell) (history : List Bool) → HasRoom c (length history) → Nodup (names c history)
names-Nodup_from c [] h = rw (names-nil c) Nodup-nil
names-Nodup_from c (ran ∷ rest) h =
    let room = attempt-HasRoom c ran (length rest) (omega arith) in
    rw (names-cons c ran rest) (
      Nodup-cons.1 (
        not_mem_of_All _ _ (
            names_past c.execution_counter c.retry_counter (after c ran) rest room
              (attempt-IsPast_self c ran (length rest) (omega arith))),
        names-Nodup_from (after c ran) rest room,
      ))

-- Over a session of fewer than 2 ^ 64 - 1 execute requests, whichever of them ran, no two got the
-- same cell name.
pub names-Nodup : (history : List Bool) → 1 + length history < usize_mod → Nodup (names new history)
unfolding new
names-Nodup history h = names-Nodup_from new history (omega arith)
