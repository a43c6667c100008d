-- ===== src/Cell.antt =====
-- handlers/shell.rs, `Cell`: the execution counter of the notebook and the attempts at one cell.
-- A `usize` has 64 bits and wraps.
pub mod Names
use nu_jupyter_kernel.Prelude.{ℕ, ◌+◌, ◌%◌, ◌^◌, List, [], ◌∷◌, ◌++◌, Bool, true, false}
use nu_jupyter_kernel.Prelude.Text.{Text, lit, decimal}

abbrev pub usize_mod : ℕ
usize_mod = 2 ^ 64

pub record Cell : Type 0 where
  pub execution_counter : ℕ
  pub retry_counter : ℕ

unfoldable pub new : Cell
new = record { execution_counter = 1; retry_counter = 1 }

-- `format!("cell[{}]#{}", execution_counter, retry_counter)`
unfoldable pub cell_name : ℕ → ℕ → Text
cell_name e r = lit "cell[" ++ (decimal e ++ (lit "]#" ++ decimal r))

unfoldable pub next_name : Cell → Text × Cell
unfolding cell_name
next_name c = (
  cell_name c.execution_counter c.retry_counter,
  record c { retry_counter = (c.retry_counter + 1) % usize_mod },
)

unfoldable pub success : Cell → ℕ × Cell
success c = (
  c.execution_counter,
  record { execution_counter = (c.execution_counter + 1) % usize_mod; retry_counter = 1 },
)

unfoldable pub execution_count : Cell → ℕ
execution_count c = c.execution_counter

-- One `handle_execute_request` as the cell sees it: a name, and `success` if the code ran.
unfoldable pub attempt : Cell → Bool → Text × Cell
attempt c true = let (name, c') = next_name c in (name, (success c').1)
attempt c false = next_name c

-- The names that a history of attempts uses, oldest first.
unfoldable pub names : Cell → List Bool → List Text
names c [] = []
names c (ran ∷ rest) = let (name, c') = attempt c ran in name ∷ names c' rest
