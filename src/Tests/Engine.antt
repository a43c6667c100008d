-- ===== src/Tests/Engine.antt =====
-- The set-up of the engine, at concrete declarations, blocks and variables.
use nu_jupyter_kernel.Prelude.{ℕ, ◌≡◌, ◌≢◌, ◌↔◌, ◌⊎◌, List, [], ◌∷◌, ◌++◌, Option, none, some, All}
use nu_jupyter_kernel.Prelude.Text.{Bytes, Text, lit}
use nu_jupyter_kernel.Nu.{ok, err, FormatDeclIds}
use nu_jupyter_kernel.Nu.FormatDecls.{find}
use nu_jupyter_kernel.Nu.FormatDecls.Last.{last_of, fields, absent, wanted, find-last}
use nu_jupyter_kernel.Nu.Blocks.{Ast, find_inner_block, find_decl}
use nu_jupyter_kernel.Nu.Blocks.First.{First, flatten, IsModule, IsDecl, find_iff}
use nu_jupyter_kernel.Nu.Environment.{lines}
use nu_jupyter_kernel.Nu.Environment.Spans.{HoldsAll, lines-HoldsAll}

-- `to csv` is declared twice, and `draw svg` not at all.
abbrev declared : List (Bytes × ℕ)
declared =
    (lit "table", 1)
    ∷ (lit "to csv", 2)
    ∷ (0xff ∷ [], 3)
    ∷ (lit "to html", 4)
    ∷ (lit "to csv", 5)
    ∷ (lit "to json", 6)
    ∷ (lit "to md", 7)
    ∷ (lit "to text", 8)
    ∷ []

find-last_example :
    ((ids : FormatDeclIds ℕ) × (find declared ≡ ok ids)
      × All (λ f. last_of declared (f.0) ≡ some (f.1)) (fields ids))
    ⊎ ((find declared ≡ err (absent declared wanted)) × (absent declared wanted ≢ []))
find-last_example = find-last declared

-- Words, blocks, and commands with an optional block, with or without an attribute.
pub data Tree : Type 0 where
  word : Text → Tree
  braces : ℕ → Tree
  command attributed : Text → Option ℕ → Tree

abbrev arguments : Text → Option ℕ → List (Option Tree)
arguments name none = some (word name) ∷ none ∷ []
arguments name (some id) = some (word name) ∷ some (braces id) ∷ []

abbrev call : Tree → Option (ℕ × List (Option Tree))
call (word t) = none
call (braces id) = none
call (command name body) = some (9, arguments name body)
call (attributed name body) = none

abbrev string : Tree → Option Text
string (word t) = some t
string (braces id) = none
string (command name body) = none
string (attributed name body) = none

abbrev block : Tree → Option ℕ
block (word t) = none
block (braces id) = some id
block (command name body) = none
block (attributed name body) = none

abbrev item : Tree → Option Tree
item (word t) = none
item (braces id) = none
item (command name body) = none
item (attributed name body) = some (command name body)

abbrev pub trees : Ast
trees = record {
  Expression = Tree;
  BlockId = ℕ;
  DeclId = ℕ;
  Span = Tree;
  call = call;
  string = string;
  block = block;
  attribute_item = item;
  span = λ t. t;
}

abbrev source : List (List Tree)
source =
    (command (lit "other") (some 1) ∷ attributed (lit "text") none ∷ [])
    ∷ []
    ∷ (command (lit "render") (some 2) ∷ [])
    ∷ []

find_iff_example :
    ((id : ℕ)
      → (find_inner_block trees source (lit "render") ≡ some id)
        ↔ First (IsModule trees (lit "render")) (flatten source) id)
    × ((found : ℕ × Tree)
        → (find_decl trees source (lit "render") ≡ some found)
          ↔ First (IsDecl trees (lit "render")) (flatten source) found)
find_iff_example = find_iff trees source (lit "render")

abbrev quoted : Text → Text
quoted t = b'"' ∷ t ++ b'"' ∷ []

abbrev variables : List (Text × Text)
variables = (lit "HOME", lit "/root") ∷ (lit "LANG", lit "C") ∷ []

lines-HoldsAll_example :
    HoldsAll quoted (lines quoted variables).toml (lines quoted variables).values
lines-HoldsAll_example = lines-HoldsAll quoted variables
