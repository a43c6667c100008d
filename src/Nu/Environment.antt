-- ===== src/Nu/Environment.antt =====
-- nu/mod.rs, `add_env_context`: the variables of the host as a file of the engine, with a span of
-- that file for each value. A span is a pair of byte offsets.
pub mod Spans
use nu_jupyter_kernel.Prelude.{ℕ, ◌+◌, List, [], ◌∷◌, ◌++◌, Option, none, some, length}
use nu_jupyter_kernel.Prelude.Text.{Text, lit}
use nu_jupyter_kernel.Prelude.Table.{insert}

pub record Span : Type 0 where
  pub start : ℕ
  pub end : ℕ

pub record Entry : Type 0 where
  pub key : Text
  pub value : Text
  pub span : Span

pub record Lines : Type 0 where
  pub toml : Text
  pub values : List Entry
  pub line_offset : ℕ

-- The map of the variables: those of `env::vars()`, and `PWD` where there is a current directory.
unfoldable pub insert_all : List (Text × Text) → List (Text × Text) → List (Text × Text)
insert_all [] env_map = env_map
insert_all ((key, value) ∷ vars) env_map = insert_all vars (insert key value env_map)

unfoldable pub with_pwd : Option Text → List (Text × Text) → List (Text × Text)
with_pwd none env_map = env_map
with_pwd (some dir) env_map = insert (lit "PWD") dir env_map

-- The engine as `add_env_context` uses it, and the `Debug` text of a string.
pub record Engine : Type 1 where
  pub EngineState : Type 0
  pub debug : Text → Text
  pub next_span_start : EngineState → ℕ
  pub add_file : EngineState → Text → Text → EngineState
  pub add_env_var : EngineState → Text → Text → Span → EngineState

module _ (debug : Text → Text) where
  unfoldable pub line : Text → Text → Text
  line key value = key ++ (lit " = " ++ debug value)

  -- One round of the loop over the map.
  unfoldable pub add_line : Text → Text → Lines → Lines
  unfolding line
  add_line key value s = record {
    toml = s.toml ++ (line key value ++ lit "\n");
    values =
        s.values
        ++ record {
          key = key;
          value = value;
          span = record {
            start = length key + 3 + s.line_offset;
            end = s.line_offset + length (line key value);
          };
        }
          ∷ [];
    line_offset = s.line_offset + (length (line key value) + 1);
  }

  unfoldable pub add_lines : List (Text × Text) → Lines → Lines
  unfolding add_line
  add_lines [] s = s
  add_lines ((key, value) ∷ env_map) s = add_lines env_map (add_line key value s)

  unfoldable pub lines : List (Text × Text) → Lines
  unfolding add_lines
  lines env_map = add_lines env_map (record { toml = []; values = []; line_offset = 0 })

-- The span of a value in the engine, whose files stand one after the other.
unfoldable pub shift : ℕ → Span → Span
shift offset span = record { start = span.start + offset; end = span.end + offset }

module _ (engine : Engine) where
  open engine use {EngineState}

  add_vars : ℕ → List Entry → EngineState → EngineState
  unfolding shift
  add_vars offset [] state = state
  add_vars offset (e ∷ entries) state =
      add_vars offset entries (engine.add_env_var state e.key e.value (shift offset e.span))

  -- `add_env_context`, with the variables in the order of the map.
  unfoldable pub add_env_context : List (Text × Text) → Option Text → EngineState → EngineState
  unfolding add_vars lines insert_all with_pwd
  add_env_context vars current_dir state =
      let written = lines engine.debug (with_pwd current_dir (insert_all vars [])) in
      add_vars (engine.next_span_start state) written.values
        (engine.add_file state (lit "Host Environment Variables") written.toml)
