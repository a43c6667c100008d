-- ===== src/Startup/Launch.antt =====
-- main.rs, `start_kernel` up to the start of the tasks, with the set-up of the engine in
-- nu/commands/mod.rs, nu/konst.rs and nu/module.rs.
pub mod Serving
use nu_jupyter_kernel.Prelude.{List, [], ◌∷◌, ◌++◌, Option, none, some, Bool, true, false}
use nu_jupyter_kernel.Prelude.Text.{Text, Bytes, lit}
use nu_jupyter_kernel.Prelude.Maybe.{◌>>=◌}
use nu_jupyter_kernel.Cell
use nu_jupyter_kernel.Messages.{Globals, key_init}
use nu_jupyter_kernel.Nu.{
  Nu, Result, ok, err, FormatDeclIds, Process, disabled, Script, done, external, display, print,
}
use nu_jupyter_kernel.Nu.Blocks.{Ast, create_nuju_module}
use nu_jupyter_kernel.Nu.Execute.{Prepared, failed, evaluate, execute}
use nu_jupyter_kernel.Nu.FormatDecls.{find}
use nu_jupyter_kernel.Shell.{HandlerContext}
use nu_jupyter_kernel.Startup.Connection.{ConnectionFile}
use nu_jupyter_kernel.Startup.Sockets.{Zmq}
use nu_jupyter_kernel.Startup.Sockets
use nu_jupyter_kernel.Tasks.Streams

-- What the libraries give: the connection file, the declarations and the deltas of working sets.
pub record Setup (nu : Nu) : Type 1 where
  pub from_path : Text → Option ConnectionFile
  -- `get_decls_sorted`
  pub decls_sorted : nu.EngineState → List (Bytes × nu.DeclId)
  -- `parse_module_block` of the kernel's module: its block, the blocks in it, and the delta
  pub ast : Ast
  pub outer_block : nu.EngineState → List (List ast.Expression)
  pub get_block : nu.EngineState → ast.BlockId → List (List ast.Expression)
  pub module_delta : nu.EngineState → nu.Delta
  -- `add_variable` of `$nuju`, and `add_decl` of the kernel's four commands
  pub konst_delta : nu.EngineState → nu.Delta
  pub jupyter_delta : nu.EngineState → nu.Delta
  pub set_signals : nu.EngineState → nu.EngineState
  pub new_stack : nu.Stack
  -- `stdout_file` and `stderr_file`
  pub redirect_output : nu.Stack → nu.Stack
  -- whether both pipes and their threads can be made
  pub streams_start : Bool

-- What the tasks are started with.
pub record Started (nu : Nu) (zmq : Zmq) : Type 0 where
  pub file : ConnectionFile
  pub sockets : Sockets.Sockets zmq.Socket
  pub net : zmq.Net
  pub decls : FormatDeclIds nu.DeclId
  pub context : HandlerContext nu
  pub globals : Globals

-- The statics of the process at its start.
unfoldable pub initial_globals : Globals
initial_globals = record { session = none; message_counter = 0; key = none }

unfoldable pub process : {J : Type 0} → Globals → Process J
process globals = record { globals = globals; render_filter = none; external = disabled; sent = [] }

-- `COMMANDS_TOML.incompatible_commands`
abbrev pub incompatible_commands : List Text
incompatible_commands = lit "input" ∷ lit "exit" ∷ lit "run-external" ∷ []

-- The line `hide` for each command.
hide_code : List Text → Text
hide_code [] = []
hide_code (command ∷ commands) = lit "hide " ++ command ++ 10 ∷ hide_code commands

unwrap : {E A : Type 0} → Result E A → Option A
unwrap (err e) = none
unwrap (ok a) = some a

unless_failed : Bool → Option (Unit {0})
unless_failed false = none
unless_failed true = some tt

module _ (nu : Nu) (setup : Setup nu) where
  -- `merge_delta(..).unwrap()`
  merged : nu.EngineState × Option nu.ShellError → Option nu.EngineState
  merged (engine, none) = some engine
  merged (engine, some e) = none

  -- The kernel's own commands are not there yet, so that no evaluation calls them.
  finished : nu.EngineState → Script nu.Stack nu.ShellError nu.Value → Option nu.EngineState
  finished engine (done stack (ok output)) = some engine
  finished engine (done stack (err e)) = none
  finished engine (external rest) = none
  finished engine (display format rest) = none
  finished engine (print stack input arg format rest) = none

  hidden : Option (nu.EngineState × Prepared nu) → Option nu.EngineState
  unfolding finished
  hidden none = none
  hidden (some (engine, failed e)) = none
  hidden (some (engine, evaluate script)) = finished engine script

  -- `hide_incompatible_commands(..).unwrap()`
  unfoldable pub hide_incompatible_commands : nu.EngineState → Option nu.EngineState
  unfolding hide_code hidden execute
  hide_incompatible_commands engine = hidden (
      execute nu (hide_code incompatible_commands) engine setup.new_stack
        (lit "hide-initial-commands"))

  -- `create_nuju_module` with its merge
  unfoldable pub with_nuju_module : nu.EngineState → Option nu.EngineState
  unfolding merged
  with_nuju_module engine =
      create_nuju_module setup.ast (setup.get_block engine) (setup.outer_block engine) >>= λ spans.
      merged (nu.merge_delta engine (setup.module_delta engine))

  -- `Konst::register(..).unwrap()`
  unfoldable pub register_konst : nu.EngineState → Option nu.EngineState
  unfolding merged
  register_konst engine = merged (nu.merge_delta engine (setup.konst_delta engine))

  -- `add_jupyter_command_context`, which only prints an error of its merge
  unfoldable pub add_jupyter_command_context : nu.EngineState → nu.EngineState
  add_jupyter_command_context engine = (nu.merge_delta engine (setup.jupyter_delta engine)).0

  context_of : nu.EngineState → HandlerContext nu
  context_of engine = record {
    engine_state = add_jupyter_command_context (setup.set_signals engine);
    stack = setup.redirect_output setup.new_stack;
    cell = Cell.new;
    stdout_reply = (Streams.start).message_data;
    stderr_reply = (Streams.start).message_data;
  }

  module _ (zmq : Zmq) where
    -- `start_kernel` from the initial state of the engine; `none` is a panic.
    unfoldable pub start_kernel : Text → nu.EngineState → zmq.Net → Option (Started nu zmq)
    unfolding unwrap unless_failed context_of
    start_kernel path initial net = setup.from_path path >>= λ file.
        unwrap (Sockets.start zmq file net) >>= λ bound.
        key_init file.key initial_globals >>= λ globals.
        unwrap (find (setup.decls_sorted initial)) >>= λ decls.
        with_nuju_module initial >>= λ engine. hide_incompatible_commands engine >>= λ engine'.
        register_konst engine' >>= λ engine''. unless_failed setup.streams_start >>= λ u.
        some (record {
          file = file;
          sockets = bound.0;
          net = bound.1;
          decls = decls;
          context = context_of engine'';
          globals = globals;
        })
