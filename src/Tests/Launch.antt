-- ===== src/Tests/Launch.antt =====
-- The kernel as it starts on a connection file, and the cells of a session on it.
use nu_jupyter_kernel.Prelude.{ℕ, zero, suc, ◌≡◌, ◌↔◌, refl, List, [], ◌∷◌, ◌++◌, none, some, true}
use nu_jupyter_kernel.Prelude.Text.{Text, Bytes, lit, text_eq, decimal, from_utf8, is_utf8}
use nu_jupyter_kernel.Messages.{key_init}
use nu_jupyter_kernel.Cell
use nu_jupyter_kernel.Tasks.Streams
use nu_jupyter_kernel.Nu.Blocks.{create_nuju_module}
use nu_jupyter_kernel.Nu.Execute.{execute, modify_last}
use nu_jupyter_kernel.Nu.FormatDecls.{find}
use nu_jupyter_kernel.Shell.Loop.{running, handle}
use nu_jupyter_kernel.Shell.Rounds.{BreaksOff}
use nu_jupyter_kernel.Startup.Connection.{transport_text, ip_text}
use nu_jupyter_kernel.Startup.Sockets
use nu_jupyter_kernel.Startup.Sockets.{endpoint}
use nu_jupyter_kernel.Startup.Launch.{
  Setup, Started, initial_globals, process, start_kernel, with_nuju_module,
  hide_incompatible_commands, register_konst, add_jupyter_command_context,
}
use nu_jupyter_kernel.Startup.Launch.Serving.{start_kernel-handle}
use nu_jupyter_kernel.Tests.Kernel.{engine, env, decls, report, json, host, json-Writes}
use nu_jupyter_kernel.Tests.Engine.{Tree, command, attributed, trees}
use nu_jupyter_kernel.Tests.Startup.{network, file}
use nu_jupyter_kernel.Tests.Tasks.{session}

-- The declarations in the order of their ids.
abbrev sorted : List (Bytes × ℕ)
sorted =
    (lit "to text", 0)
    ∷ (lit "to csv", 1)
    ∷ (lit "to json", 2)
    ∷ (lit "to html", 3)
    ∷ (lit "to md", 4)
    ∷ (lit "table", 5)
    ∷ (lit "draw svg", 6)
    ∷ []

abbrev render_block : List (List Tree)
render_block =
    (attributed (lit "text") none ∷ [])
    ∷ (attributed (lit "csv") none ∷ [])
    ∷ (attributed (lit "json") none ∷ [])
    ∷ (attributed (lit "html") none ∷ [])
    ∷ (attributed (lit "md") none ∷ [])
    ∷ (attributed (lit "svg") none ∷ [])
    ∷ []

abbrev get_block : ℕ → List (List Tree)
get_block zero = (command (lit "render") (some 1) ∷ []) ∷ []
get_block (suc zero) = render_block
get_block (suc (suc n)) = []

abbrev setup : Setup engine
setup = record {
  from_path = λ path. some file;
  decls_sorted = λ e. sorted;
  ast = trees;
  outer_block = λ e. (command (lit "nuju") (some 0) ∷ []) ∷ [];
  get_block = λ e. get_block;
  module_delta = λ e. 10;
  konst_delta = λ e. 20;
  jupyter_delta = λ e. 30;
  set_signals = λ e. e;
  new_stack = none;
  redirect_output = λ stack. stack;
  streams_start = true;
}

abbrev address_of : Text → Text
address_of port = lit "tcp://127.0.0.1:" ++ port

-- The engine after the deltas of the module, the hidden commands, `$nuju` and the kernel's commands.
abbrev launched : Started engine network
launched = record {
  file = file;
  sockets = record {
    shell = address_of (lit "57503");
    iopub = address_of (lit "40885");
    stdin = address_of (lit "52597");
    control = address_of (lit "50160");
    heartbeat = address_of (lit "42540");
  };
  net =
      address_of (lit "42540")
      ∷ address_of (lit "50160")
      ∷ address_of (lit "52597")
      ∷ address_of (lit "40885")
      ∷ address_of (lit "57503")
      ∷ [];
  decls = decls;
  context = record {
    engine_state = 61;
    stack = none;
    cell = Cell.new;
    stdout_reply = ([], none);
    stderr_reply = ([], none);
  };
  globals = record { session = none; message_counter = 0; key = some (lit "key") };
}

launches : start_kernel engine setup network (lit "file") 0 [] ≡ some launched
unfolding start_kernel with_nuju_module hide_incompatible_commands register_konst create_nuju_module
    find key_init initial_globals execute text_eq Sockets.start endpoint ip_text transport_text
    decimal from_utf8 is_utf8 modify_last add_jupyter_command_context Streams.start
launches = refl

start_kernel-handle_example :
    (some (lit "key") ≡ some (lit "key"))
    × ((handle env report session launched.context (process launched.globals) ≡ none)
        ↔ BreaksOff env report launched.context session
            (running launched.context)
            (process launched.globals))
start_kernel-handle_example =
    start_kernel-handle engine setup network json host report (lit "file") 0 [] launched session
      launches json-Writes
