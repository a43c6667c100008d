-- ===== src/Lib.antt =====
-- nu-jupyter-kernel: a Jupyter kernel for Nushell, and its plugin for plots.
--
-- The kernel reads multipart messages from the shell and control sockets, runs the code of execute
-- requests in a Nushell engine, and answers on the same socket and on the iopub queue.
--
-- - Cell: `Cell` of src/handlers/shell.rs, the execution and retry counters. Names of cells.
-- - Messages: src/jupyter/messages. Wire is `Message::recv`, Multipart is `into_multipart`, Shell,
--   Control, Iopub and KernelInfo are the contents, Content their sums and the JSON library.
-- - Nu: src/nu. The record `Nu` is the Nushell crates as the kernel calls them. External, Commands
--   are src/nu/commands, Render and FormatDecls are src/nu/render.rs, Execute and Environment are
--   `execute` and `add_env_context` of src/nu/mod.rs, EngineSetup is its `initial_engine_state`, Blocks is
--   src/nu/module.rs over the syntax trees of Nushell.
-- - Outbox: how a handler makes a message, signs it and sends it. State passing over `Process`, the
--   statics of the kernel and what it sent; a step that panics gives `none`. Outbox/Completes and
--   Outbox/Exact are the rules for steps that return, and for steps that panic under a condition.
-- - Shell: src/handlers/shell.rs, the handlers and, in Shell/Loop, the loop over events.
--   Shell/Progress is when a request is served to its end, from Shell/Ends, Nu/Execute/Ending and
--   Nu/Commands/Progress for its code; Shell/Rounds is the loop as a whole; Shell/Reports is `ReportExecuteError` of src/nu/mod.rs, the
--   report of an error that the handlers send.
-- - Tasks: the other tasks. Tasks/Control is src/handlers/control.rs, whose interrupt signal the shell
--   task resets: the steps of the tasks in any order are a relation on the kernel's state.
--   Tasks/Forward is src/handlers/mod.rs, the iopub and heartbeat tasks; Tasks/Streams is
--   src/handlers/stream.rs, the reader of a cell's output; Tasks/Shutdowns is the broadcast channel of
--   src/main.rs, an interface with the laws that tokio documents, and its client in the shell task.
-- - Startup: src/jupyter/connection_file.rs and `Sockets::start` of src/main.rs, and Registration,
--   src/jupyter/register_kernel.rs. Launch is `start_kernel` of src/main.rs up to the spawning of the
--   tasks, with `hide_incompatible_commands` and `add_jupyter_command_context` of
--   src/nu/commands/mod.rs and `Konst::register`; Launch/Serving joins it to the shell task. The binding
--   of sockets, the file system and the deltas of working sets are interfaces.
-- - Plotters: crates/nu_plugin_plotters/src, the values of charts, the options of `chart 2d` and
--   the ranges, over a type F of valid `f64` numbers: `Coord1d::from_float` admits no others, and
--   the half that a bar adds keeps a number valid. Series is commands/series, Reading and Colors are
--   value/color.rs, Drawing is commands/draw/mod.rs, and Drawing/Images the commands that draw a PNG,
--   an SVG and on the terminal. Arguments is how `chart 2d`, `series line` and `series bar` read their
--   arguments, inside Nushell and as commands of a plugin; Ranges/FromValue and Ranges/KeyPoints are
--   value/coords/range.rs; CustomValues is how series and charts travel as values.
-- - Tests: a small engine and codec, and the examples.
--
-- A text is the list of its bytes. A `HashMap` is an association list, a `Mime` its text. A `usize`
-- has 64 bits and wraps, as in a release build. No function needs fuel but `decimal`, which gives
-- itself one more than the number.
--
-- An evaluation of Nushell code is a tree of calls (`Script`): the engine is a parameter, its calls
-- of `nuju external`, `nuju display` and `nuju print` act on the kernel's statics and queue. Pipeline
-- data is nothing or a value; a stream counts as a value. The functions of the shell task are of one
-- task: what another one sends in between is not in their list of sent messages, and the relation of
-- Tasks/Control has such a message as a step of its own. What `select!` and the pipe yield is a list of
-- events. The sockets and the queue take every message.
--
-- Not modelled: the JSON of the connection file, the spawning of the tasks, the texts that miette
-- renders, the help of the commands, and of the plugin what is a call of the plotters crate or of an
-- encoder, each of which may fail. `start_kernel` takes the initial state of the engine as an argument. Paths are texts, and
-- `push` is that of paths without a Windows prefix.
pub mod Prelude
pub mod Cell
pub mod Messages
pub mod Nu
pub mod Outbox
pub mod Shell
pub mod Tasks
pub mod Startup
pub mod Tests
pub mod Plotters
