-- ===== src/Shell.antt =====
-- handlers/shell.rs: what the handlers of the shell channel send. Their loop is in Shell/Loop.antt.
pub mod Reports
pub mod Loop
pub mod Brackets
pub mod Ends
pub mod Progress
pub mod Counters
pub mod Restart
pub mod Filter
pub mod Rounds
use nu_jupyter_kernel.Prelude.{ℕ, List, [], ◌∷◌, ◌++◌, Option, none, some, if◌then◌else◌}
use nu_jupyter_kernel.Prelude.Text.{Bytes, Text, lit}
use nu_jupyter_kernel.Cell
use nu_jupyter_kernel.Cell.{Cell}
use nu_jupyter_kernel.Messages.{Header, Message}
use nu_jupyter_kernel.Messages.KernelInfo
use nu_jupyter_kernel.Messages.Content.{OutgoingContent}
use nu_jupyter_kernel.Messages.Iopub.{
  IopubBroadcast, display_data, execute_result, status, Status, msg_type,
}
use nu_jupyter_kernel.Messages.Shell.{ShellRequest, ShellReply, ShellReplyOk, unknown, reply_type}
use nu_jupyter_kernel.Nu.{Nu, Env, Result, ok, err, PipelineData, shell_socket, iopub_queue}
use nu_jupyter_kernel.Nu.Render.{PipelineRender, RenderError, render, text_plain}
use nu_jupyter_kernel.Nu.Execute.{ExecuteError, Prepared, failed, evaluate, shell}
use nu_jupyter_kernel.Nu.Commands
use nu_jupyter_kernel.Outbox.{M, ◌>>=◌, ◌>>◌, return, unwrap, compose, send}

-- `HandlerContext`, without the sockets: `stdout_reply` and `stderr_reply` are the message data that
-- the stream threads read.
pub record HandlerContext (nu : Nu) : Type 0 where
  pub engine_state : nu.EngineState
  pub stack : nu.Stack
  pub cell : Cell
  pub stdout_reply : List Bytes × Option Header
  pub stderr_reply : List Bytes × Option Header

-- `ReportExecuteError`: the code and the text of an error. Shell/Reports fills it.
pub record Report (nu : Nu) : Type 0 where
  pub code : nu.EngineState → ExecuteError nu → Text
  pub fmt : nu.EngineState → ExecuteError nu → Text

-- `RENDER_FILTER.lock().take()`
abbrev pub take_filter : {J : Type 0} → M J (Option Text)
take_filter p = some (p.render_filter, record p { render_filter = none })

module _ (env : Env) (report : Report env.nu) where
  open env use {nu, J, serde, decls}

  abbrev pub Request : Type 0
  Request = Message J (ShellRequest J)

  abbrev pub Context : Type 0
  Context = HandlerContext nu

  unfoldable pub send_status : Request → Status → M J (Unit {0})
  send_status message s = do
    m ←
        compose env [] (msg_type (status s)) (some message.header)
          (OutgoingContent.iopub (status s))
    send env iopub_queue m

  -- The reply to a request, which every handler ends with.
  unfoldable pub send_reply : Request → Text → ShellReply J → M J (Unit {0})
  send_reply message msg_type reply = do
    m ←
        compose env message.zmq_identities msg_type (some message.header)
          (OutgoingContent.shell reply)
    send env shell_socket m

  unfoldable pub broadcast : Request → IopubBroadcast → M J (Unit {0})
  broadcast message content = do
    m ←
        compose env message.zmq_identities (msg_type content) (some message.header)
          (OutgoingContent.iopub content)
    send env iopub_queue m

  unfoldable pub handle_kernel_info_request : Request → M J (Unit {0})
  unfolding send_reply
  handle_kernel_info_request message = do
    msg_type ← unwrap (reply_type message.header.msg_type)
    send_reply message msg_type (ShellReply.ok (ShellReplyOk.kernel_info KernelInfo.get))

  unfoldable pub handle_is_complete_request : Request → M J (Unit {0})
  unfolding send_reply
  handle_is_complete_request message = do
    msg_type ← unwrap (reply_type message.header.msg_type)
    send_reply message msg_type (ShellReply.ok (ShellReplyOk.is_complete unknown))

  -- `Some` for an execute request alone.
  unfoldable pub error_count : ShellRequest J → Cell → Option ℕ
  error_count (ShellRequest.execute r) cell = some (Cell.execution_count cell)
  error_count (ShellRequest.is_complete r) cell = none
  error_count ShellRequest.kernel_info cell = none

  unfoldable pub handle_execute_error : Context → Request → Text → ExecuteError nu → M J (Unit {0})
  unfolding broadcast send_reply error_count
  handle_execute_error ctx message msg_type e = do
    let name = report.code ctx.engine_state e
    let value = lit "Error: " ++ report.fmt ctx.engine_state e
    broadcast message (
        display_data
          (record { contents = (text_plain, value) ∷ []; metadata = []; transient = [] }))
    send_reply message msg_type
        (ShellReply.error name value [] (error_count message.content ctx.cell))

  -- The broadcast of a result that is not nothing; the rendering is unwrapped.
  unfoldable pub show_result :
      Request → ℕ → nu.Stack × Result (RenderError nu.ShellError) PipelineRender → M J nu.Stack
  unfolding broadcast
  show_result message count (stack, err e) = λ p. none
  show_result message count (stack, ok r) = do
    broadcast message (
        execute_result
          (record { execution_count = count; contents = r.contents; metadata = r.metadata }))
    return stack

  unfoldable pub render_result : Context → Request → ℕ → PipelineData nu.Value → M J nu.Stack
  unfolding show_result
  render_result ctx message count output = if nu.is_nothing output then return ctx.stack else (do
    filter ← take_filter
    show_result message count (render nu output ctx.engine_state ctx.stack decls filter))

  unfoldable pub handle_execute_results :
      Context → Request → Text → PipelineData nu.Value → M J Context
  unfolding render_result send_reply
  handle_execute_results ctx message msg_type output = do
    let (count, cell) = Cell.success ctx.cell
    stack ← render_result ctx message count output
    send_reply message msg_type (
        ShellReply.ok (
          ShellReplyOk.execute
            (record { execution_count = count; user_expressions = serde.empty_object })))
    return (record ctx { cell = cell; stack = stack })

  -- What the evaluation gave: `handle_execute_results` or `handle_execute_error`.
  unfoldable pub conclude :
      Context
      → Request
      → Text
      → nu.Stack × Result nu.ShellError (PipelineData nu.Value)
      → M J Context
  conclude ctx message msg_type (stack, ok output) =
      handle_execute_results (record ctx { stack = stack }) message msg_type output
  conclude ctx message msg_type (stack, err e) = do
    handle_execute_error (record ctx { stack = stack }) message msg_type (shell e)
    return (record ctx { stack = stack })

  unfoldable pub run_prepared : Context → Request → Text → Prepared nu → M J Context
  unfolding conclude
  run_prepared ctx message msg_type (failed e) = do
    handle_execute_error ctx message msg_type e
    return ctx
  run_prepared ctx message msg_type (evaluate script) = do
    result ← Commands.evaluate env ctx.engine_state script
    conclude ctx message msg_type result
