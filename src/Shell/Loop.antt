-- ===== src/Shell/Loop.antt =====
-- handlers/shell.rs: `handle_execute_request` and the loop of the shell channel. What `select!`
-- yields is a list of events, oldest first.
use nu_jupyter_kernel.Prelude.{List, [], ◌∷◌, none, some, Bool, true, false}
use nu_jupyter_kernel.Prelude.Text.{Bytes, Text}
use nu_jupyter_kernel.Prelude.Flow.{Flow, panics}
use nu_jupyter_kernel.Cell
use nu_jupyter_kernel.Messages.{Shutdown}
use nu_jupyter_kernel.Messages.KernelInfo
use nu_jupyter_kernel.Messages.Iopub.{busy, idle}
use nu_jupyter_kernel.Messages.Shell.{ShellRequest, ExecuteRequest, reply_type}
use nu_jupyter_kernel.Messages.Wire.{recv_shell}
use nu_jupyter_kernel.Nu.{Env, KonstData}
use nu_jupyter_kernel.Nu.External
use nu_jupyter_kernel.Nu.Execute.{Prepared, execute}
use nu_jupyter_kernel.Outbox.{M, ◌>>=◌, ◌>>◌, return, unwrap}
use nu_jupyter_kernel.Shell.{
  Report, Request, Context, send_status, handle_kernel_info_request, handle_is_complete_request,
  run_prepared,
}

-- What `select!` gives: a shutdown, the end of its channel, or the frames of a request.
pub data Event : Type 0 where
  shutdown : Shutdown → Event
  closed : Event
  received : List Bytes → Event

-- The loop goes on, or has ended.
pub data Next (S : Type 0) : Type 0 where
  running stopped : S → Next S

module _ (env : Env) (report : Report env.nu) where
  open env use {nu, J, serde}

  -- `External::apply(&mut ctx.engine_state).unwrap()`
  unfoldable pub apply_external : Context env report → M J (Context env report)
  apply_external ctx p = elim (External.apply nu p.external ctx.engine_state) [
    | none ↦ none
    | some (external, engine) ↦
        some (record ctx { engine_state = engine }, record p { external = external })
  ]

  -- `Konst::update` and the two `update_reply` calls, under the next name of the cell.
  unfoldable pub enter_cell : Request env report → Context env report → Text × Context env report
  enter_cell message ctx =
      let (name, cell) = Cell.next_name ctx.cell in
      let konst : KonstData = record {
        kernel_version = KernelInfo.kernel_version;
        nu_version = KernelInfo.nu_version;
        cell = name;
        zmq_identities = message.zmq_identities;
        header = message.header;
        parent_header = message.parent_header;
      } in
      (
        name,
        record ctx {
          cell = cell;
          stack = nu.set_konst ctx.stack konst;
          stdout_reply = (message.zmq_identities, some message.header);
          stderr_reply = (message.zmq_identities, some message.header);
        },
      )

  -- `nu::execute` on the blocking thread: the engine that it leaves, and how far it came.
  unfoldable pub execute_cell :
      Text → Text → Context env report → M J (Context env report × Prepared nu)
  execute_cell code name ctx p = elim (execute nu code ctx.engine_state ctx.stack name) [
    | none ↦ none
    | some (engine, prepared) ↦ some ((record ctx { engine_state = engine }, prepared), p)
  ]

  unfoldable pub handle_execute_request :
      Request env report → ExecuteRequest J → Context env report → M J (Context env report)
  unfolding apply_external enter_cell execute_cell
  handle_execute_request message request ctx = do
    msg_type ← unwrap (reply_type message.header.msg_type)
    ctx ← apply_external ctx
    let name = (enter_cell message ctx).0
    (ctx, prepared) ← execute_cell request.code name (enter_cell message ctx).1
    ctx ← run_prepared env report ctx message msg_type prepared
    return (record ctx { engine_state = nu.reset_signals ctx.engine_state })

  unfoldable pub dispatch :
      Request env report → ShellRequest J → Context env report → M J (Context env report)
  dispatch message ShellRequest.kernel_info ctx = do
    handle_kernel_info_request env report message
    return ctx
  dispatch message (ShellRequest.execute request) ctx = handle_execute_request message request ctx
  dispatch message (ShellRequest.is_complete request) ctx = do
    handle_is_complete_request env report message
    return ctx

  -- One request, between its two status messages.
  unfoldable pub serve : Request env report → Context env report → M J (Context env report)
  serve message ctx = do
    send_status env report message busy
    ctx ← dispatch message message.content ctx
    send_status env report message idle
    return ctx

  -- What a shutdown does; the context given first is the initial one.
  abbrev pub shut : Context env report → Context env report → Bool → Next (Context env report)
  shut initial ctx false = stopped ctx
  shut initial ctx true =
      running (record ctx { engine_state = initial.engine_state; stack = initial.stack })

  abbrev pub take_in :
      Context env report → Flow (Unit {0}) (Request env report) → M J (Next (Context env report))
  take_in ctx (Flow.ok message) = serve message ctx >>= λ ctx. return (running ctx)
  take_in ctx (Flow.err e) = return (running ctx)
  take_in ctx panics = λ p. none

  -- One round of the loop.
  unfoldable pub step :
      Context env report → Event → Context env report → M J (Next (Context env report))
  step initial (shutdown s) ctx = return (shut initial ctx s.restart)
  step initial closed ctx = return (stopped ctx)
  step initial (received frames) ctx = take_in ctx (recv_shell serde frames)

  unfoldable pub go :
      Context env report → List Event → Next (Context env report) → M J (Next (Context env report))
  go initial [] state = return state
  go initial (e ∷ events) (stopped ctx) = return (stopped ctx)
  go initial (e ∷ events) (running ctx) = do state ← step initial e ctx; go initial events state

  -- `handle`
  unfoldable pub handle : List Event → Context env report → M J (Next (Context env report))
  unfolding go
  handle events ctx = go ctx events (running ctx)
