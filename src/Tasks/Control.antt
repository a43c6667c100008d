-- ===== src/Tasks/Control.antt =====
-- handlers/control.rs: the control channel, and the interrupt signal that it shares with the engine.
pub mod Order
pub mod Interrupt
use nu_jupyter_kernel.Prelude.{
  ◌≡◌, ◌≢◌, List, [], ◌∷◌, ◌++◌, Option, none, some, Bool, true, false, if◌then◌else◌, All,
}
use nu_jupyter_kernel.Prelude.Text.{Bytes, Text}
use nu_jupyter_kernel.Prelude.Flow.{Flow, panics}
use nu_jupyter_kernel.Messages.{Message, Shutdown}
use nu_jupyter_kernel.Messages.KernelInfo
use nu_jupyter_kernel.Messages.Content.{OutgoingContent}
use nu_jupyter_kernel.Messages.Control.{ControlRequest, ControlReply, ControlReplyOk, reply_type}
use nu_jupyter_kernel.Messages.Wire.{recv_control}
use nu_jupyter_kernel.Nu.{Env, Process, Sent, control_socket}
use nu_jupyter_kernel.Outbox.{M, ◌>>=◌, return, unwrap, compose, send}

-- What the task waits for: the next request, the end of an interrupt, or nothing more.
pub data Phase (J : Type 0) : Type 0 where
  receiving : Phase J
  polling : Message J ControlRequest → Phase J
  stopped : Phase J

-- The task with what it shares: the statics and messages of the process, the interrupt signal, and
-- the values sent on the shutdown channel, oldest first.
pub record System (J : Type 0) : Type 0 where
  pub process : Process J
  pub phase : Phase J
  pub interrupt_signal : Bool
  pub shutdowns : List Shutdown

module _ (env : Env) where
  open env use {J, serde}

  abbrev pub Request : Type 0
  Request = Message J ControlRequest

  -- The reply that every handler ends with.
  unfoldable pub send_reply : Request → ControlReplyOk → M J (Unit {0})
  send_reply message reply = do
    msg_type ← unwrap (reply_type message.header.msg_type)
    m ←
        compose env message.zmq_identities msg_type (some message.header)
          (OutgoingContent.control (ControlReply.ok reply))
    send env control_socket m

  -- The system once a reply is sent, or a panic.
  abbrev pub after : System J → Phase J → Option (Unit {0} × Process J) → Option (System J)
  after s phase none = none
  after s phase (some (u, p)) = some (record s { process = p; phase = phase })

  -- A request from the socket, up to the reply or, for an interrupt, up to the polling.
  unfoldable pub handle_request : Request → ControlRequest → System J → Option (System J)
  unfolding send_reply
  handle_request message ControlRequest.kernel_info s =
      after s receiving (send_reply message (ControlReplyOk.kernel_info KernelInfo.get) s.process)
  handle_request message (ControlRequest.shutdown shutdown) s =
      after (record s { shutdowns = s.shutdowns ++ shutdown ∷ [] })
        (if shutdown.restart then receiving else stopped)
        (send_reply message (ControlReplyOk.shutdown shutdown) s.process)
  handle_request message ControlRequest.interrupt s =
      some (record s { interrupt_signal = true; phase = polling message })
  handle_request message ControlRequest.debug s = none

  -- The loop of `handle_interrupt_request` on what it loads, and the reply after it.
  abbrev pub look_at : Request → System J → Bool → Option (System J)
  look_at message s true = some s
  look_at message s false =
      after s receiving (send_reply message ControlReplyOk.interrupt s.process)

  unfoldable pub poll : Request → System J → Option (System J)
  poll message s = look_at message s s.interrupt_signal

  abbrev pub accept : System J → Flow (Unit {0}) Request → Option (System J)
  accept s (Flow.ok message) = handle_request message message.content s
  accept s (Flow.err e) = none
  accept s panics = none

  -- The next round of `handle` on the frames from the socket; `none` is a panic, of which the
  -- `unwrap` of an unknown request is one.
  unfoldable pub receive : List Bytes → System J → Option (System J)
  receive frames s = accept s (recv_control serde frames)

  abbrev pub Quiet : Sent J → Type 0
  Quiet x = x.route ≢ control_socket

  -- The steps of the kernel, with the request that one takes in: the control task, the shell task
  -- that resets the signals after a cell, and what other tasks send.
  pub data Step (s t : System J) : Option Request → Type 0 where
    request :
        (frames : List Bytes) (message : Request)
        → s.phase ≡ receiving
        → recv_control serde frames ≡ Flow.ok message
        → receive frames s ≡ some t
        → Step s t (some message)
    look : (message : Request) → s.phase ≡ polling message → poll message s ≡ some t → Step s t none
    reset : t ≡ record s { interrupt_signal = false } → Step s t none
    other :
        (p : Process J) (xs : List (Sent J))
        → p.sent ≡ s.process.sent ++ xs
        → All Quiet xs
        → t ≡ record s { process = p }
        → Step s t none

  abbrev pub taken : Option Request → List Request
  taken none = []
  taken (some message) = message ∷ []

  -- The states that the kernel reaches, with the requests that it took in, oldest first.
  pub data Reach (s : System J) : System J → List Request → Type 0 where
    here : Reach s s []
    next :
        {t u : System J} {requests : List Request} {label : Option Request}
        → Reach s t requests
        → Step t u label
        → Reach s u (requests ++ taken label)
