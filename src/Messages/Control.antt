-- ===== src/Messages/Control.antt =====
-- jupyter/messages/control.rs
use nu_jupyter_kernel.Prelude.{List, Option, if◌then◌else◌}
use nu_jupyter_kernel.Prelude.Text.{Text, lit, text_eq}
use nu_jupyter_kernel.Prelude.Flow.{Flow, err, panics, or_panic}
use nu_jupyter_kernel.Messages.{Shutdown}
use nu_jupyter_kernel.Messages.KernelInfo.{KernelInfo}

pub data ControlRequest : Type 0 where
  kernel_info : ControlRequest
  shutdown : Shutdown → ControlRequest
  interrupt : ControlRequest
  debug : ControlRequest

pub data ControlReplyOk : Type 0 where
  kernel_info : KernelInfo → ControlReplyOk
  shutdown : Shutdown → ControlReplyOk
  interrupt : ControlReplyOk
  debug : ControlReplyOk

pub data ControlReply : Type 0 where
  ok : ControlReplyOk → ControlReply
  error : (name value : Text) (traceback : List Text) → ControlReply

-- `ControlRequest::parse_variant`; the first argument is `serde_json::from_str` at the body.
unfoldable pub parse_variant :
    (Text → Option Shutdown) → Text → Text → Flow (Unit {0}) ControlRequest
parse_variant shutdown_from variant body =
    if text_eq variant (lit "kernel_info_request")
    then Flow.ok ControlRequest.kernel_info
    else if text_eq variant (lit "shutdown_request")
    then or_panic (λ s. ControlRequest.shutdown s) (shutdown_from body)
    else if text_eq variant (lit "interrupt_request")
    then Flow.ok ControlRequest.interrupt
    else if text_eq variant (lit "debug_request")
    then panics
    else err tt

-- `ControlReply::msg_type`
unfoldable pub reply_type : Text → Flow (Unit {0}) Text
reply_type request_type =
    if text_eq request_type (lit "kernel_info_request")
    then Flow.ok (lit "kernel_info_reply")
    else if text_eq request_type (lit "shutdown_request")
    then Flow.ok (lit "shutdown_reply")
    else if text_eq request_type (lit "interrupt_request")
    then Flow.ok (lit "interrupt_reply")
    else if text_eq request_type (lit "debug_request")
    then Flow.ok (lit "debug_reply")
    else panics
