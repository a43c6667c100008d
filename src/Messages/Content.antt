-- ===== src/Messages/Content.antt =====
-- The sums of contents of jupyter/messages/mod.rs, and `serde_json` as the code uses it.
use nu_jupyter_kernel.Prelude.{◌≡◌, Option, some}
use nu_jupyter_kernel.Prelude.Text.{Text}
use nu_jupyter_kernel.Messages.{Header, Shutdown}
use nu_jupyter_kernel.Messages.Shell.{ShellRequest, ShellReply, ExecuteRequest, IsCompleteRequest}
use nu_jupyter_kernel.Messages.Control.{ControlRequest, ControlReply}
use nu_jupyter_kernel.Messages.Iopub.{IopubBroadcast}

pub data IncomingContent (J : Type 0) : Type 0 where
  shell : ShellRequest J → IncomingContent J
  control : ControlRequest → IncomingContent J

pub data OutgoingContent (J : Type 0) : Type 0 where
  shell : ShellReply J → OutgoingContent J
  iopub : IopubBroadcast → OutgoingContent J
  control : ControlReply → OutgoingContent J

-- `serde_json::to_string` and `from_str` at the types that the kernel writes and reads, with
-- `none` for an error, and the value `json!({})`.
pub record Serde (J : Type 0) : Type 0 where
  pub empty_object : J
  pub header_to_string : Header → Option Text
  pub header_from_str : Text → Option Header
  -- at `Option<Header>`
  pub parent_from_str : Text → Option (Option Header)
  pub metadata_to_string : J → Option Text
  pub metadata_from_str : Text → Option J
  pub shell_to_string : ShellReply J → Option Text
  pub iopub_to_string : IopubBroadcast → Option Text
  pub control_to_string : ControlReply → Option Text
  pub execute_from_str : Text → Option (ExecuteRequest J)
  pub is_complete_from_str : Text → Option IsCompleteRequest
  pub shutdown_from_str : Text → Option Shutdown

unfoldable pub content_to_string : {J : Type 0} → Serde J → OutgoingContent J → Option Text
content_to_string serde (shell reply) = serde.shell_to_string reply
content_to_string serde (iopub broadcast) = serde.iopub_to_string broadcast
content_to_string serde (control reply) = serde.control_to_string reply

-- `serde_json` writes every value of these types: they hold no map whose keys are no strings.
pub record Writes {J : Type 0} (serde : Serde J) : Type 0 where
  pub header : (h : Header) → (t : Text) × (serde.header_to_string h ≡ some t)
  pub metadata : (m : J) → (t : Text) × (serde.metadata_to_string m ≡ some t)
  pub content : (c : OutgoingContent J) → (t : Text) × (content_to_string serde c ≡ some t)
