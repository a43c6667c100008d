-- ===== src/Messages/Replies.antt =====
-- Requests and the types of their replies, on both channels, and the ids of the headers.
use nu_jupyter_kernel.Prelude.{◌≡◌, inl, inr, Option, arith, Bool-cases}
use nu_jupyter_kernel.Prelude.Text.{Text, lit, text_eq}
use nu_jupyter_kernel.Prelude.Flow.{ok, err}
use nu_jupyter_kernel.Messages.{Shutdown}
use nu_jupyter_kernel.Messages.Shell
use nu_jupyter_kernel.Messages.Shell.{ShellRequest, ExecuteRequest, IsCompleteRequest}
use nu_jupyter_kernel.Messages.Control
use nu_jupyter_kernel.Messages.Control.{ControlRequest}

module _ {J : Type 0} (execute_from : Text → Option (ExecuteRequest J))
    (is_complete_from : Text → Option IsCompleteRequest) where
  -- Where a shell request is accepted, `ShellReply::msg_type` has a reply for it, so that the
  -- `todo!` there is never reached.
  pub shell_reply_of_request :
      (variant body : Text) (r : ShellRequest J)
      → Shell.parse_variant execute_from is_complete_from variant body ≡ ok r
      → (t : Text) × (Shell.reply_type variant ≡ ok t)
  unfolding Shell.parse_variant Shell.reply_type
  shell_reply_of_request variant body r e =
      elim (Bool-cases (text_eq variant (lit "kernel_info_request"))) [
        | inl k ↦ (lit "kernel_info_reply", rw k)
        | inr k ↦ elim (Bool-cases (text_eq variant (lit "execute_request"))) [
          | inl x ↦ (lit "execute_reply", rw (k, x))
          | inr x ↦ elim (Bool-cases (text_eq variant (lit "is_complete_request"))) [
            | inl c ↦ (lit "is_complete_reply", rw (k, x, c))
            | inr c ↦ absurd (ground arith)
          ]
        ]
      ]

  -- A type that `ShellReply::msg_type` gives is refused as a request on the shell channel,
  -- whatever the body.
  pub shell_refuses_replies :
      (variant t body : Text)
      → Shell.reply_type variant ≡ ok t
      → Shell.parse_variant execute_from is_complete_from t body ≡ err tt
  unfolding Shell.parse_variant text_eq
  shell_refuses_replies variant t body e = elim (Shell.reply_types variant t e) [
    | inl same ↦ rw same
    | inr (inl same) ↦ rw same
    | inr (inr same) ↦ rw same
  ]

module _ (shutdown_from : Text → Option Shutdown) where
  -- Where a control request is accepted, `ControlReply::msg_type` has a reply for it.
  pub control_reply_of_request :
      (variant body : Text) (r : ControlRequest)
      → Control.parse_variant shutdown_from variant body ≡ ok r
      → (t : Text) × (Control.reply_type variant ≡ ok t)
  unfolding Control.parse_variant Control.reply_type
  control_reply_of_request variant body r e =
      elim (Bool-cases (text_eq variant (lit "kernel_info_request"))) [
        | inl k ↦ (lit "kernel_info_reply", rw k)
        | inr k ↦ elim (Bool-cases (text_eq variant (lit "shutdown_request"))) [
          | inl x ↦ (lit "shutdown_reply", rw (k, x))
          | inr x ↦ elim (Bool-cases (text_eq variant (lit "interrupt_request"))) [
            | inl c ↦ (lit "interrupt_reply", rw (k, x, c))
            | inr c ↦ absurd (ground arith)
          ]
        ]
      ]
