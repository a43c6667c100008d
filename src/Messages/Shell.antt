-- ===== src/Messages/Shell.antt =====
-- jupyter/messages/shell.rs
use nu_jupyter_kernel.Prelude.{ℕ, ◌≡◌, ◌⊎◌, List, Option, Bool, if◌then◌else◌, arith}
use nu_jupyter_kernel.Prelude.Text.{Text, lit, text_eq}
use nu_jupyter_kernel.Prelude.Flow.{Flow, err, panics, or_panic}
use nu_jupyter_kernel.Messages.KernelInfo.{KernelInfo}

module _ (J : Type 0) where
  pub record ExecuteRequest : Type 0 where
    pub code : Text
    pub silent : Bool
    pub store_history : Bool
    pub user_expressions : J
    pub allow_stdin : Bool
    pub stop_on_error : Bool

  pub record ExecuteReply : Type 0 where
    pub execution_count : ℕ
    pub user_expressions : J

pub record IsCompleteRequest : Type 0 where
  pub code : Text

pub data IsCompleteReply : Type 0 where
  complete : IsCompleteReply
  incomplete : (indent : Text) → IsCompleteReply
  invalid : IsCompleteReply
  unknown : IsCompleteReply

pub data ShellRequest (J : Type 0) : Type 0 where
  execute : ExecuteRequest J → ShellRequest J
  is_complete : IsCompleteRequest → ShellRequest J
  kernel_info : ShellRequest J

pub data ShellReplyOk (J : Type 0) : Type 0 where
  kernel_info : KernelInfo → ShellReplyOk J
  execute : ExecuteReply J → ShellReplyOk J
  is_complete : IsCompleteReply → ShellReplyOk J

pub data ShellReply (J : Type 0) : Type 0 where
  ok : ShellReplyOk J → ShellReply J
  error : (name value : Text) (traceback : List Text) (execution_count : Option ℕ) → ShellReply J

-- `ShellRequest::parse_variant`; the first two arguments are `serde_json::from_str` at the bodies.
unfoldable pub parse_variant :
    {J : Type 0}
    → (Text → Option (ExecuteRequest J))
    → (Text → Option IsCompleteRequest)
    → Text
    → Text
    → Flow (Unit {0}) (ShellRequest J)
parse_variant execute_from is_complete_from variant body =
    if text_eq variant (lit "execute_request")
    then or_panic (λ r. ShellRequest.execute r) (execute_from body)
    else if text_eq variant (lit "is_complete_request")
    then or_panic (λ r. ShellRequest.is_complete r) (is_complete_from body)
    else if text_eq variant (lit "kernel_info_request")
    then Flow.ok ShellRequest.kernel_info
    else err tt

-- `ShellReply::msg_type`
unfoldable pub reply_type : Text → Flow (Unit {0}) Text
reply_type request_type =
    if text_eq request_type (lit "kernel_info_request")
    then Flow.ok (lit "kernel_info_reply")
    else if text_eq request_type (lit "execute_request")
    then Flow.ok (lit "execute_reply")
    else if text_eq request_type (lit "is_complete_request")
    then Flow.ok (lit "is_complete_reply")
    else panics

pub reply_types :
    (variant t : Text)
    → reply_type variant ≡ Flow.ok t
    → (t ≡ lit "kernel_info_reply") ⊎ ((t ≡ lit "execute_reply") ⊎ (t ≡ lit "is_complete_reply"))
unfolding reply_type
reply_types variant t e = ground arith
