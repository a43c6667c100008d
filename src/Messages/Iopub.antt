-- ===== src/Messages/Iopub.antt =====
-- jupyter/messages/iopub.rs. A `HashMap` is an association list.
use nu_jupyter_kernel.Prelude.{ℕ, List}
use nu_jupyter_kernel.Prelude.Text.{Text, lit}

pub data StreamName : Type 0 where
  stdout stderr : StreamName

pub record Stream : Type 0 where
  pub name : StreamName
  pub text : Text

pub record DisplayData : Type 0 where
  pub contents : List (Text × Text)
  pub metadata : List (Text × Text)
  pub transient : List (Text × Text)

pub record ExecuteResult : Type 0 where
  pub execution_count : ℕ
  pub contents : List (Text × Text)
  pub metadata : List (Text × Text)

pub record Error : Type 0 where
  pub name : Text
  pub value : Text
  pub traceback : List Text

pub data Status : Type 0 where
  busy idle : Status

pub data IopubBroadcast : Type 0 where
  stream : Stream → IopubBroadcast
  display_data : DisplayData → IopubBroadcast
  update_display_data execute_input : IopubBroadcast
  execute_result : ExecuteResult → IopubBroadcast
  error : Error → IopubBroadcast
  status : Status → IopubBroadcast
  clear_output debug_event : IopubBroadcast

unfoldable pub msg_type : IopubBroadcast → Text
msg_type (stream s) = lit "stream"
msg_type (display_data d) = lit "display_data"
msg_type update_display_data = lit "update_display_data"
msg_type execute_input = lit "execute_input"
msg_type (execute_result r) = lit "execute_result"
msg_type (error e) = lit "error"
msg_type (status s) = lit "status"
msg_type clear_output = lit "clear_output"
msg_type debug_event = lit "debug_event"
