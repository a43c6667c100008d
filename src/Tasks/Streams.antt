-- ===== src/Tasks/Streams.antt =====
-- handlers/stream.rs: the reader of what a cell writes to a pipe. Its reads, and the updates by the
-- shell task, are a list of events.
pub mod Texts
use nu_jupyter_kernel.Prelude.{
  ℕ, ◌*◌, List, [], ◌∷◌, ◌++◌, Option, none, some, Bool, true, false, if◌then◌else◌, length, ◌==◌,
}
use nu_jupyter_kernel.Prelude.Text.{Bytes, is_utf8}
use nu_jupyter_kernel.Messages.{Header}
use nu_jupyter_kernel.Messages.Content.{OutgoingContent}
use nu_jupyter_kernel.Messages.Iopub.{StreamName, IopubBroadcast, msg_type}
use nu_jupyter_kernel.Nu.{Env, iopub_queue}
use nu_jupyter_kernel.Outbox.{M, ◌>>=◌, ◌>>◌, return, compose, send}

abbrev pub buffer_size : ℕ
buffer_size = 8 * 1024

-- What `read` gives: an error, or the bytes that it put in the buffer.
pub data Read : Type 0 where
  failed : Read
  bytes : Bytes → Read

pub data Event : Type 0 where
  read : Read → Event
  update_reply : List Bytes → Header → Event

-- The shared message data, and the bytes of the message that is being read.
pub record Reader : Type 0 where
  pub message_data : List Bytes × Option Header
  pub s_buf : Bytes

-- `StreamHandler::start`
unfoldable pub start : Reader
start = record { message_data = ([], none); s_buf = [] }

module _ (env : Env) (name : StreamName) where
  open env use {J}

  -- The message of the bytes; `none` is the panic on bytes that are no UTF-8.
  unfoldable pub publish : Reader → Bool → M J Reader
  publish r false = λ p. none
  publish r true = do
    let content = IopubBroadcast.stream (record { name = name; text = r.s_buf })
    m ←
        compose env r.message_data.0 (msg_type content) r.message_data.1
          (OutgoingContent.iopub content)
    send env iopub_queue m
    return (record r { s_buf = [] })

  unfoldable pub flush : Reader → M J Reader
  unfolding publish
  flush r = publish r (is_utf8 r.s_buf)

  -- The arms of the `match` for no bytes and for some.
  unfoldable pub at_end : Reader → Bytes → M J Reader
  unfolding flush
  at_end r [] = λ p. none
  at_end r (b ∷ bs) = flush r

  unfoldable pub add_bytes : Reader → Bytes → Bool → M J Reader
  unfolding flush
  add_bytes r got true = return (record r { s_buf = r.s_buf ++ got })
  add_bytes r got false = flush (record r { s_buf = r.s_buf ++ got })

  unfoldable pub on_read : Reader → Read → M J Reader
  unfolding at_end add_bytes
  on_read r failed = λ p. none
  on_read r (bytes []) = at_end r r.s_buf
  on_read r (bytes (b ∷ bs)) = add_bytes r (b ∷ bs) (length (b ∷ bs) == buffer_size)

  unfoldable pub on_event : Reader → Event → M J Reader
  unfolding on_read
  on_event r (read x) = on_read r x
  on_event r (update_reply ids header) = return (record r { message_data = (ids, some header) })

  unfoldable pub run : List Event → Reader → M J Reader
  unfolding on_event
  run [] r = return r
  run (e ∷ events) r = on_event r e >>= run events
