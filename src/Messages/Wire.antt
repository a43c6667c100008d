-- ===== src/Messages/Wire.antt =====
-- The frames of a message that comes in: `Message::recv` of jupyter/messages/mod.rs. What the socket
-- gives is the argument `frames`.
pub mod Framing
pub mod Variants
use nu_jupyter_kernel.Prelude.{List, [], ◌∷◌, ◌++◌, Option, none, some, if◌then◌else◌}
use nu_jupyter_kernel.Prelude.Text.{Bytes, Text, lit, text_eq, from_utf8}
use nu_jupyter_kernel.Prelude.Flow.{Flow, ok, err, panics, or_panic, ◌>>=◌}
use nu_jupyter_kernel.Messages.{Header, Message, Channel}
use nu_jupyter_kernel.Messages.Shell
use nu_jupyter_kernel.Messages.Shell.{ShellRequest}
use nu_jupyter_kernel.Messages.Control
use nu_jupyter_kernel.Messages.Control.{ControlRequest}
use nu_jupyter_kernel.Messages.Content.{IncomingContent, Serde}

unfoldable pub delimiter : Bytes
delimiter = lit "<IDS|MSG>"

-- The loop over the frames before the delimiter, and what it leaves in the iterator.
unfoldable pub take_identities : List Bytes → List Bytes × List Bytes
take_identities [] = ([], [])
take_identities (frame ∷ rest) =
    if text_eq frame delimiter
    then ([], rest)
    else let (ids, left) = take_identities rest in (frame ∷ ids, left)

unfoldable pub next_string : List Bytes → Flow (Unit {0}) (Text × List Bytes)
next_string [] = panics
next_string (frame ∷ rest) = or_panic (λ s. (s, rest)) (from_utf8 frame)

module _ {J : Type 0} (serde : Serde J) where
  unfoldable pub read_parent : Text → Flow (Unit {0}) (Option Header)
  read_parent text =
      if text_eq text (lit "{}") then ok none else or_panic (λ p. p) (serde.parent_from_str text)

  unfoldable pub read_content : Channel → Text → Text → Flow (Unit {0}) (IncomingContent J)
  read_content Channel.shell msg_type body = do
    request ← Shell.parse_variant serde.execute_from_str serde.is_complete_from_str msg_type body
    ok (IncomingContent.shell request)
  read_content Channel.stdin msg_type body = panics
  read_content Channel.control msg_type body = do
    request ← Control.parse_variant serde.shutdown_from_str msg_type body
    ok (IncomingContent.control request)

  -- `Message::<IncomingContent>::recv`; the signature is read and not looked at.
  unfoldable pub recv : Channel → List Bytes → Flow (Unit {0}) (Message J (IncomingContent J))
  recv source frames = do
    let ids = (take_identities frames).0
    (signature, rest) ← next_string (take_identities frames).1
    (header_text, rest) ← next_string rest
    header ← or_panic (λ h. h) (serde.header_from_str header_text)
    (parent_text, rest) ← next_string rest
    parent_header ← read_parent parent_text
    (metadata_text, rest) ← next_string rest
    metadata ← or_panic (λ m. m) (serde.metadata_from_str metadata_text)
    (content_text, buffers) ← next_string rest
    content ← read_content source header.msg_type content_text
    ok (record {
      zmq_identities = ids;
      header = header;
      parent_header = parent_header;
      metadata = metadata;
      content = content;
      buffers = buffers;
    })

  with_content : {C : Type 0} → Message J (IncomingContent J) → C → Message J C
  with_content msg content = record {
    zmq_identities = msg.zmq_identities;
    header = msg.header;
    parent_header = msg.parent_header;
    metadata = msg.metadata;
    content = content;
    buffers = msg.buffers;
  }

  as_shell :
      Message J (IncomingContent J)
      → IncomingContent J
      → Flow (Unit {0}) (Message J (ShellRequest J))
  unfolding with_content
  as_shell msg (IncomingContent.shell content) = ok (with_content msg content)
  as_shell msg (IncomingContent.control content) = panics

  as_control :
      Message J (IncomingContent J) → IncomingContent J → Flow (Unit {0}) (Message J ControlRequest)
  unfolding with_content
  as_control msg (IncomingContent.control content) = ok (with_content msg content)
  as_control msg (IncomingContent.shell content) = panics

  -- `Message::<ShellRequest>::recv` and `Message::<ControlRequest>::recv`
  unfoldable pub recv_shell : List Bytes → Flow (Unit {0}) (Message J (ShellRequest J))
  unfolding recv as_shell
  recv_shell frames = recv Channel.shell frames >>= λ msg. as_shell msg msg.content

  unfoldable pub recv_control : List Bytes → Flow (Unit {0}) (Message J ControlRequest)
  unfolding recv as_control
  recv_control frames = recv Channel.control frames >>= λ msg. as_control msg msg.content
