-- ===== src/Messages/Wire/Variants.antt =====
-- What `recv` accepts has a type that the replies know.
use nu_jupyter_kernel.Prelude.{◌≡◌, ap, ◌≢◌, List, Option, arith}
use nu_jupyter_kernel.Prelude.Text.{Bytes, Text}
use nu_jupyter_kernel.Prelude.Flow.{ok, or_panic, ◌>>=◌, Gives, Gives-bind, Gives-ok, Gives-panics}
use nu_jupyter_kernel.Messages.{Header, Message, Channel}
use nu_jupyter_kernel.Messages.Shell
use nu_jupyter_kernel.Messages.Shell.{ShellRequest}
use nu_jupyter_kernel.Messages.Control
use nu_jupyter_kernel.Messages.Control.{ControlRequest}
use nu_jupyter_kernel.Messages.Content.{IncomingContent, Serde}
use nu_jupyter_kernel.Messages.Replies.{shell_reply_of_request, control_reply_of_request}
use nu_jupyter_kernel.Messages.Wire.{
  take_identities, next_string, read_parent, read_content, recv, with_content, as_shell, as_control,
  recv_shell, recv_control,
}

module _ {J : Type 0} (serde : Serde J) where
  abbrev Reads : Channel → Message J (IncomingContent J) → Type 0
  Reads source m = (body : Text) × (read_content serde source m.header.msg_type body ≡ ok m.content)

  -- The content of a message that is read was read under the type in its header.
  recv-Reads :
      (source : Channel) (frames : List Bytes) → Gives (Reads source) (recv serde source frames)
  unfolding recv
  recv-Reads source frames = Gives-bind _ (next_string (take_identities frames).1) _ λ signature _.
      Gives-bind _ (next_string signature.1) _ λ header_text _.
        Gives-bind _ (or_panic (λ h. h) (serde.header_from_str header_text.0)) _ λ header _.
          Gives-bind _ (next_string header_text.1) _ λ parent_text _.
            Gives-bind _ (read_parent serde parent_text.0) _ λ parent _.
              Gives-bind _ (next_string parent_text.1) _ λ metadata_text _.
                Gives-bind _ (or_panic (λ m. m) (serde.metadata_from_str metadata_text.0)) _
                  λ metadata _. Gives-bind _ (next_string metadata_text.1) _ λ content_text _.
                    Gives-bind _ (read_content serde source header.msg_type content_text.0) _
                      λ content read. Gives-ok _ _ (content_text.0, read)

  parse_variant-no_debug :
      (variant body : Text) (r : ControlRequest)
      → Control.parse_variant serde.shutdown_from_str variant body ≡ ok r
      → r ≢ ControlRequest.debug
  unfolding Control.parse_variant
  parse_variant-no_debug variant body r e = ground arith

  -- A control request with a reply type, and no `debug_request`.
  abbrev Served : Text → IncomingContent J → Type 0
  Served variant content =
      ((t : Text) × (Control.reply_type variant ≡ ok t))
      × (content ≢ IncomingContent.control ControlRequest.debug)

  control_known :
      (variant body : Text) (content : IncomingContent J)
      → read_content serde Channel.control variant body ≡ ok content
      → Served variant content
  unfolding read_content
  control_known variant body content e =
      (Gives-bind (Served variant) _ _ λ r accepted. Gives-ok _ _ (
        control_reply_of_request serde.shutdown_from_str variant body r accepted,
        λ same. parse_variant-no_debug variant body r accepted (cc same),
      )).apply
        content e

  shell_known :
      (variant body : Text) (content : IncomingContent J)
      → read_content serde Channel.shell variant body ≡ ok content
      → (t : Text) × (Shell.reply_type variant ≡ ok t)
  unfolding read_content
  shell_known variant body content e =
      (Gives-bind (λ _. (t : Text) × (Shell.reply_type variant ≡ ok t)) _ _
          λ r accepted. Gives-ok _ _ (
            shell_reply_of_request serde.execute_from_str serde.is_complete_from_str variant body r
              accepted)).apply
        content e

  -- A request that the handlers of the control channel reply to.
  abbrev pub Answerable : Message J ControlRequest → Type 0
  Answerable m =
      ((t : Text) × (Control.reply_type m.header.msg_type ≡ ok t))
      × (m.content ≢ ControlRequest.debug)

  as_control-Answerable :
      (m : Message J (IncomingContent J)) (c : IncomingContent J)
      → Served m.header.msg_type c
      → Gives Answerable (as_control serde m c)
  unfolding as_control
  as_control-Answerable m (IncomingContent.control content) known =
      Gives-ok _ _ (known.0, λ same. known.1 (ap (λ c. IncomingContent.control c) same))
  as_control-Answerable m (IncomingContent.shell content) known = Gives-panics _

  as_shell-known :
      (m : Message J (IncomingContent J)) (c : IncomingContent J)
      → (t : Text) × (Shell.reply_type m.header.msg_type ≡ ok t)
      → Gives (λ r. (t : Text) × (Shell.reply_type r.header.msg_type ≡ ok t)) (as_shell serde m c)
  unfolding as_shell
  as_shell-known m (IncomingContent.shell content) known = Gives-ok _ _ known
  as_shell-known m (IncomingContent.control content) known = Gives-panics _

  -- A control request that `recv` accepts has a reply.
  pub recv_control-Answerable : (frames : List Bytes) → Gives Answerable (recv_control serde frames)
  unfolding recv_control
  recv_control-Answerable frames = Gives-bind _ (recv serde Channel.control frames) _ λ msg got.
      let (body, read) = (recv-Reads Channel.control frames).apply msg got in
      as_control-Answerable msg msg.content
        (control_known msg.header.msg_type body msg.content read)

  -- A shell request that `recv` accepts has a reply.
  pub recv_shell-known :
      (frames : List Bytes)
      → Gives
          (λ m. (t : Text) × (Shell.reply_type m.header.msg_type ≡ ok t))
          (recv_shell serde frames)
  unfolding recv_shell
  recv_shell-known frames = Gives-bind _ (recv serde Channel.shell frames) _ λ msg got.
      let (body, read) = (recv-Reads Channel.shell frames).apply msg got in
      as_shell-known msg msg.content (shell_known msg.header.msg_type body msg.content read)

  -- A message with a request of the channel is that request.
  pub recv_shell_of_content :
      (ids : List Bytes) (header : Header) (parent : Option Header) (metadata : J)
      (buffers : List Bytes) (c : ShellRequest J) (frames : List Bytes)
      → recv serde Channel.shell frames
        ≡ ok (record {
          zmq_identities = ids;
          header = header;
          parent_header = parent;
          metadata = metadata;
          content = IncomingContent.shell c;
          buffers = buffers;
        })
      → recv_shell serde frames
        ≡ ok (record {
          zmq_identities = ids;
          header = header;
          parent_header = parent;
          metadata = metadata;
          content = c;
          buffers = buffers;
        })
  unfolding recv_shell as_shell with_content
  recv_shell_of_content ids header parent metadata buffers c frames e =
      ap (λ o. o >>= λ msg. as_shell serde msg msg.content) e

  -- A message with a request of the channel is that request.
  pub recv_control_of_content :
      (ids : List Bytes) (header : Header) (parent : Option Header) (metadata : J)
      (buffers : List Bytes) (c : ControlRequest) (frames : List Bytes)
      → recv serde Channel.control frames
        ≡ ok (record {
          zmq_identities = ids;
          header = header;
          parent_header = parent;
          metadata = metadata;
          content = IncomingContent.control c;
          buffers = buffers;
        })
      → recv_control serde frames
        ≡ ok (record {
          zmq_identities = ids;
          header = header;
          parent_header = parent;
          metadata = metadata;
          content = c;
          buffers = buffers;
        })
  unfolding recv_control as_control with_content
  recv_control_of_content ids header parent metadata buffers c frames e =
      ap (λ o. o >>= λ msg. as_control serde msg msg.content) e
