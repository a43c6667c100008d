-- ===== src/Tests/Wire.antt =====
-- The messages, at concrete frames, types and histories.
use mathlib.Core.List.{Nodup}
use nu_jupyter_kernel.Prelude.{◌≡◌, refl, ◌≢◌, List, [], ◌∷◌, some, Bool, true, false, arith}
use nu_jupyter_kernel.Prelude.Text.{Bytes, Text, lit, is_utf8, text_eq}
use nu_jupyter_kernel.Prelude.Flow
use nu_jupyter_kernel.Cell
use nu_jupyter_kernel.Cell.{names}
use nu_jupyter_kernel.Cell.Names.{names-Nodup}
use nu_jupyter_kernel.Messages.{Message, Channel}
use nu_jupyter_kernel.Messages.Shell
use nu_jupyter_kernel.Messages.Shell.{ShellRequest, ShellReply, ShellReplyOk, unknown}
use nu_jupyter_kernel.Messages.Control
use nu_jupyter_kernel.Messages.Content.{OutgoingContent, content_to_string}
use nu_jupyter_kernel.Messages.Wire.{delimiter, recv, read_content}
use nu_jupyter_kernel.Messages.Wire.Framing.{recv_ignores_signature, recv-into_multipart, assemble}
use nu_jupyter_kernel.Messages.Multipart.{chain, into_multipart}
use nu_jupyter_kernel.Messages.Ids.{ids, ids-Nodup}
use nu_jupyter_kernel.Tests.Codec.{header_to_text}
use nu_jupyter_kernel.Tests.Kernel.{json, json-Reads, host, header, process, execute_request}

abbrev history : List Bool
history = true ∷ false ∷ false ∷ true ∷ []

names-Nodup_example : Nodup (names Cell.new history)
names-Nodup_example = names-Nodup history (omega arith)

abbrev types : List Text
types = lit "status" ∷ lit "execute_reply" ∷ lit "status" ∷ []

ids-Nodup_example : Nodup (ids host types process.globals)
ids-Nodup_example = ids-Nodup host types process.globals (omega arith)

pub id_plain : lit "id" ≢ delimiter
unfolding delimiter
id_plain e = cc

abbrev reply : Message (Unit {0}) (OutgoingContent (Unit {0}))
reply = record {
  zmq_identities = lit "id" ∷ [];
  header = header (lit "execute_request");
  parent_header = some (header (lit "execute_request"));
  metadata = tt;
  content = OutgoingContent.shell (ShellReply.ok (ShellReplyOk.is_complete unknown));
  buffers = lit "buffer" ∷ [];
}

-- The frames of the reply.
abbrev reply_frames : List Bytes
reply_frames =
    chain (lit "id" ∷ []) (lit "5a") (header_to_text (header (lit "execute_request")))
      (header_to_text (header (lit "execute_request"))) (lit "{}") (lit "{reply}")
      (lit "buffer" ∷ [])

reply-sent : into_multipart json host (some (lit "key")) reply ≡ some reply_frames
unfolding into_multipart content_to_string chain
reply-sent = refl

pub hex-utf8 : (b : Bytes) → is_utf8 (host.hex_encode b) ≡ true
unfolding is_utf8
hex-utf8 b = refl

recv-into_multipart_example :
    (body : Text) × (content_to_string json reply.content ≡ some body)
    × (recv json Channel.shell reply_frames
        ≡ assemble json reply.zmq_identities reply.header reply.parent_header reply.metadata
            reply.buffers
            (read_content json Channel.shell reply.header.msg_type body))
recv-into_multipart_example =
    recv-into_multipart json host (some (lit "key")) reply Channel.shell json-Reads hex-utf8
      (id_plain, tt) reply-sent

forged-utf8 : is_utf8 (lit "forged") ≡ true
unfolding is_utf8
forged-utf8 = refl

abbrev signed : Text → List Bytes
signed signature =
    chain (lit "id" ∷ []) signature (header_to_text (header (lit "kernel_info_request"))) (lit "{}")
      (lit "{}") (lit "{}") []

recv_ignores_signature_example :
    recv json Channel.shell (signed (lit "forged")) ≡ recv json Channel.shell (signed (lit "5a"))
recv_ignores_signature_example =
    recv_ignores_signature json Channel.shell (lit "id" ∷ []) (lit "forged") (lit "5a")
      (header_to_text (header (lit "kernel_info_request"))) (lit "{}") (lit "{}") (lit "{}") []
      (id_plain, tt) forged-utf8 (hex-utf8 [])

execute_accepted :
    Shell.parse_variant json.execute_from_str json.is_complete_from_str
      (lit "execute_request")
      (lit "1")
    ≡ Flow.ok (ShellRequest.execute (execute_request (lit "1")))
unfolding Shell.parse_variant text_eq
execute_accepted = refl

shutdown_accepted :
    Control.parse_variant json.shutdown_from_str (lit "shutdown_request") (lit "true")
    ≡ Flow.ok (Control.ControlRequest.shutdown (record { restart = true }))
unfolding Control.parse_variant text_eq
shutdown_accepted = refl
