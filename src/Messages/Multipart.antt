-- ===== src/Messages/Multipart.antt =====
-- jupyter/messages/multipart.rs: the frames of a message that goes out, with their signature.
use nu_jupyter_kernel.Prelude.{List, [], ◌∷◌, ◌++◌, Option, none, some}
use nu_jupyter_kernel.Prelude.Text.{Bytes, Text, lit}
use nu_jupyter_kernel.Prelude.Maybe.{◌>>=◌}
use nu_jupyter_kernel.Messages.{Header, Message, Host}
use nu_jupyter_kernel.Messages.Content.{OutgoingContent, Serde, content_to_string}
use nu_jupyter_kernel.Messages.Wire.{delimiter}

-- `ZmqMessage::try_from` refuses a message without frames.
unfoldable pub try_from : List Bytes → Option (List Bytes)
try_from [] = none
try_from (frame ∷ frames) = some (frame ∷ frames)

-- The four updates of the digest; a MAC reads the updates as one text.
unfoldable pub sign : Host → Bytes → Text → Text → Text → Text → Text
sign host key header parent_header metadata content =
    host.hex_encode (host.hmac_sha256 key (header ++ (parent_header ++ (metadata ++ content))))

-- The frames as `into_multipart_impl` chains them.
unfoldable pub chain : List Bytes → Text → Text → Text → Text → Text → List Bytes → List Bytes
chain ids signature header parent_header metadata content buffers =
    ids ++ (delimiter ∷ signature ∷ header ∷ parent_header ∷ metadata ∷ content ∷ buffers)

module _ {J : Type 0} (serde : Serde J) where
  unfoldable pub parent_to_string : Option Header → Option Text
  parent_to_string (some h) = serde.header_to_string h
  parent_to_string none = some (lit "{}")

  -- `into_multipart`, with the key of `DIGESTER`; `none` is a panic.
  unfoldable pub into_multipart :
      Host → Option Bytes → Message J (OutgoingContent J) → Option (List Bytes)
  unfolding parent_to_string try_from sign chain
  into_multipart host digester m = do
    header ← serde.header_to_string m.header
    parent_header ← parent_to_string m.parent_header
    metadata ← serde.metadata_to_string m.metadata
    content ← content_to_string serde m.content
    key ← digester
    let signature = sign host key header parent_header metadata content
    try_from (chain m.zmq_identities signature header parent_header metadata content m.buffers)
