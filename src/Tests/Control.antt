-- ===== src/Tests/Control.antt =====
-- Requests on the control channel of the small kernel.
use mathlib.Core.Path.{subst}
use nu_jupyter_kernel.Prelude.{
  ◌≡◌, ◌≢◌, ◌↔◌, refl, sym, ap, inl, inr, List, [], ◌∷◌, ◌++◌, none, some, map, true, false,
  Option-cases,
}
use nu_jupyter_kernel.Prelude.Text.{Bytes, Text, lit, text_eq}
use nu_jupyter_kernel.Prelude.Flow
use nu_jupyter_kernel.Messages.{Message, Channel}
use nu_jupyter_kernel.Messages.Control
use nu_jupyter_kernel.Messages.Control.{ControlRequest, ControlReply, ControlReplyOk, reply_type}
use nu_jupyter_kernel.Messages.Content.{OutgoingContent, content_to_string}
use nu_jupyter_kernel.Messages.Wire.{recv, recv_control, read_content}
use nu_jupyter_kernel.Messages.Wire.Framing.{recv-into_multipart, assemble}
use nu_jupyter_kernel.Messages.Multipart.{chain, into_multipart}
use nu_jupyter_kernel.Messages.Wire.Variants.{recv_control_of_content}
use nu_jupyter_kernel.Tasks.Control.{
  System, receiving, polling, Request, receive, handle_request, poll, accept, request, look, Reach,
  here, next,
}
use nu_jupyter_kernel.Tasks.Control.Order.{account, address, Reach-account}
use nu_jupyter_kernel.Tasks.Control.Interrupt.{
  Meanwhile, Meanwhile-Waiting, Waiting, start, later, poll_released, receive-none_iff,
}
use nu_jupyter_kernel.Tests.Codec.{header_to_text}
use nu_jupyter_kernel.Tests.Kernel.{
  env, json, json-Reads, json-Writes, host, header, process, process-HasKey,
}
use nu_jupyter_kernel.Tests.Wire.{id_plain, hex-utf8}

-- A message that a client sends; its content is one that the small kernel does not read.
abbrev sent : Text → Message (Unit {0}) (OutgoingContent (Unit {0}))
sent type = record {
  zmq_identities = lit "id" ∷ [];
  header = header type;
  parent_header = some (header type);
  metadata = tt;
  content = OutgoingContent.control (ControlReply.ok ControlReplyOk.interrupt);
  buffers = [];
}

abbrev pub frames : Text → List Bytes
frames type =
    chain (lit "id" ∷ []) (lit "5a") (header_to_text (header type)) (header_to_text (header type))
      (lit "{}") (lit "{control}") []

frames-sent :
    (type : Text) → into_multipart json host (some (lit "key")) (sent type) ≡ some (frames type)
unfolding into_multipart content_to_string chain
frames-sent type = refl

abbrev message : Text → ControlRequest → Request env
message type content = record {
  zmq_identities = lit "id" ∷ [];
  header = header type;
  parent_header = some (header type);
  metadata = tt;
  content = content;
  buffers = [];
}

pub frames-read :
    (source : Channel) (type : Text)
    → recv json source (frames type)
      ≡ assemble json
          (lit "id" ∷ [])
          (header type)
          (some (header type))
          tt
          []
          (read_content json source type (lit "{control}"))
unfolding content_to_string
frames-read source type =
    let (body, same, e) =
      recv-into_multipart json host (some (lit "key")) (sent type) source json-Reads hex-utf8
        (id_plain, tt) (frames-sent type) in
    let plain : lit "{control}" ≡ body = cc same in
    subst
      (λ b.
        recv json source (frames type)
        ≡ assemble json (lit "id" ∷ []) (header type) (some (header type)) tt []
            (read_content json source type b))
      (sym plain) e

interrupt-read :
    recv_control json (frames (lit "interrupt_request"))
    ≡ Flow.ok (message (lit "interrupt_request") ControlRequest.interrupt)
unfolding read_content Control.parse_variant text_eq
interrupt-read =
    recv_control_of_content json _ _ _ tt [] ControlRequest.interrupt
      (frames (lit "interrupt_request")) (frames-read Channel.control (lit "interrupt_request"))

info-read :
    recv_control json (frames (lit "kernel_info_request"))
    ≡ Flow.ok (message (lit "kernel_info_request") ControlRequest.kernel_info)
unfolding read_content Control.parse_variant text_eq
info-read =
    recv_control_of_content json _ _ _ tt [] ControlRequest.kernel_info
      (frames (lit "kernel_info_request")) (frames-read Channel.control (lit "kernel_info_request"))

abbrev idle : System (Unit {0})
idle = record { process = process; phase = receiving; interrupt_signal = false; shutdowns = [] }

abbrev interrupt : Request env
interrupt = message (lit "interrupt_request") ControlRequest.interrupt

abbrev interrupted : System (Unit {0})
interrupted = record idle { phase = polling interrupt; interrupt_signal = true }

interrupt-received : receive env (frames (lit "interrupt_request")) idle ≡ some interrupted
unfolding receive handle_request
interrupt-received = ap (accept env idle) interrupt-read

receive-none_iff_example :
    (receive env (frames (lit "kernel_info_request")) idle ≡ none)
    ↔ ((m : Request env) → recv_control json (frames (lit "kernel_info_request")) ≢ Flow.ok m)
receive-none_iff_example =
    receive-none_iff env json-Writes (frames (lit "kernel_info_request")) idle process-HasKey

abbrev info : Request env
info = message (lit "kernel_info_request") ControlRequest.kernel_info

abbrev answered_info :
    (t : System (Unit {0})) × (receive env (frames (lit "kernel_info_request")) idle ≡ some t)
answered_info = elim (Option-cases (receive env (frames (lit "kernel_info_request")) idle)) [
  | inl e ↦ absurd (
      (receive-none_iff env json-Writes (frames (lit "kernel_info_request")) idle process-HasKey).0
        e info info-read)
  | inr h ↦ h
]

-- The kernel has replied to one request.
abbrev info_taken : Reach env idle answered_info.0 (info ∷ [])
info_taken =
    next here (request (frames (lit "kernel_info_request")) info refl info-read answered_info.1)

Reach-account_example : account env answered_info.0 ≡ account env idle ++ map address (info ∷ [])
Reach-account_example = Reach-account env info_taken

-- A look while the cell still runs.
looked : Meanwhile env interrupted interrupted []
unfolding poll
looked = later start (look interrupt refl refl) (λ h. h)

Meanwhile-Waiting_example :
    Waiting env interrupt interrupted
    × (◌≡◌ {A = List (Request env)} [] [])
    × (interrupted.shutdowns ≡ interrupted.shutdowns)
Meanwhile-Waiting_example = Meanwhile-Waiting env interrupt looked (refl, refl)

interrupt_known : reply_type (lit "interrupt_request") ≡ Flow.ok (lit "interrupt_reply")
unfolding reply_type text_eq
interrupt_known = refl

poll_released_example : (t : System (Unit {0})) × Reach env interrupted t [] × (t.phase ≡ receiving)
poll_released_example =
    poll_released env json-Writes interrupt interrupted (lit "interrupt_reply") process-HasKey
      interrupt_known refl
