-- ===== src/Outbox.antt =====
-- How a message leaves the kernel: a header from the process, the frames, and the socket or queue.
-- A step is a function of the process; `none` is a panic, which ends the process by the hook of
-- main.rs (`set_avalanche_panic_hook`). The channel and the sockets take every message.
pub mod Sends
pub mod Completes
pub mod Exact
use nu_jupyter_kernel.Prelude.{List, [], ◌∷◌, ◌++◌, Option, none, some}
use nu_jupyter_kernel.Prelude.Text.{Bytes, Text}
use nu_jupyter_kernel.Prelude.Flow.{Flow, ok, err, panics}
use nu_jupyter_kernel.Messages.{Header, Message, new_header}
use nu_jupyter_kernel.Messages.Content.{OutgoingContent}
use nu_jupyter_kernel.Messages.Multipart.{into_multipart}
use nu_jupyter_kernel.Nu.{Env, Process, Route}

abbrev pub M : Type 0 → Type 0 → Type 0
M J A = Process J → Option (A × Process J)

infixl 5 ◌>>=◌ ◌>>◌
abbrev pub ◌>>=◌ : {J A B : Type 0} → M J A → (A → M J B) → M J B
◌>>=◌ m f p = elim (m p) [ none ↦ none | some (a, p') ↦ f a p' ]

abbrev pub ◌>>◌ : {J B : Type 0} → M J (Unit {0}) → M J B → M J B
m >> k = m >>= λ _. k

abbrev pub return : {J A : Type 0} → A → M J A
return a p = some (a, p)

-- `unwrap` of a `Result`.
abbrev pub unwrap : {J E A : Type 0} → Flow E A → M J A
unwrap (ok a) p = some (a, p)
unwrap (err e) p = none
unwrap panics p = none

module _ (env : Env) where
  open env use {J, serde, host}

  -- `Header::new`
  unfoldable pub fresh_header : Text → M J Header
  fresh_header msg_type p =
      let (h, g) = new_header host msg_type p.globals in some (h, record p { globals = g })

  -- The messages of the handlers, which differ in these four things.
  unfoldable pub compose :
      List Bytes → Text → Option Header → OutgoingContent J → M J (Message J (OutgoingContent J))
  unfolding fresh_header
  compose ids msg_type parent content = do
    header ← fresh_header msg_type
    return (record {
      zmq_identities = ids;
      header = header;
      parent_header = parent;
      metadata = serde.empty_object;
      content = content;
      buffers = [];
    })

  abbrev pub push : Route → Message J (OutgoingContent J) → List Bytes → Process J → Process J
  push route m frames p = record p {
    sent = p.sent ++ record { route = route; message = m; frames = frames } ∷ [];
  }

  unfoldable pub send : Route → Message J (OutgoingContent J) → M J (Unit {0})
  send route m p = elim (into_multipart serde host p.globals.key m) [
    | none ↦ none
    | some frames ↦ some (tt, push route m frames p)
  ]
