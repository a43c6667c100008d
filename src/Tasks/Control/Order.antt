-- ===== src/Tasks/Control/Order.antt =====
-- The replies on the control channel: each request once, in the order of the requests.
use mathlib.Core.Path.{subst}
use mathlib.Core.List.{append_assoc, append-nil, map-append}
use nu_jupyter_kernel.Prelude.{
  ◌≡◌, refl, sym, ap, ◌∙◌, ◌≢◌, List, [], ◌∷◌, ◌++◌, map, Option, none, some, Bool, true, false,
  if◌then◌else◌, All,
}
use nu_jupyter_kernel.Prelude.Text.{Bytes}
use nu_jupyter_kernel.Prelude.Flow.{Flow, panics}
use nu_jupyter_kernel.Messages.{Header, Message}
use nu_jupyter_kernel.Messages.Control.{ControlRequest, ControlReplyOk, reply_type}
use nu_jupyter_kernel.Messages.Wire.{recv_control}
use nu_jupyter_kernel.Nu.{Env, Process, Route, Sent, shell_socket, control_socket, iopub_queue}
use nu_jupyter_kernel.Outbox.Sends.{Sends, Sends-bind, Sends-unwrap, Sends-compose, Sends-send}
use nu_jupyter_kernel.Tasks.Control.{
  Phase, receiving, polling, stopped, System, Request, send_reply, after, handle_request, look_at,
  poll, accept, receive, Step, request, look, reset, other, taken, Reach, here, next,
}

-- Whom a message is for: the identities that it is routed by, and the header that it answers.
abbrev pub Address : Type 0
Address = List Bytes × Option Header

abbrev answered_on : Route → Address → List Address → List Address
answered_on shell_socket a rest = rest
answered_on control_socket a rest = a ∷ rest
answered_on iopub_queue a rest = rest

-- The addresses of the messages on the control socket.
unfoldable pub answered : {J : Type 0} → List (Sent J) → List Address
answered [] = []
answered (x ∷ xs) =
    answered_on x.route (x.message.zmq_identities, x.message.parent_header) (answered xs)

abbrev pub address : {J : Type 0} → Message J ControlRequest → Address
address message = (message.zmq_identities, some message.header)

-- An interrupt that is not over.
unfoldable pub pending : {J : Type 0} → Phase J → List Address
pending receiving = []
pending (polling message) = address message ∷ []
pending stopped = []

answered_on-append :
    (r : Route) (a : Address) (xs ys : List Address)
    → answered_on r a (xs ++ ys) ≡ answered_on r a xs ++ ys
answered_on-append shell_socket a xs ys = refl
answered_on-append control_socket a xs ys = refl
answered_on-append iopub_queue a xs ys = refl

answered-append :
    {J : Type 0} (xs ys : List (Sent J)) → answered (xs ++ ys) ≡ answered xs ++ answered ys
unfolding answered
answered-append [] ys = refl
answered-append (x ∷ xs) ys =
    ap (answered_on x.route _) (answered-append xs ys) ∙ answered_on-append x.route _ _ _

answered_on_quiet :
    (r : Route) (a : Address) (rest : List Address)
    → r ≢ control_socket
    → answered_on r a rest ≡ rest
answered_on_quiet shell_socket a rest h = refl
answered_on_quiet control_socket a rest h = absurd (h refl)
answered_on_quiet iopub_queue a rest h = refl

answered_quiet :
    {J : Type 0} (xs : List (Sent J))
    → All (λ (x : Sent J). x.route ≢ control_socket) xs
    → answered xs ≡ []
unfolding answered
answered_quiet [] h = refl
answered_quiet (x ∷ xs) h = answered_on_quiet x.route _ _ h.0 ∙ answered_quiet xs h.1

module _ (env : Env) where
  open env use {J, serde}

  send_reply-answered :
      (message : Request env) (reply : ControlReplyOk)
      → Sends (λ _ xs. answered xs ≡ address message ∷ []) (send_reply env message reply)
  unfolding send_reply answered
  send_reply-answered message reply =
      Sends-bind (λ _ xs. xs ≡ []) _ _ _
        (Sends-unwrap _ (reply_type message.header.msg_type) (λ a e. refl))
        λ type xs none.
          Sends-bind (λ m ys. (ys ≡ []) × ((m.zmq_identities, m.parent_header) ≡ address message)) _
            _ _ (Sends-compose env _ _ type _ _ (λ m e1 _ e2 _. (refl, cc)))
            λ m ys h.
              Sends-send env _ control_socket m (λ frames. rw (none, h.0) (ap (λ a. a ∷ []) h.1))

  -- The account of a state: what was answered and what is still to be.
  abbrev pub account : System J → List Address
  account s = answered s.process.sent ++ pending s.phase

  after-eq-some :
      (s : System J) (phase : Phase J) (o : Option (Unit {0} × Process J)) {t : System J}
      → after env s phase o ≡ some t
      → (p : Process J) × (o ≡ some (tt, p)) × (record s { process = p; phase = phase } ≡ t)
  after-eq-some s phase none e = cc
  after-eq-some s phase (some (u, p)) e = (p, refl, cc)

  -- A reply that ends a handler answers its request.
  after-account :
      (message : Request env) (reply : ControlReplyOk) (s t : System J) (phase : Phase J)
      → pending phase ≡ []
      → after env s phase (send_reply env message reply s.process) ≡ some t
      → account t ≡ answered s.process.sent ++ address message ∷ []
  after-account message reply s t phase idle e =
      let (p, sent, end) = after-eq-some s phase _ e in
      let (xs, grown, one) = (send_reply-answered message reply).apply s.process tt p sent in
      subst (λ (t : System J). account t ≡ answered s.process.sent ++ address message ∷ []) end
        (ap (λ q. answered p.sent ++ q) idle
          ∙ append-nil (answered p.sent)
          ∙ ap answered grown
          ∙ answered-append s.process.sent xs
          ∙ ap (λ q. answered s.process.sent ++ q) one)

  shutdown-idle : (b : Bool) → pending {J = J} (if b then receiving else stopped) ≡ []
  unfolding pending
  shutdown-idle true = refl
  shutdown-idle false = refl

  handle_request-account :
      (message : Request env) (content : ControlRequest) (s t : System J)
      → handle_request env message content s ≡ some t
      → account t ≡ answered s.process.sent ++ address message ∷ []
  unfolding handle_request pending
  handle_request-account message ControlRequest.kernel_info s t e =
      after-account message _ s t receiving refl e
  handle_request-account message (ControlRequest.shutdown shutdown) s t e =
      after-account message _ (record s { shutdowns = s.shutdowns ++ shutdown ∷ [] }) t _
        (shutdown-idle shutdown.restart) e
  handle_request-account message ControlRequest.interrupt s t e =
      let end : record s { interrupt_signal = true; phase = polling message } ≡ t = cc in
      subst (λ (t : System J). account t ≡ answered s.process.sent ++ address message ∷ []) end refl
  handle_request-account message ControlRequest.debug s t e = cc

  accept-account :
      (message : Request env) (o : Flow (Unit {0}) (Request env)) (s t : System J)
      → o ≡ Flow.ok message
      → accept env s o ≡ some t
      → account t ≡ answered s.process.sent ++ address message ∷ []
  accept-account message (Flow.ok m) s t got e =
      let same : m ≡ message = cc in
      subst (λ m. account t ≡ answered s.process.sent ++ address m ∷ []) same
        (handle_request-account m m.content s t e)
  accept-account message (Flow.err x) s t got e = cc
  accept-account message panics s t got e = cc

  look_at-account :
      (message : Request env) (s t : System J) (signal : Bool)
      → s.phase ≡ polling message
      → look_at env message s signal ≡ some t
      → account t ≡ account s
  unfolding pending
  look_at-account message s t true waiting e =
      let same : s ≡ t = cc in sym (ap (λ (s : System J). account s) same)
  look_at-account message s t false waiting e =
      after-account message ControlReplyOk.interrupt s t receiving refl e
      ∙ sym (ap (λ phase. answered s.process.sent ++ pending phase) waiting)

  Step-account :
      {s t : System J} {label : Option (Request env)}
      → Step env s t label
      → account t ≡ account s ++ map address (taken env label)
  unfolding receive poll pending
  Step-account {s} {t} (request frames message idle got e) =
      accept-account message (recv_control serde frames) s t got e
      ∙ ap (λ xs. xs ++ address message ∷ [])
          (sym (append-nil (answered s.process.sent))
            ∙ sym (ap (λ phase. answered s.process.sent ++ pending phase) idle))
  Step-account {s} {t} (look message waiting e) =
      look_at-account message s t s.interrupt_signal waiting e ∙ sym (append-nil _)
  Step-account {s} {t} (reset e) = ap (λ (t : System J). account t) e ∙ sym (append-nil _)
  Step-account {s} {t} (other p xs grown quiet e) =
      ap (λ (t : System J). account t) e
      ∙ ap (λ sent. sent ++ pending s.phase)
          (ap answered grown
            ∙ answered-append s.process.sent xs
            ∙ ap (λ q. answered s.process.sent ++ q) (answered_quiet xs quiet)
            ∙ append-nil _)
      ∙ sym (append-nil _)

  -- However the control task, the shell task and the others interleave: the replies on the control
  -- socket, and the one that a running interrupt still owes, answer the requests taken in, each once
  -- and in their order, to their senders and under their headers.
  pub Reach-account :
      {s t : System J} {requests : List (Request env)}
      → Reach env s t requests
      → account t ≡ account s ++ map address requests
  Reach-account {s} here = sym (append-nil (account s))
  Reach-account {s} (next {t} {u} {requests} {label} r st) =
      Step-account st
      ∙ ap (λ xs. xs ++ map address (taken env label)) (Reach-account r)
      ∙ append_assoc (account s) (map address requests) (map address (taken env label))
      ∙ ap (λ xs. account s ++ xs) (sym (map-append address requests (taken env label)))
