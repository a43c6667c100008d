-- ===== src/Tasks/Control/Interrupt.antt =====
-- Interrupts: the control task waits until a cell ends, and no longer.
use mathlib.Core.Path.{subst}
use nu_jupyter_kernel.Prelude.{
  ◌≡◌, refl, sym, ap, ◌∙◌, List, [], ◌∷◌, ◌++◌, Option, none, some, Bool, true, false, ◌↔◌, ◌≢◌,
}
use nu_jupyter_kernel.Prelude.Text.{Bytes, Text}
use nu_jupyter_kernel.Prelude.Flow.{Gives, Flow, panics}
use nu_jupyter_kernel.Messages.Content.{Writes}
use nu_jupyter_kernel.Messages.Control.{ControlRequest, ControlReplyOk, reply_type}
use nu_jupyter_kernel.Messages.Wire.{recv_control}
use nu_jupyter_kernel.Messages.Wire.Variants.{Answerable, recv_control-Answerable}
use nu_jupyter_kernel.Nu.{Env}
use nu_jupyter_kernel.Outbox.Completes.{
  Completes, Any, HasKey, Completes-bind, Completes-unwrap, Completes-compose, Completes-send,
}
use nu_jupyter_kernel.Tasks.Control.{
  Phase, receiving, polling, System, Request, send_reply, after, handle_request, look_at, poll,
  accept, receive, Step, request, look, reset, other, taken, Reach, here, next,
}

module _ (env : Env) where
  open env use {J, serde}

  abbrev pub IsReset : {s t : System J} {label : Option (Request env)} → Step env s t label → Type 0
  IsReset (reset e) = Unit {0}
  IsReset (request frames message idle got e) = ⊥
  IsReset (look message waiting e) = ⊥
  IsReset (other p xs grown quiet e) = ⊥

  -- The states that are reached while no cell ends.
  pub data Meanwhile (s : System J) : System J → List (Request env) → Type 0 where
    start : Meanwhile s s []
    later :
        {t u : System J} {requests : List (Request env)} {label : Option (Request env)}
        → Meanwhile s t requests
        → (st : Step env t u label) → (IsReset st → ⊥)
        → Meanwhile s u (requests ++ taken env label)

  abbrev pub Waiting : Request env → System J → Type 0
  Waiting message s = (s.phase ≡ polling message) × (s.interrupt_signal ≡ true)

  look_at-on :
      (message : Request env) (s t : System J) (signal : Bool)
      → signal ≡ true
      → look_at env message s signal ≡ some t
      → s ≡ t
  look_at-on message s t true on e = cc
  look_at-on message s t false on e = cc

  Step-Waiting :
      (message : Request env) {s t : System J} {label : Option (Request env)}
      (st : Step env s t label)
      → (IsReset st → ⊥)
      → Waiting message s
      → Waiting message t × (taken env label ≡ []) × (t.shutdowns ≡ s.shutdowns)
  unfolding poll
  Step-Waiting message {s} (request frames m idle got e) calm w = absurd (cc)
  Step-Waiting message {s} {t} (look m waiting e) calm w =
      let same = look_at-on m s t s.interrupt_signal w.1 e in
      (subst (Waiting message) same w, refl, sym (ap (λ (s : System J). s.shutdowns) same))
  Step-Waiting message (reset e) calm w = absurd (calm tt)
  Step-Waiting message {s} (other p xs grown quiet e) calm w =
      (subst (Waiting message) (sym e) w, refl, ap (λ (t : System J). t.shutdowns) e)

  -- From an interrupt on, as long as no cell ends, the control task takes in no request and sends no
  -- value on the shutdown channel, whatever the other tasks do: an interrupt without a running cell
  -- keeps every later request waiting, a shutdown too.
  pub Meanwhile-Waiting :
      (message : Request env) {s t : System J} {requests : List (Request env)}
      → Meanwhile s t requests
      → Waiting message s
      → Waiting message t × (requests ≡ []) × (t.shutdowns ≡ s.shutdowns)
  Meanwhile-Waiting message start w = (w, refl, refl)
  Meanwhile-Waiting message (later {t} {u} {requests} {label} r st calm) w =
      let (w', none_taken, kept) = Meanwhile-Waiting message r w in
      let (w'', none_now, kept') = Step-Waiting message st calm w' in
      (w'', ap (λ xs. xs ++ taken env label) none_taken ∙ none_now, kept' ∙ kept)

  module _ (w : Writes serde) where
    send_reply-Completes :
        (message : Request env) (reply : ControlReplyOk) (type : Text)
        → reply_type message.header.msg_type ≡ Flow.ok type
        → Completes Any (send_reply env message reply)
    unfolding send_reply
    send_reply-Completes message reply type known =
        Completes-bind _ _ _ _ (Completes-unwrap _ type known) λ t _.
          Completes-bind _ _ _ _ (Completes-compose env _ _ _ _) (λ m _. Completes-send env _ m w)

    -- With a key, JSON that is written and a request type that has a reply: where an interrupt is
    -- polled, the end of a cell and the next look lead to a state in which the task receives
    -- again, and no request is taken in before.
    pub poll_released :
        (message : Request env) (s : System J) (type : Text)
        → HasKey s.process
        → reply_type message.header.msg_type ≡ Flow.ok type
        → s.phase ≡ polling message
        → (t : System J) × Reach env s t [] × (t.phase ≡ receiving)
    unfolding poll
    poll_released message s type key known waiting =
        let calm : System J = record s { interrupt_signal = false } in
        let (u, p, e, _, _) =
          (send_reply-Completes message ControlReplyOk.interrupt type known).apply s.process key in
        (
          record calm { process = p; phase = receiving },
          next (next here (reset refl)) (look message waiting (ap (after env calm receiving) e)),
          refl,
        )

    after_sent :
        (message : Request env) (reply : ControlReplyOk) (s : System J) (phase : Phase J)
        (type : Text)
        → HasKey s.process
        → reply_type message.header.msg_type ≡ Flow.ok type
        → (t : System J) × (after env s phase (send_reply env message reply s.process) ≡ some t)
    after_sent message reply s phase type key known =
        let (u, p, e, _, _) = (send_reply-Completes message reply type known).apply s.process key in
        (record s { process = p; phase = phase }, ap (after env s phase) e)

    handle_request_total :
        (message : Request env) (content : ControlRequest) (s : System J) (type : Text)
        → HasKey s.process
        → reply_type message.header.msg_type ≡ Flow.ok type
        → content ≢ ControlRequest.debug
        → (t : System J) × (handle_request env message content s ≡ some t)
    unfolding handle_request
    handle_request_total message ControlRequest.kernel_info s type key known h =
        after_sent message _ s receiving type key known
    handle_request_total message (ControlRequest.shutdown shutdown) s type key known h =
        after_sent message _ (record s { shutdowns = s.shutdowns ++ shutdown ∷ [] }) _ type key
          known
    handle_request_total message ControlRequest.interrupt s type key known h = (_, refl)
    handle_request_total message ControlRequest.debug s type key known h = absurd (h refl)

    accept_total :
        (o : Flow (Unit {0}) (Request env)) (s : System J)
        → HasKey s.process
        → Gives (Answerable serde) o
        → (accept env s o ≡ none) ↔ ((m : Request env) → o ≢ Flow.ok m)
    accept_total (Flow.ok m) s key known =
        let ((type, typed), plain) = known.apply m refl in
        let (t, e) = handle_request_total m m.content s type key typed plain in
        (λ h. absurd (cc), λ h. absurd (h m refl))
    accept_total (Flow.err x) s key known = (λ h m e. cc, λ h. refl)
    accept_total panics s key known = (λ h m e. cc, λ h. refl)

    -- With a key and JSON that is written, the control task panics on frames exactly if they do not
    -- read as a request that it knows: a request of an unknown type ends the kernel.
    pub receive-none_iff :
        (frames : List Bytes) (s : System J)
        → HasKey s.process
        → (receive env frames s ≡ none)
          ↔ ((m : Request env) → recv_control serde frames ≢ Flow.ok m)
    unfolding receive
    receive-none_iff frames s key =
        accept_total (recv_control serde frames) s key (recv_control-Answerable serde frames)
