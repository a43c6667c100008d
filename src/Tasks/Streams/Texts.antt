-- ===== src/Tasks/Streams/Texts.antt =====
-- What a reader of a stream sends: all that it reads, under the reply that is current.
use mathlib.Core.List.{append_assoc, append-nil}
use nu_jupyter_kernel.Prelude.{
  ◌≡◌, refl, sym, ap, ◌∙◌, ◌↔◌, ◌⊎◌, inl, inr, List, [], ◌∷◌, ◌++◌, none, some, Bool, true, false,
  length, ◌==◌,
}
use nu_jupyter_kernel.Prelude.Text.{Bytes, is_utf8}
use nu_jupyter_kernel.Messages.Content.{OutgoingContent, Writes}
use nu_jupyter_kernel.Messages.Iopub.{StreamName, IopubBroadcast}
use nu_jupyter_kernel.Nu.{Env, Process, Sent, iopub_queue}
use nu_jupyter_kernel.Outbox.{M}
use nu_jupyter_kernel.Outbox.Sends.{
  Sends, Sends-panic, Sends-return, Sends-bind, Sends-imp, Sends-compose, Sends-send,
}
use nu_jupyter_kernel.Outbox.Completes.{
  Completes, Any, HasKey, Completes-not_none, Completes-return, Completes-bind, Completes-compose,
  Completes-send,
}
use nu_jupyter_kernel.Tasks.Streams
use nu_jupyter_kernel.Tasks.Streams.{
  buffer_size, Read, failed, bytes, Event, read, update_reply, Reader, publish, flush, at_end,
  add_bytes, on_read, on_event, run,
}

abbrev broadcast_text : IopubBroadcast → Bytes
broadcast_text (IopubBroadcast.stream s) = s.text
broadcast_text (IopubBroadcast.display_data d) = []
broadcast_text IopubBroadcast.update_display_data = []
broadcast_text IopubBroadcast.execute_input = []
broadcast_text (IopubBroadcast.execute_result r) = []
broadcast_text (IopubBroadcast.error e) = []
broadcast_text (IopubBroadcast.status s) = []
broadcast_text IopubBroadcast.clear_output = []
broadcast_text IopubBroadcast.debug_event = []

abbrev content_text : {J : Type 0} → OutgoingContent J → Bytes
content_text (OutgoingContent.shell r) = []
content_text (OutgoingContent.iopub b) = broadcast_text b
content_text (OutgoingContent.control r) = []

-- The texts of the stream messages, one after the other.
unfoldable pub texts : {J : Type 0} → List (Sent J) → Bytes
texts [] = []
texts (x ∷ xs) = content_text x.message.content ++ texts xs

texts-append : {J : Type 0} (xs ys : List (Sent J)) → texts (xs ++ ys) ≡ texts xs ++ texts ys
unfolding texts
texts-append [] ys = refl
texts-append (x ∷ xs) ys =
    ap (λ t. content_text x.message.content ++ t) (texts-append xs ys)
    ∙ sym (append_assoc (content_text x.message.content) (texts xs) (texts ys))

abbrev event_bytes : Event → Bytes
event_bytes (read failed) = []
event_bytes (read (bytes b)) = b
event_bytes (update_reply ids header) = []

-- All that the pipe gave.
unfoldable pub all_bytes : List Event → Bytes
all_bytes [] = []
all_bytes (e ∷ events) = event_bytes e ++ all_bytes events

module _ (env : Env) (name : StreamName) where
  open env use {J, serde}

  -- A step keeps the bytes: those that it was given and those that it had are sent or still there.
  abbrev pub Keeps : Bytes → Reader → M J Reader → Type 0
  Keeps given r m = Sends (λ r' xs. texts xs ++ r'.s_buf ≡ r.s_buf ++ given) m

  publish-Keeps : (r : Reader) (b : Bool) → Keeps [] r (publish env name r b)
  unfolding publish texts
  publish-Keeps r false = Sends-panic _
  publish-Keeps r true =
      Sends-bind (λ m xs. (xs ≡ []) × (content_text m.content ≡ r.s_buf)) _ _ _
        (Sends-compose env _ _ _ _ _ (λ m _ _ _ e. (refl, ap content_text e)))
        λ m xs h.
          Sends-bind (λ _ ys. texts ys ≡ r.s_buf) _ _ _
            (Sends-send env _ iopub_queue m (λ frames. append-nil _ ∙ h.1))
            λ _ ys k.
              Sends-return _ _
                (rw (h.0) (append-nil _ ∙ ap texts (append-nil ys) ∙ k ∙ sym (append-nil r.s_buf)))

  flush-Keeps : (r : Reader) → Keeps [] r (flush env name r)
  unfolding flush
  flush-Keeps r = publish-Keeps r (is_utf8 r.s_buf)

  at_end-Keeps : (r : Reader) (b : Bytes) → Keeps [] r (at_end env name r b)
  unfolding at_end
  at_end-Keeps r [] = Sends-panic _
  at_end-Keeps r (b ∷ bs) = flush-Keeps r

  add_bytes-Keeps :
      (r : Reader) (got : Bytes) (full : Bool) → Keeps got r (add_bytes env name r got full)
  unfolding add_bytes texts
  add_bytes-Keeps r got true = Sends-return _ _ refl
  add_bytes-Keeps r got false =
      Sends-imp _ _ _ (λ r' xs h. h ∙ append-nil _)
        (flush-Keeps (record r { s_buf = r.s_buf ++ got }))

  on_event-Keeps : (r : Reader) (e : Event) → Keeps (event_bytes e) r (on_event env name r e)
  unfolding on_event on_read texts
  on_event-Keeps r (read failed) = Sends-panic _
  on_event-Keeps r (read (bytes [])) = at_end-Keeps r r.s_buf
  on_event-Keeps r (read (bytes (b ∷ bs))) = add_bytes-Keeps r (b ∷ bs) _
  on_event-Keeps r (update_reply ids header) = Sends-return _ _ (sym (append-nil r.s_buf))

  run-Keeps :
      (events : List Event) (r : Reader) → Keeps (all_bytes events) r (run env name events r)
  unfolding run all_bytes texts
  run-Keeps [] r = Sends-return _ r (sym (append-nil r.s_buf))
  run-Keeps (e ∷ events) r = Sends-bind _ _ _ _ (on_event-Keeps r e) λ r' xs h.
      Sends-imp _ _ _
        (λ r'' ys k.
          ap (λ t. t ++ r''.s_buf) (texts-append xs ys)
          ∙ append_assoc (texts xs) (texts ys) r''.s_buf
          ∙ ap (λ t. texts xs ++ t) k
          ∙ sym (append_assoc (texts xs) r'.s_buf (all_bytes events))
          ∙ ap (λ t. t ++ all_bytes events) h
          ∙ append_assoc r.s_buf (event_bytes e) (all_bytes events))
        (run-Keeps events r')

  -- Where the reader comes through without a panic, however the pipe cuts the output into reads
  -- and whatever updates come in between: the texts of the stream messages, and the bytes that
  -- wait for more, are what was read, in its order.
  pub run-texts :
      (events : List Event) (r : Reader) (p p' : Process J)
      → run env name events Streams.start p ≡ some (r, p')
      → (xs : List (Sent J)) × (p'.sent ≡ p.sent ++ xs) × (texts xs ++ r.s_buf ≡ all_bytes events)
  unfolding Streams.start
  run-texts events r p p' e = (run-Keeps events _).apply p r p' e

  -- The reads that end the kernel: a failure, no bytes with none waiting, and bytes that complete a
  -- message of which the whole is no UTF-8.
  abbrev pub Dies : Reader → Read → Type 0
  Dies r failed = Unit {0}
  Dies r (bytes []) = (r.s_buf ≡ []) ⊎ (is_utf8 r.s_buf ≡ false)
  Dies r (bytes (b ∷ bs)) =
      ((length (b ∷ bs) == buffer_size) ≡ false) × (is_utf8 (r.s_buf ++ b ∷ bs) ≡ false)

  module _ (w : Writes serde) where
    publish-Completes : (r : Reader) → Completes Any (publish env name r true)
    unfolding publish
    publish-Completes r = Completes-bind _ Any _ _ (Completes-compose env _ _ _ _) λ m _.
        Completes-bind _ Any _ _ (Completes-send env iopub_queue m w)
          (λ _ _. Completes-return _ _ tt)

    publish-none_iff :
        (r : Reader) (b : Bool) (p : Process J)
        → HasKey p
        → (publish env name r b p ≡ none) ↔ (b ≡ false)
    unfolding publish
    publish-none_iff r false p key = (λ h. refl, λ h. refl)
    publish-none_iff r true p key =
        (λ h. absurd (Completes-not_none (publish-Completes r) key h), λ h. absurd (cc))

    at_end-none_iff :
        (r : Reader) (b : Bytes) (p : Process J)
        → HasKey p
        → (at_end env name r b p ≡ none) ↔ ((b ≡ []) ⊎ (is_utf8 r.s_buf ≡ false))
    unfolding at_end flush
    at_end-none_iff r [] p key = (λ h. inl refl, λ h. refl)
    at_end-none_iff r (b ∷ bs) p key =
        let (to, from) = publish-none_iff r (is_utf8 r.s_buf) p key in
        (λ h. inr (to h), λ h. elim h [ inl e ↦ absurd (cc) | inr e ↦ from e ])

    add_bytes-none_iff :
        (r : Reader) (got : Bytes) (full : Bool) (p : Process J)
        → HasKey p
        → (add_bytes env name r got full p ≡ none)
          ↔ ((full ≡ false) × (is_utf8 (r.s_buf ++ got) ≡ false))
    unfolding add_bytes flush
    add_bytes-none_iff r got true p key = (λ h. absurd (cc), λ h. absurd (cc))
    add_bytes-none_iff r got false p key =
        let (to, from) =
          publish-none_iff (record r { s_buf = r.s_buf ++ got }) (is_utf8 (r.s_buf ++ got)) p key in
        (λ h. (refl, to h), λ h. from h.1)

    -- With a key and JSON that is written, a read ends the kernel exactly if it is a failure, or
    -- empty with no bytes waiting or bytes that are no UTF-8, or if it completes a message that is no
    -- UTF-8 as a whole: a character that two reads cut ends the kernel.
    pub on_read-none_iff :
        (r : Reader) (x : Read) (p : Process J)
        → HasKey p
        → (on_read env name r x p ≡ none) ↔ Dies r x
    unfolding on_read
    on_read-none_iff r failed p key = (λ h. tt, λ h. refl)
    on_read-none_iff r (bytes []) p key = at_end-none_iff r r.s_buf p key
    on_read-none_iff r (bytes (b ∷ bs)) p key =
        add_bytes-none_iff r (b ∷ bs) (length (b ∷ bs) == buffer_size) p key
