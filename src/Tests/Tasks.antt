-- ===== src/Tests/Tasks.antt =====
-- The tasks of the small kernel, at concrete events.
use nu_jupyter_kernel.Prelude.{
  ◌≡◌, ◌≢◌, ◌↔◌, refl, ap, inl, inr, List, [], ◌∷◌, ◌++◌, Option, none, some, true, false,
  Option-cases, ℕ,
}
use nu_jupyter_kernel.Prelude.Text.{lit, text_eq, is_utf8}
use nu_jupyter_kernel.Prelude.Flow
use nu_jupyter_kernel.Messages.{Message, Channel, Shutdown}
use nu_jupyter_kernel.Messages.Iopub.{StreamName}
use nu_jupyter_kernel.Messages.Shell
use nu_jupyter_kernel.Messages.Shell.{ShellRequest}
use nu_jupyter_kernel.Messages.Wire.{recv_shell, read_content}
use nu_jupyter_kernel.Messages.Wire.Variants.{recv_shell_of_content}
use nu_jupyter_kernel.Nu.{Process, Sent}
use nu_jupyter_kernel.Outbox.{◌>>=◌}
use nu_jupyter_kernel.Shell.Loop
use nu_jupyter_kernel.Shell.Loop.{Next, running, stopped, step, handle}
use nu_jupyter_kernel.Shell.Rounds.{BreaksOff, handle-none_iff}
use nu_jupyter_kernel.Tasks.Forward
use nu_jupyter_kernel.Tasks.Forward.{forward, items, until_end, forward-items}
use nu_jupyter_kernel.Tasks.Streams
use nu_jupyter_kernel.Tasks.Streams.{Read, bytes, Reader, on_read, run, on_event}
use nu_jupyter_kernel.Tasks.Streams.Texts.{texts, all_bytes, Dies, run-texts, on_read-none_iff}
use nu_jupyter_kernel.Tasks.Shutdowns.{
  Broadcast, Received, waiting, value, lagged, event_of, two_restarts-stop,
}
use nu_jupyter_kernel.Tests.Kernel.{
  env, report, json, json-Writes, header, request, execute_request, process, process-HasKey,
  context,
}
use nu_jupyter_kernel.Tests.Control.{frames, frames-read}

abbrev restart : Shutdown
restart = record { restart = true }

abbrev stop : Shutdown
stop = record { restart = false }

abbrev arrivals : List (Forward.Event ℕ)
arrivals =
    Forward.arrived (some 5)
    ∷ Forward.shutdown restart
    ∷ Forward.arrived (some 6)
    ∷ Forward.shutdown stop
    ∷ Forward.arrived (some 7)
    ∷ []

forward-items_example : forward arrivals ≡ some (items (until_end arrivals))
forward-items_example = forward-items arrivals (tt, (tt, (tt, (tt, (tt, tt)))))

-- The first byte of a character waits for the others.
abbrev half : Reader
half = record { message_data = ([], none); s_buf = 0xe2 ∷ [] }

on_read-none_iff_example :
    (on_read env StreamName.stdout half (bytes (0x82 ∷ [])) process ≡ none)
    ↔ Dies env StreamName.stdout half (bytes (0x82 ∷ []))
on_read-none_iff_example =
    on_read-none_iff env StreamName.stdout json-Writes half (bytes (0x82 ∷ [])) process
      process-HasKey

-- One channel, with the value that waits and whether another was dropped.
abbrev send_one : Shutdown → Option (Shutdown × Received) → Option (Shutdown × Received)
send_one s none = some (s, value s)
send_one s (some (a, r)) = some (s, lagged)

abbrev recv_one : Option (Shutdown × Received) → Received
recv_one none = waiting
recv_one (some (a, r)) = r

recv-one :
    (r : Option (Shutdown × Received)) (a : Shutdown) → r ≡ none → recv_one (send_one a r) ≡ value a
recv-one none a h = refl
recv-one (some x) a h = cc

recv-two :
    (r : Option (Shutdown × Received)) (a b : Shutdown)
    → r ≡ none
    → recv_one (send_one b (send_one a r)) ≡ lagged
recv-two none a b h = refl
recv-two (some x) a b h = refl

abbrev channel : Broadcast
channel = record {
  Receiver = Option (Shutdown × Received);
  send = send_one;
  recv = recv_one;
  IsEmpty = λ r. r ≡ none;
  recv-one = recv-one;
  recv-two = recv-two;
}

abbrev cell : Message (Unit {0}) (ShellRequest (Unit {0}))
cell =
    record (request (lit "execute_request")
      (ShellRequest.execute (execute_request (lit "{control}")))) {
        parent_header = some (header (lit "execute_request"));
      }

execute-read : recv_shell json (frames (lit "execute_request")) ≡ Flow.ok cell
unfolding read_content Shell.parse_variant text_eq
execute-read =
    recv_shell_of_content json _ _ _ tt [] cell.content (frames (lit "execute_request"))
      (frames-read Channel.shell (lit "execute_request"))

-- A cell, a restart, and the cell again.
abbrev pub session : List Loop.Event
session =
    Loop.received (frames (lit "execute_request"))
    ∷ Loop.shutdown restart
    ∷ Loop.received (frames (lit "execute_request"))
    ∷ []

handle-none_iff_example :
    (handle env report session context process ≡ none)
    ↔ BreaksOff env report context session (running context) process
handle-none_iff_example =
    handle-none_iff env report json-Writes session context process process-HasKey

two_restarts-stop_example :
    (e : Loop.Event) × (event_of (channel.recv (channel.send restart (channel.send restart none)))
      ≡ some e)
    × (handle env report (session ++ e ∷ session) context
        ≡ handle env report (session ++ e ∷ []) context)
two_restarts-stop_example =
    two_restarts-stop channel env report none restart restart session session context refl

-- The output of a cell in one read.
abbrev hello : List Streams.Event
hello = Streams.read (bytes (lit "hello")) ∷ []

hello-not_none : on_read env StreamName.stdout Streams.start (bytes (lit "hello")) process ≢ none
unfolding is_utf8 Streams.start
hello-not_none e =
    let (short, broken) =
      (on_read-none_iff env StreamName.stdout json-Writes Streams.start (bytes (lit "hello"))
          process process-HasKey).0
        e in
    cc broken

abbrev hello_run :
    (r : Reader) × (p' : Process (Unit {0})) × (run env StreamName.stdout hello Streams.start
        process
      ≡ some (r, p'))
unfolding run on_event
hello_run =
    elim (Option-cases
      (on_read env StreamName.stdout Streams.start (bytes (lit "hello")) process)) [
        | inl e ↦ absurd (hello-not_none e)
        | inr ((r, p'), e) ↦
            (r, p', ap (λ o. ◌>>=◌ (λ p. o) (run env StreamName.stdout []) process) e)
      ]

run-texts_example :
    (xs : List (Sent (Unit {0}))) × (hello_run.1.sent ≡ process.sent ++ xs)
    × (texts xs ++ hello_run.0.s_buf ≡ all_bytes hello)
run-texts_example =
    run-texts env StreamName.stdout hello hello_run.0 process hello_run.1 hello_run.2
