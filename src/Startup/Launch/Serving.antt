-- ===== src/Startup/Launch/Serving.antt =====
-- A kernel that has started serves its requests.
use mathlib.Core.Path.{subst}
use nu_jupyter_kernel.Prelude.{◌≡◌, refl, sym, ap, ◌↔◌, List, Option, none, some}
use nu_jupyter_kernel.Prelude.Text.{Text, Bytes}
use nu_jupyter_kernel.Prelude.Maybe.{◌>>=◌}
use nu_jupyter_kernel.Messages.{Globals, Host, key_init}
use nu_jupyter_kernel.Messages.Content.{Serde, Writes}
use nu_jupyter_kernel.Nu.{Nu}
use nu_jupyter_kernel.Nu.FormatDecls.{find}
use nu_jupyter_kernel.Shell.{Report}
use nu_jupyter_kernel.Shell.Loop.{Event, running, handle}
use nu_jupyter_kernel.Shell.Rounds.{BreaksOff, handle-none_iff}
use nu_jupyter_kernel.Startup.Sockets.{Zmq}
use nu_jupyter_kernel.Startup.Sockets
use nu_jupyter_kernel.Startup.Launch.{
  Setup, Started, initial_globals, process, start_kernel, with_nuju_module,
  hide_incompatible_commands, register_konst, unwrap, unless_failed,
}

-- `P` holds of what is there.
record Holds {A : Type 0} (P : A → Type 0) (m : Option A) : Type 0 where
  apply : (a : A) → m ≡ some a → P a

Holds-bind :
    {A B : Type 0} (P : B → Type 0) (m : Option A) (k : A → Option B)
    → ((a : A) → m ≡ some a → Holds P (k a))
    → Holds P (m >>= k)
Holds-bind P none k h = record { apply = λ b e. cc }
Holds-bind P (some a) k h = h a refl

Holds-some : {A : Type 0} (P : A → Type 0) (a : A) → P a → Holds P (some a)
Holds-some P a h = record { apply = λ b e. let same : a ≡ b = cc e in subst P same h }

key_init-initial :
    (key : Bytes) (g : Globals) → key_init key initial_globals ≡ some g → g.key ≡ some key
unfolding key_init initial_globals
key_init-initial key g e =
    let same : record { session = none; message_counter = 0; key = some key } ≡ g = cc e in
    ap (λ (x : Globals). x.key) (sym same)

module _ (nu : Nu) (setup : Setup nu) (zmq : Zmq) where
  HasItsKey : Started nu zmq → Type 0
  HasItsKey started = started.globals.key ≡ some started.file.key

  start_kernel-key :
      (path : Text) (initial : nu.EngineState) (net : zmq.Net)
      → Holds HasItsKey (start_kernel nu setup zmq path initial net)
  unfolding start_kernel HasItsKey
  start_kernel-key path initial net = Holds-bind HasItsKey (setup.from_path path) _ λ file e0.
      Holds-bind HasItsKey (unwrap (Sockets.start zmq file net)) _ λ bound e1.
        Holds-bind HasItsKey (key_init file.key initial_globals) _ λ globals e2.
          Holds-bind HasItsKey (unwrap (find (setup.decls_sorted initial))) _ λ decls e3.
            Holds-bind HasItsKey (with_nuju_module nu setup initial) _ λ engine e4.
              Holds-bind HasItsKey (hide_incompatible_commands nu setup engine) _ λ engine' e5.
                Holds-bind HasItsKey (register_konst nu setup engine') _ λ engine'' e6.
                  Holds-bind HasItsKey (unless_failed setup.streams_start) _
                    λ u e7. Holds-some HasItsKey _ (key_init-initial file.key globals e2)

  -- Where a kernel starts, on whatever connection file, and comes through with its sockets bound, its
  -- engine set up and its streams there, and where the JSON is written: its tasks start with the key of
  -- the file, and over a sequence of events its shell task panics exactly if there are frames among
  -- them that, in the state in which the loop takes them in, do not read without a panic or are a
  -- request that cannot be served to its end.
  pub start_kernel-handle :
      {J : Type 0} (serde : Serde J) (host : Host) (report : Report nu) (path : Text)
      (initial : nu.EngineState) (net : zmq.Net) (started : Started nu zmq) (events : List Event)
      → start_kernel nu setup zmq path initial net ≡ some started
      → Writes serde
      → (started.globals.key ≡ some started.file.key)
        × ((handle
                (record { nu = nu; J = J; serde = serde; host = host; decls = started.decls })
                report
                events
                started.context
                (process started.globals)
              ≡ none)
            ↔ BreaksOff
                (record { nu = nu; J = J; serde = serde; host = host; decls = started.decls })
                report
                started.context
                events
                (running started.context)
                (process started.globals))
  unfolding HasItsKey process
  start_kernel-handle serde host report path initial net started events e writes =
      let key = (start_kernel-key path initial net).apply started e in
      (
        key,
        handle-none_iff _ report writes events started.context (process started.globals)
            (record { key = started.file.key; is_set = key }),
      )
