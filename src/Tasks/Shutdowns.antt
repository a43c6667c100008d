-- ===== src/Tasks/Shutdowns.antt =====
-- The shutdown channel of main.rs, a broadcast channel of capacity 1, and the shell task.
use nu_jupyter_kernel.Prelude.{◌≡◌, refl, List, [], ◌∷◌, ◌++◌, Option, none, some}
use nu_jupyter_kernel.Messages.{Shutdown}
use nu_jupyter_kernel.Nu.{Env}
use nu_jupyter_kernel.Shell.{Report, Context}
use nu_jupyter_kernel.Shell.Loop.{Event, shutdown, closed, handle}
use nu_jupyter_kernel.Shell.Rounds.{handle-stop}

-- `broadcast::Receiver::recv`, and no answer while there is nothing to receive.
pub data Received : Type 0 where
  waiting : Received
  value : Shutdown → Received
  lagged : Received
  ended : Received

-- `tokio::sync::broadcast` with capacity 1, as one receiver sees it: with a second value sent before
-- the first is received, the first is dropped and the receiver is told that it lagged.
pub record Broadcast : Type 1 where
  pub Receiver : Type 0
  pub send : Shutdown → Receiver → Receiver
  pub recv : Receiver → Received
  pub IsEmpty : Receiver → Type 0
  pub recv-one : (r : Receiver) (a : Shutdown) → IsEmpty r → recv (send a r) ≡ value a
  pub recv-two : (r : Receiver) (a b : Shutdown) → IsEmpty r → recv (send b (send a r)) ≡ lagged

-- The event of `select!` for what the shutdown channel gives.
unfoldable pub event_of : Received → Option Event
event_of waiting = none
event_of (value s) = some (shutdown s)
event_of lagged = some closed
event_of ended = some closed

module _ (channel : Broadcast) (env : Env) (report : Report env.nu) where
  open channel use {Receiver, send, recv, IsEmpty}

  -- Two values that are sent on the empty shutdown channel before the shell task receives one end
  -- its loop for good, also where both ask for a restart: the loop takes in an event after which
  -- what comes has no effect.
  pub two_restarts-stop :
      (r : Receiver) (a b : Shutdown) (before after : List Event) (ctx : Context env report)
      → IsEmpty r
      → (e : Event) × (event_of (recv (send b (send a r))) ≡ some e)
        × (handle env report (before ++ e ∷ after) ctx ≡ handle env report (before ++ e ∷ []) ctx)
  unfolding event_of
  two_restarts-stop r a b before after ctx h = (
    closed,
    rw (channel.recv-two r a b h) refl,
    handle-stop env report before after closed ctx tt,
  )
