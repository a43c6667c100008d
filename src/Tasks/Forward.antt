-- ===== src/Tasks/Forward.antt =====
-- handlers/mod.rs: the iopub and the heartbeat task, which pass on what comes in. What `select!`
-- yields is a list of events; a shutdown that is there comes first, since the choice is biased.
use nu_jupyter_kernel.Prelude.{
  ◌≡◌, refl, List, [], ◌∷◌, Option, none, some, if◌then◌else◌, arith, All,
}
use nu_jupyter_kernel.Messages.{Shutdown}

-- The item is missing where the queue has lost its senders, or the socket fails.
pub data Event (A : Type 0) : Type 0 where
  shutdown : Shutdown → Event A
  closed : Event A
  arrived : Option A → Event A

module _ {A : Type 0} where
  -- `handle` of both modules: what it sends, or `none` for the panic of an item that is missing.
  unfoldable pub forward : List (Event A) → Option (List A)
  forward [] = some []
  forward (shutdown s ∷ events) = let rest = forward events in if s.restart then rest else some []
  forward (closed ∷ events) = some []
  forward (arrived none ∷ events) = none
  forward (arrived (some a) ∷ events) = elim (forward events) [
    | none ↦ none
    | some rest ↦ some (a ∷ rest)
  ]

  -- The events up to the one that ends the task.
  unfoldable pub until_end : List (Event A) → List (Event A)
  until_end [] = []
  until_end (shutdown s ∷ events) =
      let rest = until_end events in if s.restart then shutdown s ∷ rest else []
  until_end (closed ∷ events) = []
  until_end (arrived o ∷ events) = arrived o ∷ until_end events

  -- Their items.
  unfoldable pub items : List (Event A) → List A
  items [] = []
  items (shutdown s ∷ events) = items events
  items (closed ∷ events) = items events
  items (arrived none ∷ events) = items events
  items (arrived (some a) ∷ events) = a ∷ items events

  abbrev pub IsThere : Event A → Type 0
  IsThere (shutdown s) = Unit {0}
  IsThere closed = Unit {0}
  IsThere (arrived none) = ⊥
  IsThere (arrived (some a)) = Unit {0}

  -- Where every item is there, the task sends exactly the items up to the end, in their order: a
  -- restart loses none of them, and what comes after the end is lost.
  pub forward-items :
      (events : List (Event A))
      → All IsThere events
      → forward events ≡ some (items (until_end events))
  unfolding forward until_end items
  forward-items [] h = refl
  forward-items (shutdown s ∷ events) h = ground (arith, forward-items events h.1)
  forward-items (closed ∷ events) h = refl
  forward-items (arrived none ∷ events) h = absurd h.0
  forward-items (arrived (some a) ∷ events) h = rw (forward-items events h.1) refl
