-- ===== src/Nu/External/Once.antt =====
-- External commands are enabled once and for all: the engine is given their declaration once.
use nu_jupyter_kernel.Prelude.{
  ℕ, zero, suc, ◌≡◌, refl, ◌≢◌, ◌⊎◌, inl, inr, Option, none, some, arith,
}
use nu_jupyter_kernel.Nu.{Nu, ExternalState, disabled, just_enabled, already_enabled}
use nu_jupyter_kernel.Nu.External.{rank, run, apply, merged}

-- `nuju external` any number of times.
unfoldable pub run_times : ℕ → ExternalState → ExternalState
run_times zero state = state
run_times (suc n) state = run_times n (run state)

run_already : run already_enabled ≡ already_enabled
unfolding run rank
run_already = refl

pub run_times_already : (n : ℕ) → run_times n already_enabled ≡ already_enabled
unfolding run_times
run_times_already zero = refl
run_times_already (suc n) = rw run_already (run_times_already n)

module _ (nu : Nu) where
  -- What holds of the engine that a cell runs on, the declaration of external commands merged where
  -- they have just been enabled.
  abbrev WhenMerged : nu.EngineState × Option nu.ShellError → (nu.EngineState → Type 0) → Type 0
  WhenMerged (engine, none) K = K engine
  WhenMerged (engine, some e) K = ⊥

  abbrev pub Enters : ExternalState → nu.EngineState → (nu.EngineState → Type 0) → Type 0
  Enters disabled engine K = K engine
  Enters just_enabled engine K = WhenMerged (nu.merge_delta engine (nu.external_delta engine)) K
  Enters already_enabled engine K = K engine

  -- `apply` returns an engine of which `Enters` speaks, or panics where it cannot hold.
  pub apply-Enters :
      (state : ExternalState) (engine : nu.EngineState) (K : nu.EngineState → Type 0)
      → ((state' : ExternalState) × (engine' : nu.EngineState) × (apply nu state engine
            ≡ some (state', engine'))
          × (◌≡◌ {A = Type 0} (Enters state engine K) (K engine')))
        ⊎ ((Enters state engine K → ⊥) × (apply nu state engine ≡ none))
  unfolding apply
  apply-Enters disabled engine K = inl (_, _, refl, refl)
  apply-Enters just_enabled engine K = go (nu.merge_delta engine (nu.external_delta engine))
    where
      go :
          (m : nu.EngineState × Option nu.ShellError)
          → ((state' : ExternalState) × (engine' : nu.EngineState) × (merged nu m
                ≡ some (state', engine'))
              × (◌≡◌ {A = Type 0} (WhenMerged m K) (K engine')))
            ⊎ ((WhenMerged m K → ⊥) × (merged nu m ≡ none))
      go (engine', none) = inl (_, _, refl, refl)
      go (engine', some e) = inr (λ h. h, refl)
  apply-Enters already_enabled engine K = inl (_, _, refl, refl)

  -- Where `apply` returns on a state that is not `disabled`, the state is then `already_enabled`,
  -- and to apply it again changes neither the state nor the engine, however often `nuju external`
  -- runs in between.
  pub apply_once :
      (state : ExternalState) (engine engine' : nu.EngineState) (state' : ExternalState) (n : ℕ)
      → state ≢ disabled
      → apply nu state engine ≡ some (state', engine')
      → apply nu (run_times n state') engine' ≡ some (already_enabled, engine')
  unfolding apply
  apply_once state engine engine' state' n h e = rw (done state h e, run_times_already n) refl
    where
      done :
          (s : ExternalState)
          → s ≢ disabled
          → apply nu s engine ≡ some (state', engine')
          → state' ≡ already_enabled
      done disabled k e = absurd (k refl)
      done just_enabled k e = ground arith
      done already_enabled k e = cc
