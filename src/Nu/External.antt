-- ===== src/Nu/External.antt =====
-- nu/commands/external.rs: external commands are enabled once, for the cells that follow.
pub mod Once
use nu_jupyter_kernel.Prelude.{
  ℕ, ◌+◌, ◌≤◌, ◌≡◌, refl, Option, none, some, List, [], ◌∷◌, arith, ltb, if◌then◌else◌,
}
use nu_jupyter_kernel.Nu.{Nu, ExternalState, disabled, just_enabled, already_enabled}

-- The numbers of the enum.
unfoldable pub rank : ExternalState → ℕ
rank disabled = 0
rank just_enabled = 1
rank already_enabled = 2

-- `AtomicExternalState::fetch_max`: the new state.
unfoldable pub fetch_max : ExternalState → ExternalState → ExternalState
unfolding rank
fetch_max old val = if ltb (rank old) (rank val) then val else old

-- `External::run`, the command `nuju external`
unfoldable pub run : ExternalState → ExternalState
unfolding fetch_max
run state = fetch_max state just_enabled

module _ (nu : Nu) where
  -- The engine merged, or a panic, since the caller unwraps the error.
  merged : nu.EngineState × Option nu.ShellError → Option (ExternalState × nu.EngineState)
  merged (engine, none) = some (already_enabled, engine)
  merged (engine, some e) = none

  -- `External::apply(..).unwrap()`
  unfoldable pub apply : ExternalState → nu.EngineState → Option (ExternalState × nu.EngineState)
  unfolding merged
  apply just_enabled engine = merged (nu.merge_delta engine (nu.external_delta engine))
  apply disabled engine = some (disabled, engine)
  apply already_enabled engine = some (already_enabled, engine)
