-- ===== src/Nu/EngineSetup.antt =====
-- nu/mod.rs, `initial_engine_state` and `configure_engine_state`: the engine before the kernel's own
-- commands.
pub mod Paths
use nu_jupyter_kernel.Prelude.{List, Option, none, some, Bool, false, true}
use nu_jupyter_kernel.Prelude.Text.{Text, lit}
use nu_jupyter_kernel.Nu.Environment.{Engine, add_env_context}

-- Nushell's crates over the state of the engine. `push` is `PathBuf::push`.
pub record Crates (State : Type 0) : Type 0 where
  pub create_default_context : State
  -- `history_enabled`, `is_interactive` and `is_login`
  pub set_flags : Bool → Bool → Bool → State → State
  pub set_config_path : Text → Text → State → State
  pub generate_nu_constant : State → State
  -- the constant `$nu`, if it has a value, and its `plugin-path`, if that is a text
  pub plugin_path_of_nu : State → Option (Option Text)
  pub set_plugin_path : Option Text → State → State
  pub add_shell_command_context : State → State
  pub add_extra_command_context : State → State
  pub add_plugin_command_context : State → State
  -- as the feature `nu-plotters` says: `add_plotters_command_context`, or nothing
  pub add_plotters_command_context : State → State
  pub push : Text → Text → Text

module _ {State : Type 0} (crates : Crates State) where
  with_config_paths : Option Text → State → State
  with_config_paths none state = state
  with_config_paths (some current_dir) state =
      let config_dir = crates.push current_dir (lit ".nu") in
      crates.set_config_path (lit "env-path") (crates.push config_dir (lit "env.nu")) (
        crates.set_config_path (lit "config-path") (crates.push config_dir (lit "config.nu")) state)

  with_plugin_path : Option (Option Text) → State → State
  with_plugin_path none state = state
  with_plugin_path (some path) state = crates.set_plugin_path path state

  unfoldable pub configure_engine_state : Option Text → State → State
  unfolding with_config_paths with_plugin_path
  configure_engine_state current_dir state =
      let generated =
        crates.generate_nu_constant
          (with_config_paths current_dir (crates.set_flags false false false state)) in
      with_plugin_path (crates.plugin_path_of_nu generated) generated

module _ (engine : Engine) (crates : Crates engine.EngineState) where
  unfoldable pub initial_engine_state : List (Text × Text) → Option Text → engine.EngineState
  unfolding configure_engine_state add_env_context
  initial_engine_state vars current_dir = crates.add_plotters_command_context (
      crates.add_plugin_command_context (
        crates.add_extra_command_context (
          crates.add_shell_command_context (
            add_env_context engine vars current_dir
              (configure_engine_state crates current_dir crates.create_default_context)))))
