-- ===== src/Nu/EngineSetup/Paths.antt =====
-- Where the engine looks for its configuration.
use nu_jupyter_kernel.Prelude.{◌≡◌, refl, ◌∙◌, Option, none, some}
use nu_jupyter_kernel.Prelude.Text.{Text, lit}
use nu_jupyter_kernel.Nu.EngineSetup.{Crates, configure_engine_state, with_plugin_path}

module _ {State : Type 0} (crates : Crates State) where
  -- `get_config_path` reads what was set last under a name, and the other steps keep it.
  pub record KeepsPaths (get_config_path : Text → State → Option Text) : Type 0 where
    pub of_env :
        (path : Text) (s : State)
        → get_config_path (lit "env-path") (crates.set_config_path (lit "env-path") path s)
          ≡ some path
    pub of_config :
        (path : Text) (s : State)
        → get_config_path (lit "config-path") (crates.set_config_path (lit "config-path") path s)
          ≡ some path
    pub config_kept :
        (path : Text) (s : State)
        → get_config_path (lit "config-path") (crates.set_config_path (lit "env-path") path s)
          ≡ get_config_path (lit "config-path") s
    pub by_constant :
        (name : Text) (s : State)
        → get_config_path name (crates.generate_nu_constant s) ≡ get_config_path name s
    pub by_plugins :
        (name : Text) (p : Option Text) (s : State)
        → get_config_path name (crates.set_plugin_path p s) ≡ get_config_path name s

  module _ (get_config_path : Text → State → Option Text) (keeps : KeepsPaths get_config_path) where
    plugins_kept :
        (name : Text) (p : Option (Option Text)) (s : State)
        → get_config_path name (with_plugin_path crates p s) ≡ get_config_path name s
    unfolding with_plugin_path
    plugins_kept name none s = refl
    plugins_kept name (some p) s = keeps.by_plugins name p s

    -- With a current directory, both files of the configuration are looked for in its `.nu`.
    pub configure_engine_state-paths :
        (dir : Text) (s : State)
        → (get_config_path (lit "config-path") (configure_engine_state crates (some dir) s)
            ≡ some (crates.push (crates.push dir (lit ".nu")) (lit "config.nu")))
          × (get_config_path (lit "env-path") (configure_engine_state crates (some dir) s)
              ≡ some (crates.push (crates.push dir (lit ".nu")) (lit "env.nu")))
    unfolding configure_engine_state
    configure_engine_state-paths dir s = (
      plugins_kept _ _ _ ∙ keeps.by_constant _ _ ∙ keeps.config_kept _ _ ∙ keeps.of_config _ _,
      plugins_kept _ _ _ ∙ keeps.by_constant _ _ ∙ keeps.of_env _ _,
    )
