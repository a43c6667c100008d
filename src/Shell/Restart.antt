-- ===== src/Shell/Restart.antt =====
-- A restart by the loop of the shell channel, and the external commands after it.
use nu_jupyter_kernel.Prelude.{ℕ, ◌≡◌, refl, some, true}
use nu_jupyter_kernel.Nu.{Env, Process, already_enabled}
use nu_jupyter_kernel.Nu.External
use nu_jupyter_kernel.Nu.External.Once.{run_times, run_times_already}
use nu_jupyter_kernel.Shell.{Report, Context}
use nu_jupyter_kernel.Shell.Loop.{Event, running, step, apply_external}

module _ (env : Env) (report : Report env.nu) where
  open env use {nu, J}

  -- Where external commands are enabled when a restart comes, they are lost for good: the restart
  -- brings back the initial engine and stack and keeps the cell, and however often `nuju external`
  -- runs afterwards, the next execute request leaves the initial engine as it is before it runs
  -- the code.
  pub restart-loses_external :
      (initial ctx : Context env report) (p : Process J) (n : ℕ)
      → p.external ≡ already_enabled
      → (c : Context env report) × (step env report initial
            (Event.shutdown (record { restart = true }))
            ctx
            p
          ≡ some (running c, p))
        × (c.engine_state ≡ initial.engine_state)
        × (c.stack ≡ initial.stack)
        × (c.cell ≡ ctx.cell)
        × (apply_external env report c (record p { external = run_times n p.external })
            ≡ some (c, record p { external = already_enabled }))
  unfolding step apply_external External.apply
  restart-loses_external initial ctx p n e = (
    record ctx { engine_state = initial.engine_state; stack = initial.stack },
    refl,
    refl,
    refl,
    refl,
    rw (e, run_times_already n) refl,
  )
