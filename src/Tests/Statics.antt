-- ===== src/Tests/Statics.antt =====
-- The statics of the kernel after a restart and after a cell, at the small engine.
use nu_jupyter_kernel.Prelude.{◌≡◌, refl, some, true}
use nu_jupyter_kernel.Prelude.Text.{lit}
use nu_jupyter_kernel.Messages.{Message}
use nu_jupyter_kernel.Messages.Shell.{ShellRequest}
use nu_jupyter_kernel.Nu.{Process, already_enabled, err}
use nu_jupyter_kernel.Nu.External.Once.{run_times}
use nu_jupyter_kernel.Outbox.Completes.{HasKey}
use nu_jupyter_kernel.Shell.{HandlerContext, conclude}
use nu_jupyter_kernel.Shell.Loop.{Event, running, step, apply_external}
use nu_jupyter_kernel.Shell.Ends.{conclude_err-Completes}
use nu_jupyter_kernel.Shell.Restart.{restart-loses_external}
use nu_jupyter_kernel.Shell.Filter.{filter_after, conclude-filter_after}
use nu_jupyter_kernel.Tests.Kernel.{
  env, engine, report, json-Writes, request, execute_request, process, context,
}

abbrev enabled : Process (Unit {0})
enabled = record process { external = already_enabled }

abbrev later : HandlerContext engine
later = record context { engine_state = 107 }

restart-loses_external_example :
    (c : HandlerContext engine) × (step env report context
        (Event.shutdown (record { restart = true }))
        later
        enabled
      ≡ some (running c, enabled))
    × (c.engine_state ≡ 7)
    × (c.stack ≡ context.stack)
    × (c.cell ≡ later.cell)
    × (apply_external env report c (record enabled { external = run_times 3 already_enabled })
        ≡ some (c, enabled))
restart-loses_external_example = restart-loses_external env report context later enabled 3 refl

-- A cell that ran `nuju display html` and then failed.
abbrev filtered : Process (Unit {0})
filtered = record process { render_filter = some (lit "text/html") }

abbrev cell : Message (Unit {0}) (ShellRequest (Unit {0}))
cell = request (lit "execute_request") (ShellRequest.execute (execute_request (lit "error make")))

filtered-HasKey : HasKey filtered
filtered-HasKey = record { key = lit "key"; is_set = refl }

abbrev concluded :
    (ctx' : HandlerContext engine) × (p' : Process (Unit {0})) × (conclude env report context cell
        (lit "execute_reply")
        (context.stack, err tt)
        filtered
      ≡ some (ctx', p'))
concluded =
    let (ctx', p', e, _, _) =
      (conclude_err-Completes env report cell json-Writes context (lit "execute_reply")
          context.stack tt).apply
        filtered filtered-HasKey in
    (ctx', p', e)

conclude-filter_after_example :
    concluded.1.render_filter ≡ filter_after env (err tt) (some (lit "text/html"))
conclude-filter_after_example =
    conclude-filter_after env report cell context concluded.0 (lit "execute_reply")
      (context.stack, err tt) filtered concluded.1 concluded.2
