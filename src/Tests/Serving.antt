-- ===== src/Tests/Serving.antt =====
-- Requests served by the small kernel.
use nu_jupyter_kernel.Prelude.{◌≡◌, refl, List, [], ◌++◌, none, some, inl, inr}
use nu_jupyter_kernel.Prelude.Text.{Text, lit, text_eq}
use nu_jupyter_kernel.Prelude.Flow
use nu_jupyter_kernel.Messages.{Message}
use nu_jupyter_kernel.Messages.Shell.{ShellRequest, ShellReply, reply_type}
use nu_jupyter_kernel.Nu.{Env, Process, Sent, disabled, err}
use nu_jupyter_kernel.Nu.Execute.{modify_last, redirect_last}
use nu_jupyter_kernel.Nu.Render.{plain}
use nu_jupyter_kernel.Nu.Commands.{to_render, format_mime}
use nu_jupyter_kernel.Shell.{HandlerContext, Report}
use nu_jupyter_kernel.Shell.Loop.{serve, dispatch, handle_execute_request, enter_cell}
use nu_jupyter_kernel.Shell.Brackets.{Served, serve-Served}
use nu_jupyter_kernel.Shell.Progress.{serve_answers, dispatch-Ending}
use nu_jupyter_kernel.Shell.Ends.{Ends}
use nu_jupyter_kernel.Shell.Counters.{execute-Counts, EndsWith, Counts}
use nu_jupyter_kernel.Tests.Kernel.{
  env, engine, decls, host, json, report, json-Writes, request, execute_request, process,
  process-HasKey, context,
}

abbrev cell : Text → Message (Unit {0}) (ShellRequest (Unit {0}))
cell code = request (lit "execute_request") (ShellRequest.execute (execute_request code))

abbrev Answered : Text → Type 0
Answered code =
    (ctx' : HandlerContext engine) × (p' : Process (Unit {0})) × (serve env report (cell code)
        context process
      ≡ some (ctx', p'))
    × ((xs : List (Sent (Unit {0}))) × (p'.sent ≡ process.sent ++ xs)
        × Served env report (cell code) xs)

execute_known : reply_type (lit "execute_request") ≡ Flow.ok (lit "execute_reply")
unfolding reply_type text_eq
execute_known = refl

sum-Ends : Ends env report (cell (lit "1 + 2")) (cell (lit "1 + 2")).content context disabled
unfolding text_eq enter_cell redirect_last modify_last plain
sum-Ends = (lit "1 + 2", refl, lit "1 + 2", refl)

failing-Ends :
    Ends env report (cell (lit "error make")) (cell (lit "error make")).content context disabled
unfolding text_eq enter_cell redirect_last modify_last
failing-Ends = tt

-- A cell that prints a value.
printing-Ends :
    Ends env report
      (cell (lit "nuju print hi"))
      (cell (lit "nuju print hi")).content
      context
      disabled
unfolding text_eq enter_cell redirect_last modify_last plain to_render format_mime
printing-Ends = ((lit "hi", refl, lit "hi", refl), tt)

serve_answers_example :
    (Ends env report (cell (lit "1 + 2")) (cell (lit "1 + 2")).content context disabled
      → Answered (lit "1 + 2"))
    × ((Ends env report (cell (lit "1 + 2")) (cell (lit "1 + 2")).content context disabled → ⊥)
        → serve env report (cell (lit "1 + 2")) context process ≡ none)
serve_answers_example =
    serve_answers env report (cell (lit "1 + 2")) json-Writes (lit "execute_reply") execute_known
      context process process-HasKey

-- The same cell, at the theorem for a request that was served.
abbrev served : Answered (lit "1 + 2")
served =
    (serve_answers env report (cell (lit "1 + 2")) json-Writes (lit "execute_reply") execute_known
        context process process-HasKey).0
      sum-Ends

-- An engine whose pipeline data has no value: the same cell panics.
abbrev unreadable : Env
unreadable = record {
  nu = record engine { into_value = λ d. err tt };
  J = Unit {0};
  serde = json;
  host = host;
  decls = decls;
}

abbrev unread : Report unreadable.nu
unread = record { code = λ e x. lit "nu::shell::error"; fmt = λ e x. lit "failed" }

abbrev at_start : HandlerContext unreadable.nu
at_start = record {
  engine_state = 7;
  stack = none;
  cell = context.cell;
  stdout_reply = ([], none);
  stderr_reply = ([], none);
}

sum_panics : serve unreadable unread (cell (lit "1 + 2")) at_start process ≡ none
unfolding text_eq enter_cell redirect_last modify_last
sum_panics =
    (serve_answers unreadable unread (cell (lit "1 + 2")) json-Writes (lit "execute_reply")
        execute_known at_start process process-HasKey).1
      (λ h. cc (h.1))

serve-Served_example :
    (xs : List (Sent (Unit {0}))) × (served.1.sent ≡ process.sent ++ xs)
    × Served env report (cell (lit "1 + 2")) xs
serve-Served_example =
    serve-Served env report (cell (lit "1 + 2")) context served.0 process served.1 served.2

-- A cell that fails, from the handler of execute requests.
abbrev failed :
    (ctx' : HandlerContext engine) × (p' : Process (Unit {0})) × (handle_execute_request env report
        (cell (lit "error make"))
        (execute_request (lit "error make"))
        context
        process
      ≡ some (ctx', p'))
unfolding dispatch
failed =
    elim (dispatch-Ending env report (cell (lit "error make")) json-Writes (lit "execute_reply")
      execute_known (ShellRequest.execute (execute_request (lit "error make"))) context process
      process-HasKey) [
        | inl (_, ctx', p', e, _) ↦ (ctx', p', e)
        | inr (fails, _) ↦ absurd (fails failing-Ends)
      ]

execute-Counts_example :
    (xs : List (Sent (Unit {0}))) × (failed.1.sent ≡ process.sent ++ xs)
    × ((reply : ShellReply (Unit {0})) × EndsWith env report (cell (lit "error make")) reply xs
        × Counts env report (cell (lit "error make")) context.cell failed.0.cell reply)
execute-Counts_example =
    execute-Counts env report (cell (lit "error make")) (execute_request (lit "error make")) context
      failed.0 process failed.1 refl failed.2
