-- ===== src/Tests/Kernel.antt =====
-- A small engine, and a kernel around it: a source is one element, which is a call of one of the
-- kernel's commands, an error, or a value.
use mathlib.Core.Path.{subst}
use mathlib.Core.Option
use nu_jupyter_kernel.Prelude.{
  ℕ, zero, suc, ◌+◌, ◌≡◌, refl, ap, List, [], ◌∷◌, Option, none, some, Bool, true, false,
  if◌then◌else◌,
}
use nu_jupyter_kernel.Prelude.Text.{Text, lit, text_eq, is_utf8}
use nu_jupyter_kernel.Messages.{Header, Message, Host}
use nu_jupyter_kernel.Messages.Shell.{ShellRequest, ExecuteRequest}
use nu_jupyter_kernel.Messages.Content.{Serde, Writes, OutgoingContent, content_to_string}
use nu_jupyter_kernel.Messages.Wire.Framing.{Reads}
use nu_jupyter_kernel.Nu.{
  Nu, Env, Parsed, Script, done, external, display, print, Result, ok, err, PipelineData, empty,
  value, KonstData, FormatDeclIds, Process, disabled,
}
use nu_jupyter_kernel.Outbox.Completes.{HasKey}
use nu_jupyter_kernel.Shell.{Report, HandlerContext}
use nu_jupyter_kernel.Tests.Codec.{
  header_to_text, header_of_text, header_back, header-utf8, header-not_empty,
}

abbrev pub json : Serde (Unit {0})
json = record {
  empty_object = tt;
  header_to_string = λ h. some (header_to_text h);
  header_from_str = header_of_text;
  parent_from_str = λ t. Option.map (λ h. some h) (header_of_text t);
  metadata_to_string = λ m. some (lit "{}");
  metadata_from_str = λ t. some tt;
  shell_to_string = λ r. some (lit "{reply}");
  iopub_to_string = λ b. some (lit "{broadcast}");
  control_to_string = λ r. some (lit "{control}");
  execute_from_str = λ t. some (record {
    code = t;
    silent = false;
    store_history = true;
    user_expressions = tt;
    allow_stdin = false;
    stop_on_error = true;
  });
  is_complete_from_str = λ t. some (record { code = t });
  shutdown_from_str =
      λ t. if text_eq t (lit "true") then some (record { restart = true }) else none;
}

abbrev pub host : Host
host = record {
  uuid = lit "0-0";
  now = λ n. lit "noon";
  hmac_sha256 = λ key text. text;
  hex_encode = λ b. lit "5a";
}

content_written :
    (c : OutgoingContent (Unit {0})) → (t : Text) × (content_to_string json c ≡ some t)
unfolding content_to_string
content_written (OutgoingContent.shell r) = (_, refl)
content_written (OutgoingContent.iopub b) = (_, refl)
content_written (OutgoingContent.control r) = (_, refl)

pub json-Writes : Writes json
json-Writes = record {
  header = λ h. (header_to_text h, refl);
  metadata = λ m. (lit "{}", refl);
  content = content_written;
}

braces-utf8 : is_utf8 (lit "{}") ≡ true
unfolding is_utf8
braces-utf8 = refl

reply-utf8 : is_utf8 (lit "{reply}") ≡ true
unfolding is_utf8
reply-utf8 = refl

broadcast-utf8 : is_utf8 (lit "{broadcast}") ≡ true
unfolding is_utf8
broadcast-utf8 = refl

control-utf8 : is_utf8 (lit "{control}") ≡ true
unfolding is_utf8
control-utf8 = refl

-- What holds of the text that is written holds of the text that an equation names.
written : (P : Text → Type 0) {s t : Text} → P s → some s ≡ some t → P t
written P h e = subst P (cc e) h

content-utf8 :
    (c : OutgoingContent (Unit {0})) (t : Text)
    → content_to_string json c ≡ some t
    → is_utf8 t ≡ true
unfolding content_to_string
content-utf8 (OutgoingContent.shell r) t e = written (λ t. is_utf8 t ≡ true) reply-utf8 e
content-utf8 (OutgoingContent.iopub b) t e = written (λ t. is_utf8 t ≡ true) broadcast-utf8 e
content-utf8 (OutgoingContent.control r) t e = written (λ t. is_utf8 t ≡ true) control-utf8 e

pub json-Reads : Reads json
json-Reads = record {
  header_back = λ h t e.
      written
        (λ t.
          (header_of_text t ≡ some h)
          × (json.parent_from_str t ≡ some (some h))
          × (is_utf8 t ≡ true)
          × (text_eq t (lit "{}") ≡ false))
        (
          header_back h,
          ap (Option.map (λ h. some h)) (header_back h),
          header-utf8 h,
          header-not_empty h,
        )
        e;
  metadata_back =
      λ m t e. written (λ t. (some tt ≡ some m) × (is_utf8 t ≡ true)) (refl, braces-utf8) e;
  content_utf8 = content-utf8;
}

-- The engine counts the deltas that it merged.
abbrev Engine : Type 0
Engine = ℕ

abbrev Stack : Type 0
Stack = Option KonstData

abbrev Element : Type 0
Element = Text × Bool

abbrev run_code : Stack → Text → Script Stack (Unit {0}) Text
run_code stack code =
    if text_eq code (lit "nuju external")
    then external (done stack (ok empty))
    else if text_eq code (lit "nuju display html")
    then display (lit "html") (λ b. done stack (ok (value (lit "shown"))))
    else if text_eq code (lit "nuju print hi")
    then print stack empty (some (lit "hi")) none (λ s b. done s (ok empty))
    else if text_eq code (lit "error make")
    then done stack (err tt)
    else done stack (ok (value code))

abbrev eval : List (List Element) → Stack → Script Stack (Unit {0}) Text
eval (((code, piped) ∷ rest) ∷ more) stack = run_code stack code
eval ([] ∷ more) stack = done stack (ok empty)
eval [] stack = done stack (ok empty)

abbrev call : ℕ → Stack → Text → Stack × Result (Unit {0}) (PipelineData Text)
call zero stack v = (stack, ok (value v))
call (suc zero) stack v = (stack, err tt)
call (suc (suc n)) stack v = (stack, ok (value v))

abbrev parse_source : Text → Parsed Text (Unit {0}) ℕ Element
parse_source code = record {
  parse_errors = if text_eq code (lit "(") then lit "unclosed" ∷ [] else [];
  compile_errors = [];
  delta = 1;
  pipelines = some (((code, false) ∷ []) ∷ []);
}

abbrev into_value : PipelineData Text → Result (Unit {0}) Text
into_value empty = ok []
into_value (value v) = ok v

abbrev is_nothing : PipelineData Text → Bool
is_nothing empty = true
is_nothing (value v) = false

abbrev get_konst : Stack → Result (Unit {0}) KonstData
get_konst none = err tt
get_konst (some k) = ok k

abbrev pub engine : Nu
engine = record {
  EngineState = Engine;
  Stack = Stack;
  Value = Text;
  Kind = Unit {0};
  ShellError = Unit {0};
  ParseError = Text;
  CompileError = Unit {0};
  Delta = ℕ;
  Element = Element;
  DeclId = ℕ;
  external_delta = λ e. 100;
  merge_delta = λ e d. (e + d, none);
  reset_signals = λ e. e;
  parse = λ e name code. parse_source code;
  redirect_to_pipes = λ e. (e.0, true);
  eval_block = λ e stack pipelines. eval pipelines stack;
  eval_call = λ e stack decl flags v. call decl stack v;
  into_value = into_value;
  into_string = λ v. ok v;
  get_type = λ v. tt;
  is_subtype_of = λ a b. true;
  csv_inputs = tt ∷ [];
  json_inputs = tt ∷ [];
  md_inputs = [];
  svg_inputs = [];
  set_konst = λ stack k. some k;
  get_konst = get_konst;
  guess_mime = λ ext. if text_eq ext (lit "html") then some (lit "text/html") else none;
  is_nothing = is_nothing;
}

abbrev pub decls : FormatDeclIds ℕ
decls = record {
  to_text = 0;
  to_csv = 1;
  to_json = 2;
  to_html = 3;
  to_md = 4;
  table = 5;
  draw_svg = 6;
}

abbrev pub env : Env
env = record { nu = engine; J = Unit {0}; serde = json; host = host; decls = decls }

abbrev pub report : Report engine
report = record { code = λ e x. lit "nu::shell::error"; fmt = λ e x. lit "failed" }

abbrev pub header : Text → Header
header type = record {
  msg_id = lit "client:1";
  session = lit "client";
  username = lit "me";
  date = lit "noon";
  msg_type = type;
  version = lit "5.3";
}

abbrev pub request : Text → ShellRequest (Unit {0}) → Message (Unit {0}) (ShellRequest (Unit {0}))
request type content = record {
  zmq_identities = lit "id" ∷ [];
  header = header type;
  parent_header = none;
  metadata = tt;
  content = content;
  buffers = [];
}

abbrev pub execute_request : Text → ExecuteRequest (Unit {0})
execute_request code = record {
  code = code;
  silent = false;
  store_history = true;
  user_expressions = tt;
  allow_stdin = false;
  stop_on_error = true;
}

abbrev pub process : Process (Unit {0})
process = record {
  globals = record { session = none; message_counter = 0; key = some (lit "key") };
  render_filter = none;
  external = disabled;
  sent = [];
}

pub process-HasKey : HasKey process
process-HasKey = record { key = lit "key"; is_set = refl }

abbrev pub context : HandlerContext engine
context = record {
  engine_state = 7;
  stack = none;
  cell = record { execution_counter = 3; retry_counter = 2 };
  stdout_reply = ([], none);
  stderr_reply = ([], none);
}
