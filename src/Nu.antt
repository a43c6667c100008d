-- ===== src/Nu.antt =====
-- The crates of Nushell (`nu_protocol`, `nu_parser`, `nu_engine`, `nu_command`) as src/nu uses them,
-- and the process around the engine. Spans only place error labels, and are left out.
pub mod External
pub mod Render
pub mod Execute
pub mod Commands
pub mod Environment
pub mod EngineSetup
pub mod FormatDecls
pub mod Blocks
pub mod Results
use nu_jupyter_kernel.Prelude.{List, Option, Bool, ◌++◌, ◌∷◌, []}
use nu_jupyter_kernel.Prelude.Text.{Bytes, Text}
use nu_jupyter_kernel.Messages.{Header, Message, Host, Globals}
use nu_jupyter_kernel.Messages.Content.{OutgoingContent, Serde}

-- `Result<A, ShellError>`
pub data Result (E A : Type 0) : Type 0 where
  ok : A → Result E A
  err : E → Result E A

-- A parsed source: the working set's errors and delta, and the pipelines of the block, with `none`
-- where `Arc::get_mut` gives nothing.
pub record Parsed (ParseError CompileError Delta Element : Type 0) : Type 0 where
  pub parse_errors : List ParseError
  pub compile_errors : List CompileError
  pub delta : Delta
  pub pipelines : Option (List (List Element))

-- nu/konst.rs, `KonstData`: what `$nuju` holds.
pub record KonstData : Type 0 where
  pub kernel_version : Text
  pub nu_version : Text
  pub cell : Text
  pub zmq_identities : List Bytes
  pub header : Header
  pub parent_header : Option Header

pub data PipelineData (Value : Type 0) : Type 0 where
  empty : PipelineData Value
  value : Value → PipelineData Value

-- An evaluation as the kernel sees it: it calls the kernel's own commands, reads whether they
-- succeeded, and ends with the stack and a result. The flag of `nuju print` is its `--format`.
pub data Script (Stack ShellError Value : Type 0) : Type 0 where
  done : Stack → Result ShellError (PipelineData Value) → Script Stack ShellError Value
  external : Script Stack ShellError Value → Script Stack ShellError Value
  display : (format : Text) → (Bool → Script Stack ShellError Value) → Script Stack ShellError Value
  print :
      (stack : Stack) (input : PipelineData Value) (arg : Option Value) (format : Option Text)
      → (Stack → Bool → Script Stack ShellError Value)
      → Script Stack ShellError Value

pub record FormatDeclIds (DeclId : Type 0) : Type 0 where
  pub to_text : DeclId
  pub to_csv : DeclId
  pub to_json : DeclId
  pub to_html : DeclId
  pub to_md : DeclId
  pub table : DeclId
  pub draw_svg : DeclId

pub record Nu : Type 1 where
  pub EngineState : Type 0
  pub Stack : Type 0
  pub Value : Type 0
  pub Kind : Type 0
  pub ShellError : Type 0
  pub ParseError : Type 0
  pub CompileError : Type 0
  pub Delta : Type 0
  pub Element : Type 0
  pub DeclId : Type 0
  -- `StateWorkingSet::new`, `add_decl(nu_command::External)` and `render`
  pub external_delta : EngineState → Delta
  pub merge_delta : EngineState → Delta → EngineState × Option ShellError
  pub reset_signals : EngineState → EngineState
  -- `nu_parser::parse` of a named source
  pub parse : EngineState → Text → Text → Parsed ParseError CompileError Delta Element
  -- `element.redirection = Some(Separate { out: Pipe, err: Pipe })`
  pub redirect_to_pipes : Element → Element
  pub eval_block : EngineState → Stack → List (List Element) → Script Stack ShellError Value
  -- `eval_call` of a declaration with flags
  pub eval_call :
      EngineState
      → Stack
      → DeclId
      → List Text
      → Value
      → Stack × Result ShellError (PipelineData Value)
  pub into_value : PipelineData Value → Result ShellError Value
  pub into_string : Value → Result ShellError Text
  pub get_type : Value → Kind
  pub is_subtype_of : Kind → Kind → Bool
  -- the input types of the signatures of `to csv`, `to json`, `to md` and `draw svg`
  pub csv_inputs : List Kind
  pub json_inputs : List Kind
  pub md_inputs : List Kind
  pub svg_inputs : List Kind
  -- `stack.add_var` and `get_var` at the variable of `$nuju`, through `IntoValue` and `FromValue`
  pub set_konst : Stack → KonstData → Stack
  pub get_konst : Stack → Result ShellError KonstData
  -- `MimeGuess::from_ext(ext).first()`
  pub guess_mime : Text → Option Text
  -- `PipelineData::is_nothing`
  pub is_nothing : PipelineData Value → Bool

-- Everything that the kernel takes from outside.
pub record Env : Type 1 where
  pub nu : Nu
  pub J : Type 0
  pub serde : Serde J
  pub host : Host
  pub decls : FormatDeclIds nu.DeclId

pub data ExternalState : Type 0 where
  disabled just_enabled already_enabled : ExternalState

-- The sockets and queues that the kernel writes to.
pub data Route : Type 0 where
  shell_socket control_socket iopub_queue : Route

-- A message that was sent, with its frames.
pub record Sent (J : Type 0) : Type 0 where
  pub route : Route
  pub message : Message J (OutgoingContent J)
  pub frames : List Bytes

-- The statics of the process and what it has sent, oldest first: `KERNEL_SESSION`,
-- `MESSAGE_COUNTER`, `DIGESTER`, `RENDER_FILTER`, `EXTERNAL_STATE`.
pub record Process (J : Type 0) : Type 0 where
  pub globals : Globals
  pub render_filter : Option Text
  pub external : ExternalState
  pub sent : List (Sent J)
