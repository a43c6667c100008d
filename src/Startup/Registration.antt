-- ===== src/Startup/Registration.antt =====
-- jupyter/register_kernel.rs and the command `register` of main.rs: the kernel's manifest on the disk.
pub mod Written
use nu_jupyter_kernel.Prelude.{
  ℕ, List, [], ◌∷◌, ◌++◌, Option, none, some, Bool, true, false, ◌==◌, ◌||◌, if◌then◌else◌,
}
use nu_jupyter_kernel.Prelude.Text.{Text, lit}
use nu_jupyter_kernel.Prelude.Flow
use nu_jupyter_kernel.Prelude.Flow.{Flow}
use nu_jupyter_kernel.Nu.{Result, ok, err}

pub data RegisterLocation : Type 0 where
  user system : RegisterLocation

-- The targets that `cfg` tells apart; Android is as Linux.
pub data Os : Type 0 where
  windows linux macos other_os : Os

-- What the process finds out about its host.
pub record Host : Type 0 where
  pub os : Os
  pub separator : ℕ
  pub is_absolute : Text → Bool
  pub var : Text → Option Text
  pub home_dir : Option Text
  pub current_exe : Option Text

-- The file system, which an operation may change also where it fails.
pub record Files : Type 1 where
  pub State : Type 0
  pub IoError : Type 0
  pub create_dir_all : Text → State → Result IoError (Unit {0}) × State
  pub write : Text → Text → State → Result IoError (Unit {0}) × State
  pub read : Text → State → Option Text

-- The JSON object, without the empty `env` and `metadata`.
pub record Manifest : Type 0 where
  pub argv : List Text
  pub display_name : Text
  pub language : Text
  pub interrupt_mode : Text

pub data RegisterKernelError (IoError FormatError : Type 0) : Type 0 where
  io : IoError → RegisterKernelError IoError FormatError
  format : FormatError → RegisterKernelError IoError FormatError

-- The command's flags, of which clap lets at most one through.
unfoldable pub location : (user system : Bool) → Flow (Unit {0}) RegisterLocation
location true true = Flow.panics
location false true = Flow.ok RegisterLocation.system
location true false = Flow.ok RegisterLocation.user
location false false = Flow.ok RegisterLocation.user

ends_with : ℕ → Text → Bool
ends_with c [] = false
ends_with c (a ∷ []) = a == c
ends_with c (a ∷ b ∷ text) = ends_with c (b ∷ text)

is_empty : Text → Bool
is_empty [] = true
is_empty (c ∷ text) = false

module _ (host : Host) where
  -- `PathBuf::push`
  unfoldable pub push : Text → Text → Text
  unfolding ends_with is_empty
  push path component =
      if host.is_absolute component
      then component
      else if is_empty path || ends_with host.separator path
      then path ++ component
      else path ++ host.separator ∷ component

  in_dir : Text → Option Text → Option Text
  unfolding push
  in_dir component none = none
  in_dir component (some dir) = some (push (push [] dir) component)

  -- The path by the target; `none` is a panic, of an `expect` or for a target without a path.
  by_os : Os → RegisterLocation → Option Text
  unfolding in_dir push
  by_os windows user = in_dir (lit "jupyter\\kernels") (host.var (lit "APPDATA"))
  by_os windows system = in_dir (lit "jupyter\\kernels") (host.var (lit "PROGRAMDATA"))
  by_os linux user = in_dir (lit ".local/share/jupyter/kernels") host.home_dir
  by_os linux system = some (push [] (lit "/usr/local/share/jupyter/kernels"))
  by_os macos user = in_dir (lit "Library/Jupyter/kernels") host.home_dir
  by_os macos system = some (push [] (lit "/usr/local/share/jupyter/kernels"))
  by_os other_os user = none
  by_os other_os system = none

  unless_empty : Option Text → Option Text
  unfolding is_empty push
  unless_empty none = none
  unless_empty (some path) = if is_empty path then none else some (push path (lit "nu"))

  unfoldable pub kernel_path : RegisterLocation → Option Text
  unfolding by_os unless_empty
  kernel_path location = unless_empty (by_os host.os location)

  with_exec : Option Text → Option Manifest
  with_exec none = none
  with_exec (some this_exec) = some (record {
    argv = this_exec ∷ lit "start" ∷ lit "{connection_file}" ∷ [];
    display_name = lit "Nushell";
    language = lit "nushell";
    interrupt_mode = lit "message";
  })

  unfoldable pub kernel_manifest : Option Manifest
  unfolding with_exec
  kernel_manifest = with_exec host.current_exe

module _ (host : Host) (files : Files) (FormatError : Type 0)
    (to_string_pretty : Manifest → Result FormatError Text) where
  open files use {State, IoError}

  abbrev pub Outcome : Type 0
  Outcome = Flow (RegisterKernelError IoError FormatError) Text × State

  written : Text → Result IoError (Unit {0}) × State → Outcome
  written file_path (err e, s) = (Flow.err (io e), s)
  written file_path (ok u, s) = (Flow.ok file_path, s)

  with_text : Text → Result FormatError Text → State → Outcome
  unfolding written
  with_text file_path (err e) s = (Flow.err (format e), s)
  with_text file_path (ok manifest) s = written file_path (files.write file_path manifest s)

  with_manifest : Text → Option Manifest → State → Outcome
  unfolding with_text
  with_manifest file_path none s = (Flow.panics, s)
  with_manifest file_path (some manifest) s = with_text file_path (to_string_pretty manifest) s

  in_created : Text → Result IoError (Unit {0}) × State → Outcome
  unfolding with_manifest push kernel_manifest
  in_created path (err e, s) = (Flow.err (io e), s)
  in_created path (ok u, s) =
      with_manifest (push host path (lit "kernel.json")) (kernel_manifest host) s

  at_path : Option Text → State → Outcome
  unfolding in_created
  at_path none s = (Flow.panics, s)
  at_path (some path) s = in_created path (files.create_dir_all path s)

  unfoldable pub register_kernel : RegisterLocation → State → Outcome
  unfolding at_path kernel_path
  register_kernel location s = at_path (kernel_path host location) s
