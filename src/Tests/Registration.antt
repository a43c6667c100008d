-- ===== src/Tests/Registration.antt =====
-- A registration in the home directory of a user on Linux.
use nu_jupyter_kernel.Prelude.{
  ◌≡◌, refl, sym, ap, ◌∙◌, List, [], ◌∷◌, none, some, Bool, false, ◌==◌, if◌then◌else◌,
}
use nu_jupyter_kernel.Prelude.Text.{Text, lit, text_eq_refl}
use nu_jupyter_kernel.Prelude.Table.{lookup, insert, lookup-insert}
use nu_jupyter_kernel.Prelude.Flow.{Flow}
use nu_jupyter_kernel.Nu.{Result, ok, err}
use nu_jupyter_kernel.Startup.Registration.{
  RegisterLocation, Os, Host, Files, Manifest, push, kernel_path, kernel_manifest, register_kernel,
}
use nu_jupyter_kernel.Startup.Registration.Written.{Keeps, Registered, register_kernel-Registered}

abbrev starts_with_slash : Text → Bool
starts_with_slash [] = false
starts_with_slash (c ∷ text) = c == b'/'

abbrev host : Host
host = record {
  os = Os.linux;
  separator = b'/';
  is_absolute = starts_with_slash;
  var = λ name. none;
  home_dir = some (lit "/home/me");
  current_exe = some (lit "/bin/kernel");
}

abbrev disk : Files
disk = record {
  State = List (Text × Text);
  IoError = Unit {0};
  create_dir_all = λ path s. (ok tt, s);
  write = λ path text s. (ok tt, insert path text s);
  read = λ path s. lookup path s;
}

-- The executable alone, in place of the JSON.
abbrev executable : Manifest → Result (Unit {0}) Text
executable manifest = first manifest.argv
  where
    first : List Text → Result (Unit {0}) Text
    first [] = err tt
    first (arg ∷ args) = ok arg

disk_keeps : Keeps host disk (Unit {0}) executable
disk_keeps path text s s' e =
    ap (lookup path) (sym (ap (λ r. r.1) e))
    ∙ lookup-insert path path text s
    ∙ ap (λ b. if b then some text else lookup path s) (text_eq_refl path)

abbrev manifest_path : Text
manifest_path = lit "/home/me/.local/share/jupyter/kernels/nu/kernel.json"

registered :
    register_kernel host disk (Unit {0}) executable RegisterLocation.user []
    ≡ (Flow.ok manifest_path, (manifest_path, lit "/bin/kernel") ∷ [])
unfolding register_kernel kernel_path kernel_manifest push insert
registered = refl

register_kernel-Registered_example :
    Registered host disk
      (Unit {0})
      executable
      RegisterLocation.user
      manifest_path
      ((manifest_path, lit "/bin/kernel") ∷ [])
register_kernel-Registered_example =
    register_kernel-Registered host disk (Unit {0}) executable disk_keeps RegisterLocation.user []
      ((manifest_path, lit "/bin/kernel") ∷ []) manifest_path registered
