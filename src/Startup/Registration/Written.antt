-- ===== src/Startup/Registration/Written.antt =====
-- What `register` leaves on the disk.
use mathlib.Core.Path.{subst}
use nu_jupyter_kernel.Prelude.{◌≡◌, refl, sym, ap, [], ◌∷◌, Option, none, some}
use nu_jupyter_kernel.Prelude.Text.{Text, lit}
use nu_jupyter_kernel.Prelude.Flow.{Flow}
use nu_jupyter_kernel.Nu.{Result, ok, err}
use nu_jupyter_kernel.Startup.Registration.{
  RegisterLocation, Host, Files, Manifest, push, kernel_path, kernel_manifest, register_kernel,
  written, with_text, with_manifest, in_created, at_path, with_exec,
}

module _ (host : Host) (files : Files) (FormatError : Type 0)
    (to_string_pretty : Manifest → Result FormatError Text) where
  open files use {State, IoError}

  -- What a write that succeeds leaves can be read.
  abbrev pub Keeps : Type 0
  Keeps =
      (path text : Text) (s s' : State)
      → files.write path text s ≡ (ok tt, s')
      → files.read path s' ≡ some text

  -- The manifest of the running executable, as a file of its directory.
  abbrev pub Registered : RegisterLocation → Text → State → Type 0
  Registered location file_path s =
      (dir exec text : Text) × (kernel_path host location ≡ some dir)
      × (file_path ≡ push host dir (lit "kernel.json"))
      × (host.current_exe ≡ some exec)
      × (to_string_pretty (record {
        argv = exec ∷ lit "start" ∷ lit "{connection_file}" ∷ [];
        display_name = lit "Nushell";
        language = lit "nushell";
        interrupt_mode = lit "message";
      })
          ≡ ok text)
      × (files.read file_path s ≡ some text)

  abbrev manifest_of : Text → Manifest
  manifest_of exec = record {
    argv = exec ∷ lit "start" ∷ lit "{connection_file}" ∷ [];
    display_name = lit "Nushell";
    language = lit "nushell";
    interrupt_mode = lit "message";
  }

  written_lem :
      Keeps
      → (path text file_path : Text) (s s' : State) (w : Result IoError (Unit {0}) × State)
      → files.write path text s ≡ w
      → written host files FormatError to_string_pretty path w ≡ (Flow.ok file_path, s')
      → (file_path ≡ path) × (files.read file_path s' ≡ some text)
  unfolding written
  written_lem keeps path text file_path s s' (err e, s1) e1 h = cc (ap (λ r. r.0) h)
  written_lem keeps path text file_path s s' (ok u, s1) e1 h =
      let same : path ≡ file_path = cc (ap (λ r. r.0) h) in
      let end : s1 ≡ s' = ap (λ r. r.1) h in
      (
        sym same,
        subst (λ p. files.read p s' ≡ some text) same
            (subst (λ x. files.read path x ≡ some text) end (keeps path text s s1 e1)),
      )

  -- What the steps after the manifest's path leave.
  Saved : Text → Text → State → Type 0
  Saved path file_path s' =
      (exec text : Text) × (file_path ≡ path)
      × (host.current_exe ≡ some exec)
      × (to_string_pretty (manifest_of exec) ≡ ok text)
      × (files.read file_path s' ≡ some text)

  with_text_lem :
      Keeps
      → (exec path file_path : Text) (s s' : State) (t : Result FormatError Text)
      → host.current_exe ≡ some exec
      → to_string_pretty (manifest_of exec) ≡ t
      → with_text host files FormatError to_string_pretty path t s ≡ (Flow.ok file_path, s')
      → Saved path file_path s'
  unfolding with_text Saved
  with_text_lem keeps exec path file_path s s' (err e) is_exec formatted h = cc (ap (λ r. r.0) h)
  with_text_lem keeps exec path file_path s s' (ok text) is_exec formatted h =
      let (same, stored) = written_lem keeps path text file_path s s' _ refl h in
      (exec, text, same, is_exec, formatted, stored)

  with_manifest_lem :
      Keeps
      → (path file_path : Text) (s s' : State) (exec : Option Text) → host.current_exe ≡ exec
      → with_manifest host files FormatError to_string_pretty path (with_exec host exec) s
        ≡ (Flow.ok file_path, s')
      → Saved path file_path s'
  unfolding with_manifest with_exec
  with_manifest_lem keeps path file_path s s' none is_exec h = cc (ap (λ r. r.0) h)
  with_manifest_lem keeps path file_path s s' (some exec) is_exec h =
      with_text_lem keeps exec path file_path s s' _ is_exec refl h

  in_created_lem :
      Keeps
      → (dir file_path : Text) (s' : State) (c : Result IoError (Unit {0}) × State)
      → in_created host files FormatError to_string_pretty dir c ≡ (Flow.ok file_path, s')
      → Saved (push host dir (lit "kernel.json")) file_path s'
  unfolding in_created kernel_manifest
  in_created_lem keeps dir file_path s' (err e, s1) h = cc (ap (λ r. r.0) h)
  in_created_lem keeps dir file_path s' (ok u, s1) h =
      with_manifest_lem keeps (push host dir (lit "kernel.json")) file_path s1 s' _ refl h

  -- A registration that succeeds returns the path of `kernel.json` in the kernel's directory of the
  -- location, which then holds the manifest that starts the running executable.
  pub register_kernel-Registered :
      Keeps
      → (location : RegisterLocation) (s s' : State) (file_path : Text)
      → register_kernel host files FormatError to_string_pretty location s ≡ (Flow.ok file_path, s')
      → Registered location file_path s'
  unfolding register_kernel at_path Saved
  register_kernel-Registered keeps location s s' file_path = go (kernel_path host location) refl
    where
      go :
          (p : Option Text)
          → kernel_path host location ≡ p
          → at_path host files FormatError to_string_pretty p s ≡ (Flow.ok file_path, s')
          → Registered location file_path s'
      go none e h = cc h
      go (some dir) e h =
          let (exec, text, same, is_exec, formatted, stored) =
            in_created_lem keeps dir file_path s' _ h in
          (dir, exec, text, e, same, is_exec, formatted, stored)
