-- ===== src/Plotters/Arguments/Agreement.antt =====
-- The two ways to read the arguments of `chart 2d`, inside Nushell and as a plugin.
use mathlib.Core.Path.{subst}
use nu_jupyter_kernel.Prelude.{
  ◌≡◌, ◌≢◌, refl, sym, ◌∙◌, List, [], ◌∷◌, Option, none, some, Bool, true,
}
use nu_jupyter_kernel.Prelude.Text.{Text, lit}
use nu_jupyter_kernel.Prelude.Table.{lookup}
use nu_jupyter_kernel.Prelude.Flow
use nu_jupyter_kernel.Prelude.Flow.{Flow}
use nu_jupyter_kernel.Nu.{Result, ok, err}
use nu_jupyter_kernel.Nu.Results.{◌>>=◌, >>=-eq-ok}
use nu_jupyter_kernel.Plotters.Chart.{no_options}
use nu_jupyter_kernel.Plotters.Arguments.{Named, Library, extract_named, extract_flag}
use nu_jupyter_kernel.Plotters.Arguments.Loops.{Once, read_field, or_old, read_field-lookup}
use nu_jupyter_kernel.Plotters.Arguments.Fields.{Options, Each, read_named-Each}
use nu_jupyter_kernel.Plotters.Arguments.OfChart.{
  first_chart, read_named, read_call, run_plugin, run_command, run_value, labeled, in_flow,
}

-- A step that succeeds, for what follows it.
bound :
    {E A B P : Type 0} (m : Result E A) (k : A → Result E B) {b : B}
    → (m >>= k) ≡ ok b
    → ((a : A) → m ≡ ok a → k a ≡ ok b → P)
    → P
bound m k e h = let (a, read, rest) = >>=-eq-ok m k e in h a read rest

module _ (library : Library) where
  open library use {Value, ShellError, F, Call}

  -- `Option::<T>::from_value` reads a `T` from every value but `nothing`.
  abbrev pub IsPresent : Value → Type 1
  IsPresent v =
      (A : Type 0) (reader : Value → Result ShellError A)
      → library.optional reader v ≡ (reader v >>= λ a. ok (some a))

  -- `Call::get_flag` reads the value of a flag; it gives nothing for a flag without a value.
  pub record Holds (call : Call) (named : Named Value) : Type 1 where
    pub of_value :
        (A : Type 0) (reader : Value → Result ShellError A) (name : Text) (v : Value)
        → lookup name named ≡ some (some v)
        → library.get_flag call reader name ≡ (reader v >>= λ a. ok (some a))
    pub of_switch :
        (A : Type 0) (reader : Value → Result ShellError A) (name : Text)
        → lookup name named ≡ some none
        → library.get_flag call reader name ≡ ok none
    pub of_absent :
        (A : Type 0) (reader : Value → Result ShellError A) (name : Text)
        → lookup name named ≡ none
        → library.get_flag call reader name ≡ ok none

  labeled-bind :
      {A B : Type 0} (m : Flow ShellError A) (k : A → Flow ShellError B)
      → labeled library (Flow.◌>>=◌ m k) ≡ Flow.◌>>=◌ (labeled library m) λ a. labeled library (k a)
  unfolding labeled
  labeled-bind (Flow.ok a) k = refl
  labeled-bind (Flow.err e) k = refl
  labeled-bind Flow.panics k = refl

  -- What the command inside Nushell reads for every field.
  read_call-Each :
      (call : Call) (o : Options library)
      → read_call library call ≡ ok o
      → Each library
          (λ A extract reader field a b. library.get_flag call reader field ≡ ok b)
          no_options
          o
  unfolding read_call no_options
  read_call-Each call o e = bound (library.get_flag call library.u32 (lit "width")) _ e λ v0 g0 r0.
      bound (library.get_flag call library.u32 (lit "height")) _ r0 λ v1 g1 r1.
        bound (library.get_flag call library.color (lit "background")) _ r1 λ v2 g2 r2.
          bound (library.get_flag call library.string (lit "caption")) _ r2 λ v3 g3 r3.
            bound (library.get_flag call library.list_u32 (lit "margin")) _ r3 λ v4 g4 r4.
              bound (library.get_flag call library.list_u32 (lit "label-area")) _ r4 λ v5 g5 r5.
                bound (library.get_flag call library.range (lit "x-range")) _ r5 λ v6 g6 r6.
                  bound (library.get_flag call library.range (lit "y-range")) _ r6 λ v7 g7 r7.
                    bound (library.get_flag call library.bool (lit "disable-mesh")) _ r7 λ v8 g8 r8.
                      bound (library.get_flag call library.bool (lit "disable-x-mesh")) _ r8
                        λ v9 g9 r9.
                          bound (library.get_flag call library.bool (lit "disable-y-mesh")) _ r9
                            λ v10 g10 r10.
                              let all : Each library
                                  (λ A extract reader field a b.
                                    library.get_flag call reader field ≡ ok b)
                                  no_options
                                  (record {
                                    width = v0;
                                    height = v1;
                                    background = v2;
                                    caption = v3;
                                    margin = v4;
                                    label_area = v5;
                                    x_range = v6;
                                    y_range = v7;
                                    disable_mesh = v8;
                                    disable_x_mesh = v9;
                                    disable_y_mesh = v10;
                                  }) =
                                (g0, g1, g2, g3, g4, g5, g6, g7, g8, g9, g10) in
                              subst
                                (Each library
                                  (λ A extract reader field a b.
                                    library.get_flag call reader field ≡ ok b)
                                  no_options)
                                (cc r10) all

  -- `Call::opt` reads the first positional argument.
  pub record HoldsFirst (call : Call) (positional : List Value) : Type 1 where
    pub of_none :
        (A : Type 0) (reader : Value → Result ShellError A)
        → positional ≡ []
        → library.opt call reader 0 ≡ ok none
    pub of_first :
        (A : Type 0) (reader : Value → Result ShellError A) (v : Value) (rest : List Value)
        → positional ≡ v ∷ rest
        → library.opt call reader 0 ≡ (reader v >>= λ a. ok (some a))

  first_chart-opt :
      (call : Call) (positional : List Value)
      → HoldsFirst call positional
      → first_chart library positional ≡ library.opt call library.chart 0
  unfolding first_chart
  first_chart-opt call [] h = sym (h.of_none _ library.chart refl)
  first_chart-opt call (v ∷ rest) h = sym (h.of_first _ library.chart v rest refl)

  module _ (call : Call) (named : Named Value) (once : Once named)
      (present : (name : Text) (v : Value) → lookup name named ≡ some (some v) → IsPresent v)
      (holds : Holds call named) where
    -- The field as the loop leaves it, from the argument of its name.
    pub by_name :
        (A : Type 0) (extract : Option Value → Result ShellError (Option A)) (field : Text)
        (a b : Option A)
        → read_field extract field named a ≡ ok b
        → or_old extract (lookup field named) a ≡ ok b
    by_name A extract field a b h = sym (read_field-lookup extract field named a once) ∙ h

    pub named_agrees :
        (A : Type 0) (reader : Value → Result ShellError A) (field : Text) (b : Option A)
        (given : Option (Option Value))
        → lookup field named ≡ given
        → or_old (extract_named library reader field) given none ≡ ok b
        → library.get_flag call reader field ≡ ok b
    unfolding extract_named
    named_agrees A reader field b none e h = holds.of_absent A reader field e ∙ h
    named_agrees A reader field b (some none) e h = cc h
    named_agrees A reader field b (some (some v)) e h =
        holds.of_value A reader field v e ∙ sym (present field v e A reader) ∙ h

    flag_agrees :
        (field : Text) (b : Option Bool) (given : Option (Option Value))
        → lookup field named ≡ given
        → given ≢ some none
        → or_old (extract_flag library) given none ≡ ok b
        → library.get_flag call library.bool field ≡ ok b
    unfolding extract_flag
    flag_agrees field b none e no_switch h = holds.of_absent Bool library.bool field e ∙ h
    flag_agrees field b (some none) e no_switch h = absurd (no_switch refl)
    flag_agrees field b (some (some v)) e no_switch h =
        holds.of_value Bool library.bool field v e ∙ h

    -- Where no name is given twice, no value is `nothing` and no mesh flag is given without a value:
    -- options that the plugin's loop accepts are the options that the command inside Nushell reads.
    pub read_named-read_call :
        (o : Options library)
        → lookup (lit "disable-mesh") named ≢ some none
        → lookup (lit "disable-x-mesh") named ≢ some none
        → lookup (lit "disable-y-mesh") named ≢ some none
        → read_named library named no_options ≡ ok o
        → read_call library call ≡ ok o
    unfolding read_call no_options
    read_named-read_call o no_switch_0 no_switch_1 no_switch_2 e =
        let read = read_named-Each library named no_options o e in
        let g0 =
          named_agrees _ library.u32 (lit "width") o.width _ refl
            (by_name _ _ (lit "width") none o.width read.0) in
        let g1 =
          named_agrees _ library.u32 (lit "height") o.height _ refl
            (by_name _ _ (lit "height") none o.height read.1) in
        let g2 =
          named_agrees _ library.color (lit "background") o.background _ refl
            (by_name _ _ (lit "background") none o.background read.2) in
        let g3 =
          named_agrees _ library.string (lit "caption") o.caption _ refl
            (by_name _ _ (lit "caption") none o.caption read.3) in
        let g4 =
          named_agrees _ library.list_u32 (lit "margin") o.margin _ refl
            (by_name _ _ (lit "margin") none o.margin read.4) in
        let g5 =
          named_agrees _ library.list_u32 (lit "label-area") o.label_area _ refl
            (by_name _ _ (lit "label-area") none o.label_area read.5) in
        let g6 =
          named_agrees _ library.range (lit "x-range") o.x_range _ refl
            (by_name _ _ (lit "x-range") none o.x_range read.6) in
        let g7 =
          named_agrees _ library.range (lit "y-range") o.y_range _ refl
            (by_name _ _ (lit "y-range") none o.y_range read.7) in
        let g8 =
          flag_agrees (lit "disable-mesh") o.disable_mesh _ refl no_switch_0
            (by_name _ _ (lit "disable-mesh") none o.disable_mesh read.8) in
        let g9 =
          flag_agrees (lit "disable-x-mesh") o.disable_x_mesh _ refl no_switch_1
            (by_name _ _ (lit "disable-x-mesh") none o.disable_x_mesh read.9) in
        let g10 =
          flag_agrees (lit "disable-y-mesh") o.disable_y_mesh _ refl no_switch_2
            (by_name _ _ (lit "disable-y-mesh") none o.disable_y_mesh read.10) in
        rw (g0, g1, g2, g3, g4, g5, g6, g7, g8, g9, g10) refl

    -- Where no name is given twice, no value is `nothing`, no mesh flag is given without a value and the
    -- loop of the plugin accepts the arguments: on a value, the plugin's command ends as the one inside
    -- Nushell, with the same chart, the labeled form of the same error, or a panic; and where its input
    -- has no value, the one inside Nushell ends with that error, before it reads an argument.
    pub run_plugin-run_command :
        (positional : List Value) (input : Value) (o : Options library)
        → lookup (lit "disable-mesh") named ≢ some none
        → lookup (lit "disable-x-mesh") named ≢ some none
        → lookup (lit "disable-y-mesh") named ≢ some none
        → HoldsFirst call positional
        → read_named library named no_options ≡ ok o
        → (run_plugin library positional named input
            ≡ labeled library (run_command library call (ok input)))
          × ((x : ShellError) → run_command library call (err x) ≡ Flow.err x)
    unfolding run_plugin run_command in_flow
    run_plugin-run_command positional input o no_switch_0 no_switch_1 no_switch_2 first e = (
      rw
          (
            first_chart-opt call positional first,
            e,
            read_named-read_call o no_switch_0 no_switch_1 no_switch_2 e,
          )
          (sym (
            labeled-bind (in_flow library (library.opt call library.chart 0))
              (λ extend. run_value library input extend o))),
      λ x. refl,
    )

    -- Where no name is given twice, no value is `nothing` and both commands
    -- accept their arguments: with `--disable-mesh`
    -- without a value the plugin turns the mesh off, and the command inside Nushell reads nothing.
    pub read_named-disable_mesh :
        (o o' : Options library)
        → lookup (lit "disable-mesh") named ≡ some none
        → read_named library named no_options ≡ ok o
        → read_call library call ≡ ok o'
        → (o.disable_mesh ≡ some true) × (o'.disable_mesh ≡ none)
    unfolding extract_flag no_options
    read_named-disable_mesh o o' bare e e' =
        let plugin : or_old (extract_flag library) (some none) none ≡ ok o.disable_mesh =
          subst (λ given. or_old (extract_flag library) given none ≡ ok o.disable_mesh) bare
            (by_name _ _ _ _ _ (read_named-Each library named no_options o e).8) in
        let inside = (read_call-Each call o' e').8 in
        let nothing = holds.of_switch _ library.bool (lit "disable-mesh") bare in
        (cc (sym plugin), cc (sym inside ∙ nothing))
