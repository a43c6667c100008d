-- ===== src/Plotters/Arguments/Fields.antt =====
-- The plugin's loop over the arguments of `chart 2d`, field by field.
use mathlib.Core.Path.{subst}
use nu_jupyter_kernel.Prelude.{◌≡◌, refl, sym, ◌∙◌, ◌∷◌, [], Option}
use nu_jupyter_kernel.Prelude.Text.{Text, lit, text_eq}
use nu_jupyter_kernel.Nu.{Result, ok}
use nu_jupyter_kernel.Nu.Results.{>>=-eq-ok}
use nu_jupyter_kernel.Plotters.Chart.{Chart2dOptions}
use nu_jupyter_kernel.Plotters.Arguments.{Named, Library, extract_named, extract_flag}
use nu_jupyter_kernel.Plotters.Arguments.Loops.{read_one, read_field, by_test, named_at}
use nu_jupyter_kernel.Plotters.Arguments.OfChart.{set, read_named}

module _ (library : Library) where
  open library use {Value, ShellError, F}

  abbrev pub Options : Type 0
  Options = Chart2dOptions F

  -- What relates a field before to the field after, given how its argument is read.
  abbrev pub Relation : Type 1
  Relation =
      (A : Type 0)
      → (Option Value → Result ShellError (Option A))
      → (Value → Result ShellError A)
      → Text
      → Option A
      → Option A
      → Type 0

  -- A relation on every field, each with its readers and its name.
  abbrev pub Each : Relation → Options → Options → Type 0
  Each P o o' =
      P _ (extract_named library library.u32 (lit "width")) library.u32 (lit "width") o.width
        o'.width
      × P _ (extract_named library library.u32 (lit "height")) library.u32 (lit "height") o.height
          o'.height
      × P _ (extract_named library library.color (lit "background")) library.color
          (lit "background") o.background o'.background
      × P _ (extract_named library library.string (lit "caption")) library.string (lit "caption")
          o.caption o'.caption
      × P _ (extract_named library library.list_u32 (lit "margin")) library.list_u32 (lit "margin")
          o.margin o'.margin
      × P _ (extract_named library library.list_u32 (lit "label-area")) library.list_u32
          (lit "label-area") o.label_area o'.label_area
      × P _ (extract_named library library.range (lit "x-range")) library.range (lit "x-range")
          o.x_range o'.x_range
      × P _ (extract_named library library.range (lit "y-range")) library.range (lit "y-range")
          o.y_range o'.y_range
      × P _ (extract_flag library) library.bool (lit "disable-mesh") o.disable_mesh o'.disable_mesh
      × P _ (extract_flag library) library.bool (lit "disable-x-mesh") o.disable_x_mesh
          o'.disable_x_mesh
      × P _ (extract_flag library) library.bool (lit "disable-y-mesh") o.disable_y_mesh
          o'.disable_y_mesh

  pub Each-map :
      (P Q R : Relation)
      → ((A : Type 0) (extract : Option Value → Result ShellError (Option A))
            (reader : Value → Result ShellError A) (field : Text) (a b c : Option A)
          → P A extract reader field a b
          → Q A extract reader field b c
          → R A extract reader field a c)
      → (o o' o'' : Options) → Each P o o'
      → Each Q o' o''
      → Each R o o''
  Each-map P Q R f o o' o'' p q = (
    f _ _ _ _ _ _ _ p.0 q.0,
    f _ _ _ _ _ _ _ p.1 q.1,
    f _ _ _ _ _ _ _ p.2 q.2,
    f _ _ _ _ _ _ _ p.3 q.3,
    f _ _ _ _ _ _ _ p.4 q.4,
    f _ _ _ _ _ _ _ p.5 q.5,
    f _ _ _ _ _ _ _ p.6 q.6,
    f _ _ _ _ _ _ _ p.7 q.7,
    f _ _ _ _ _ _ _ p.8 q.8,
    f _ _ _ _ _ _ _ p.9 q.9,
    f _ _ _ _ _ _ _ p.10 q.10,
  )

  -- What one argument does to a field, and what all of them do.
  abbrev By : Text → Option Value → Relation
  By name value A extract reader field a b = read_one extract field name value a ≡ ok b

  abbrev pub ByAll : Named Value → Relation
  ByAll named A extract reader field a b = read_field extract field named a ≡ ok b

  -- The `match` sets the field of its name and leaves the others.
  set-Each :
      (name : Text) (value : Option Value) (o o' : Options)
      → set library name value o ≡ ok o'
      → Each (By name value) o o'
  unfolding set read_one text_eq
  set-Each name value o o' e =
      by_test (text_eq name (lit "width"))
        (named_at (set library) (lit "width") name value o o'
          (extract_named library library.u32 (lit "width") value) (λ x. record o { width = x })
          (λ n. Each (By n value) o) refl
          (λ x read. (read, refl, refl, refl, refl, refl, refl, refl, refl, refl, refl)) e)
        λ e0.
          by_test (text_eq name (lit "height"))
            (named_at (set library) (lit "height") name value o o'
              (extract_named library library.u32 (lit "height") value)
              (λ x. record o { height = x }) (λ n. Each (By n value) o) refl
              (λ x read. (refl, read, refl, refl, refl, refl, refl, refl, refl, refl, refl)) e)
            λ e1.
              by_test (text_eq name (lit "background"))
                (named_at (set library) (lit "background") name value o o'
                  (extract_named library library.color (lit "background") value)
                  (λ x. record o { background = x }) (λ n. Each (By n value) o) refl
                  (λ x read. (refl, refl, read, refl, refl, refl, refl, refl, refl, refl, refl)) e)
                λ e2.
                  by_test (text_eq name (lit "caption"))
                    (named_at (set library) (lit "caption") name value o o'
                      (extract_named library library.string (lit "caption") value)
                      (λ x. record o { caption = x }) (λ n. Each (By n value) o) refl
                      (λ x read. (refl, refl, refl, read, refl, refl, refl, refl, refl, refl, refl))
                      e)
                    λ e3.
                      by_test (text_eq name (lit "margin"))
                        (named_at (set library) (lit "margin") name value o o'
                          (extract_named library library.list_u32 (lit "margin") value)
                          (λ x. record o { margin = x }) (λ n. Each (By n value) o) refl
                          (λ x read.
                            (refl, refl, refl, refl, read, refl, refl, refl, refl, refl, refl))
                          e)
                        λ e4.
                          by_test (text_eq name (lit "label-area"))
                            (named_at (set library) (lit "label-area") name value o o'
                              (extract_named library library.list_u32 (lit "label-area") value)
                              (λ x. record o { label_area = x }) (λ n. Each (By n value) o) refl
                              (λ x read.
                                (refl, refl, refl, refl, refl, read, refl, refl, refl, refl, refl))
                              e)
                            λ e5.
                              by_test (text_eq name (lit "x-range"))
                                (named_at (set library) (lit "x-range") name value o o'
                                  (extract_named library library.range (lit "x-range") value)
                                  (λ x. record o { x_range = x }) (λ n. Each (By n value) o) refl
                                  (λ x read. (
                                    refl, refl, refl, refl, refl, refl, read, refl, refl, refl,
                                    refl,
                                  ))
                                  e)
                                λ e6.
                                  by_test (text_eq name (lit "y-range"))
                                    (named_at (set library) (lit "y-range") name value o o'
                                      (extract_named library library.range (lit "y-range") value)
                                      (λ x. record o { y_range = x }) (λ n. Each (By n value) o)
                                      refl
                                      (λ x read. (
                                        refl, refl, refl, refl, refl, refl, refl, read, refl, refl,
                                        refl,
                                      ))
                                      e)
                                    λ e7.
                                      by_test (text_eq name (lit "disable-mesh"))
                                        (named_at (set library) (lit "disable-mesh") name value o o'
                                          (extract_flag library value)
                                          (λ x. record o { disable_mesh = x })
                                          (λ n. Each (By n value) o) refl
                                          (λ x read. (
                                            refl, refl, refl, refl, refl, refl, refl, refl, read,
                                            refl, refl,
                                          ))
                                          e)
                                        λ e8.
                                          by_test (text_eq name (lit "disable-x-mesh"))
                                            (named_at (set library) (lit "disable-x-mesh") name
                                              value o o' (extract_flag library value)
                                              (λ x. record o { disable_x_mesh = x })
                                              (λ n. Each (By n value) o) refl
                                              (λ x read. (
                                                refl, refl, refl, refl, refl, refl, refl, refl,
                                                refl, read, refl,
                                              ))
                                              e)
                                            λ e9.
                                              by_test (text_eq name (lit "disable-y-mesh"))
                                                (named_at (set library) (lit "disable-y-mesh") name
                                                  value o o' (extract_flag library value)
                                                  (λ x. record o { disable_y_mesh = x })
                                                  (λ n. Each (By n value) o) refl
                                                  (λ x read. (
                                                    refl, refl, refl, refl, refl, refl, refl, refl,
                                                    refl, refl, read,
                                                  ))
                                                  e)
                                                λ e10.
                                                  let kept : set library name value o ≡ ok o =
                                                    rw (e0, e1, e2, e3, e4, e5, e6, e7, e8, e9, e10)
                                                      refl in
                                                  let eq : o ≡ o' = cc (sym kept ∙ e) in
                                                  let all : Each (By name value) o o =
                                                    rw (e0, e1, e2, e3, e4, e5, e6, e7, e8, e9, e10)
                                                      (
                                                        refl, refl, refl, refl, refl, refl, refl,
                                                        refl, refl, refl, refl,
                                                      ) in
                                                  subst (Each (By name value) o) eq all

  -- The loop reads every field from the arguments of its own name.
  pub read_named-Each :
      (named : Named Value) (o o' : Options)
      → read_named library named o ≡ ok o'
      → Each (ByAll named) o o'
  unfolding read_named read_field
  read_named-Each [] o o' e =
      let all : Each (ByAll []) o o =
        (refl, refl, refl, refl, refl, refl, refl, refl, refl, refl, refl) in
      subst (Each (ByAll []) o) (cc e) all
  read_named-Each ((name, value) ∷ named) o o' e =
      let (o1, first, rest) = >>=-eq-ok (set library name value o) _ e in
      Each-map (By name value) (ByAll named) (ByAll ((name, value) ∷ named))
        (λ A extract reader field a b c p q. rw p q) o o1 o' (set-Each name value o o1 first)
        (read_named-Each named o1 o' rest)
