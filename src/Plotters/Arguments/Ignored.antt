-- ===== src/Plotters/Arguments/Ignored.antt =====
-- commands/series/bar.rs: a declared flag that the loop over the arguments does not read.
use nu_jupyter_kernel.Prelude.{◌≡◌, refl, List, [], ◌∷◌, ◌++◌, Option, Bool, true, false, ◌||◌}
use nu_jupyter_kernel.Prelude.Text.{Text, lit, text_eq}
use nu_jupyter_kernel.Nu.Results.{>>=-cong}
use nu_jupyter_kernel.Plotters.Arguments.{Flag, Named, Library}
use nu_jupyter_kernel.Plotters.Arguments.OfBar.{signature, BarOptions, set, read_named}

-- Whether a flag of the name is declared.
unfoldable pub declares : Text → List Flag → Bool
declares name [] = false
declares name (flag ∷ flags) = text_eq flag.long name || declares name flags

module _ (library : Library) where
  open library use {Value, ShellError, F}

  skips :
      (before after : Named Value) (value : Option Value) (options : BarOptions F)
      → read_named library (before ++ (lit "horizontal", value) ∷ after) options
        ≡ read_named library (before ++ after) options
  unfolding read_named set text_eq
  skips [] after value options = refl
  skips ((name, v) ∷ before) after value options =
      >>=-cong (set library name v options) _ _ λ o. skips before after value o

  -- `series bar` declares the flag `horizontal`, and its options are the same with it and without it.
  pub read_named-horizontal :
      (before after : Named Value) (value : Option Value) (options : BarOptions F)
      → (declares (lit "horizontal") signature.flags ≡ true)
        × (read_named library (before ++ (lit "horizontal", value) ∷ after) options
            ≡ read_named library (before ++ after) options)
  unfolding declares signature text_eq
  read_named-horizontal before after value options = (refl, skips before after value options)
