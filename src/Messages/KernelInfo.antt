-- ===== src/Messages/KernelInfo.antt =====
-- jupyter/kernel_info.rs, with the constants that it takes from Cargo.toml and banner.txt.
use nu_jupyter_kernel.Prelude.{List, [], ◌∷◌, ◌++◌, map, Bool, false}
use nu_jupyter_kernel.Prelude.Text.{Text, lit}
use nu_jupyter_kernel.Messages.{protocol_version}

pub record LanguageInfo : Type 0 where
  pub name : Text
  pub version : Text
  pub mimetype : Text
  pub file_extension : Text

pub record HelpLink : Type 0 where
  pub text : Text
  pub url : Text

pub record KernelInfo : Type 0 where
  pub protocol_version : Text
  pub implementation : Text
  pub implementation_version : Text
  pub language_info : LanguageInfo
  pub banner : Text
  pub debugger : Bool
  pub help_links : List HelpLink

unfoldable pub kernel_version : Text
kernel_version = lit "0.1.14+0.110.0"

unfoldable pub nu_version : Text
nu_version = lit "0.110.0"

-- A line break, and the degree sign of the second line of the banner, in UTF-8.
abbrev newline : Text
newline = b'\n' ∷ []

abbrev degree_sign : Text
degree_sign = 0xc2 ∷ 0xb0 ∷ []

banner_text : Text
banner_text =
    lit "     __  ,"
    ++ (newline
        ++ (lit " .--()"
            ++ (degree_sign
                ++ (lit "'.' You're running `nu-jupyter-kernel`,"
                    ++ (newline
                        ++ (lit "'|, . ,'   based on the `nu` language,"
                            ++ (newline
                                ++ (lit " !_-(_\\    where all data is structured!"
                                    ++ newline))))))))

help_link : Text × Text → HelpLink
help_link (text, url) = record { text = text; url = url }

unfoldable pub get : KernelInfo
unfolding kernel_version nu_version banner_text help_link protocol_version
get = record {
  protocol_version = nu_jupyter_kernel.Messages.protocol_version;
  implementation = lit "nu-jupyter-kernel";
  implementation_version = kernel_version;
  language_info = record {
    name = lit "nushell";
    version = nu_version;
    mimetype = lit "text/x-nushell";
    file_extension = lit ".nu";
  };
  banner = banner_text;
  debugger = false;
  help_links = map help_link (
      (lit "Discord", lit "https://discord.gg/NtAbbGn")
      ∷ (lit "GitHub", lit "https://github.com/nushell/nushell")
      ∷ []);
}
