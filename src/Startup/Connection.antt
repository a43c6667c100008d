-- ===== src/Startup/Connection.antt =====
-- jupyter/connection_file.rs. The JSON text is read by `serde_json`; here is what the file itself
-- decides, the signature scheme.
pub mod Scheme
use nu_jupyter_kernel.Prelude.{
  ℕ, List, [], ◌∷◌, ◌++◌, Option, none, some, Bool, true, false, if◌then◌else◌, ◌==◌,
}
use nu_jupyter_kernel.Prelude.Text.{Text, Bytes, lit, text_eq, decimal}
use nu_jupyter_kernel.Nu.{Result, ok, err}

-- `u16`
abbrev pub PortAddr : Type 0
PortAddr = ℕ

pub data SupportedSignatureAlgorithm : Type 0 where
  hmac : SupportedSignatureAlgorithm

pub data SupportedSignatureHashFunction : Type 0 where
  sha256 : SupportedSignatureHashFunction

pub record SignatureScheme : Type 0 where
  pub algorithm : SupportedSignatureAlgorithm
  pub hash_fn : SupportedSignatureHashFunction

pub data Transport : Type 0 where
  tcp : Transport

-- The `Display` of `Transport`.
unfoldable pub transport_text : Transport → Text
transport_text tcp = lit "tcp"

-- The four octets of an `Ipv4Addr`, and its `Display`.
pub record Ipv4Addr : Type 0 where
  pub a : ℕ
  pub b : ℕ
  pub c : ℕ
  pub d : ℕ

unfoldable pub ip_text : Ipv4Addr → Text
ip_text ip =
    decimal ip.a
    ++ (lit "." ++ (decimal ip.b ++ (lit "." ++ (decimal ip.c ++ (lit "." ++ decimal ip.d)))))

pub record ConnectionFile : Type 0 where
  pub control_port : PortAddr
  pub shell_port : PortAddr
  pub transport : Transport
  pub signature_scheme : SignatureScheme
  pub stdin_port : PortAddr
  pub heartbeat_port : PortAddr
  pub ip : Ipv4Addr
  pub iopub_port : PortAddr
  pub key : Bytes

-- `str::split` at a byte.
cons_head : ℕ → List Text → List Text
cons_head c [] = (c ∷ []) ∷ []
cons_head c (part ∷ parts) = (c ∷ part) ∷ parts

unfoldable pub split : ℕ → Text → List Text
unfolding cons_head
split sep [] = [] ∷ []
split sep (c ∷ s) = if c == sep then [] ∷ split sep s else cons_head c (split sep s)

-- `serde::de::Error`
pub data SchemeError : Type 0 where
  missing_field : Text → SchemeError
  unknown_variant : Text → List Text → SchemeError

unfoldable pub algorithm_of : Text → Result SchemeError SupportedSignatureAlgorithm
algorithm_of s =
    if text_eq s (lit "hmac")
    then ok SupportedSignatureAlgorithm.hmac
    else err (SchemeError.unknown_variant s (lit "hmac" ∷ []))

unfoldable pub hash_fn_of : Text → Result SchemeError SupportedSignatureHashFunction
hash_fn_of s =
    if text_eq s (lit "sha256")
    then ok SupportedSignatureHashFunction.sha256
    else err (SchemeError.unknown_variant s (lit "sha256" ∷ []))

-- The two `match` blocks with their early returns.
unfoldable pub scheme :
    Result SchemeError SupportedSignatureAlgorithm
    → Result SchemeError SupportedSignatureHashFunction
    → Result SchemeError SignatureScheme
scheme (err e) r = err e
scheme (ok algorithm) (err e) = err e
scheme (ok algorithm) (ok hash_fn) = ok (record { algorithm = algorithm; hash_fn = hash_fn })

-- The two parts that are taken from the split text; what follows them stays in the iterator.
unfoldable pub from_parts : List Text → Result SchemeError SignatureScheme
unfolding scheme algorithm_of hash_fn_of
from_parts [] = err (SchemeError.missing_field (lit "algorithm"))
from_parts (algorithm ∷ []) = err (SchemeError.missing_field (lit "hash_fn"))
from_parts (algorithm ∷ hash_fn ∷ parts) = scheme (algorithm_of algorithm) (hash_fn_of hash_fn)

-- `SignatureScheme::deserialize` of a JSON string.
unfoldable pub deserialize : Text → Result SchemeError SignatureScheme
unfolding split from_parts
deserialize as_str = from_parts (split b'-' as_str)
