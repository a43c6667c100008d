-- ===== src/Tests/Startup.antt =====
-- Starting with concrete connection files, on a network that keeps the addresses in use.
use mathlib.Core.Path.{subst}
use nu_jupyter_kernel.Prelude.{
  ◌≡◌, ◌↔◌, ◌⊎◌, refl, List, [], ◌∷◌, ◌++◌, Bool, true, false, if◌then◌else◌, ◌||◌,
}
use nu_jupyter_kernel.Prelude.Text.{Text, lit, text_eq, text_eq_refl, decimal}
use nu_jupyter_kernel.Nu.{Result, ok, err}
use nu_jupyter_kernel.Startup.Connection.{
  ConnectionFile, SignatureScheme, SupportedSignatureAlgorithm, SupportedSignatureHashFunction,
  Transport, transport_text, ip_text, deserialize,
}
use nu_jupyter_kernel.Startup.Connection.Scheme.{deserialize_iff}
use nu_jupyter_kernel.Startup.Sockets.{Zmq, Sockets, endpoint, start}
use nu_jupyter_kernel.Startup.Sockets.Ports.{Distinct, AllBound, ports, start-Distinct}

-- A text with more than the two parts.
deserialize_iff_example : ((r : SignatureScheme) × (deserialize (lit "hmac-sha256-512") ≡ ok r)) ↔ (
    (lit "hmac-sha256-512" ≡ lit "hmac-sha256")
    ⊎ ((rest : Text) × (lit "hmac-sha256-512" ≡ lit "hmac-sha256-" ++ rest)))
deserialize_iff_example = deserialize_iff (lit "hmac-sha256-512")

abbrev pub in_use : Text → List Text → Bool
in_use e [] = false
in_use e (f ∷ net) = text_eq f e || in_use e net

-- A socket is the number of the addresses in use before it.
abbrev pub bind : List Text → Text → Result (Unit {0}) (Text × List Text)
bind net e = if in_use e net then err tt else ok (e, e ∷ net)

bound-net :
    (b : Bool) (e s : Text) (net net' : List Text)
    → ◌≡◌ {A = Result (Unit {0}) (Text × List Text)}
        (if b then err tt else ok (e, e ∷ net))
        (ok (s, net'))
    → (e ∷ net) ≡ net'
bound-net true e s net net' h = cc
bound-net false e s net net' h = cc

or-true : (b : Bool) → (b || true) ≡ true
or-true true = refl
or-true false = refl

pub bind-Bound :
    (net : List Text) (e s : Text) (net' : List Text)
    → bind net e ≡ ok (s, net')
    → in_use e net' ≡ true
bind-Bound net e s net' h =
    subst (λ n. in_use e n ≡ true) (bound-net (in_use e net) e s net net' h)
      (rw (text_eq_refl e) refl)

pub bind-keeps :
    (net : List Text) (e s : Text) (net' : List Text) (f : Text)
    → bind net e ≡ ok (s, net')
    → in_use f net ≡ true
    → in_use f net' ≡ true
bind-keeps net e s net' f h k =
    subst (λ n. in_use f n ≡ true) (bound-net (in_use e net) e s net net' h)
      (rw k (or-true (text_eq e f)))

abbrev pub network : Zmq
network = record {
  Net = List Text;
  Socket = Text;
  ZmqError = Unit {0};
  Bound = λ net e. in_use e net ≡ true;
  bind = bind;
  bind-Bound = bind-Bound;
  bind-keeps = bind-keeps;
  bind-refuses = λ net address port z h. (tt, rw h refl);
}

abbrev pub file : ConnectionFile
file = record {
  control_port = 50160;
  shell_port = 57503;
  transport = Transport.tcp;
  signature_scheme = record {
    algorithm = SupportedSignatureAlgorithm.hmac;
    hash_fn = SupportedSignatureHashFunction.sha256;
  };
  stdin_port = 52597;
  heartbeat_port = 42540;
  ip = record { a = 127; b = 0; c = 0; d = 1 };
  iopub_port = 40885;
  key = lit "key";
}

abbrev started :
    (sockets : Sockets Text) × (m : List Text) × (start network file [] ≡ ok (sockets, m))
unfolding start endpoint ip_text transport_text text_eq decimal
started = (_, _, refl)

start-Distinct_example : Distinct (ports file) × AllBound network file (started.1) (ports file)
start-Distinct_example =
    start-Distinct network file [] started.1 started.0
      ((λ e. cc), ((λ e. cc), ((λ e. cc), ((λ e. cc), ((λ e. cc), tt))))) started.2
