-- ===== src/Startup/Sockets/Ports.antt =====
-- The five ports of a kernel that has started.
use mathlib.Core.Path.{subst}
use nu_jupyter_kernel.Prelude.{ℕ, ◌≡◌, ◌≢◌, List, [], ◌∷◌, All}
use nu_jupyter_kernel.Nu.{Result, ok}
use nu_jupyter_kernel.Nu.Results.{>>=-eq-ok}
use nu_jupyter_kernel.Startup.Connection.{ConnectionFile, PortAddr}
use nu_jupyter_kernel.Startup.Sockets.{Zmq, Sockets, address, endpoint, start}

abbrev pub Distinct : List ℕ → Type 0
Distinct [] = Unit
Distinct (p ∷ ports) = All (λ q. q ≢ p) ports × Distinct ports

-- The last one to be bound is the first one here.
abbrev pub ports : ConnectionFile → List PortAddr
ports file =
    file.heartbeat_port ∷ file.control_port ∷ file.stdin_port ∷ file.iopub_port ∷ file.shell_port
    ∷ []

ok-net :
    {E A N : Type 0} (a b : A) (n m : N)
    → ◌≡◌ {A = Result E (A × N)} (ok (a, n)) (ok (b, m))
    → n ≡ m
ok-net a b n m e = cc

module _ (zmq : Zmq) (file : ConnectionFile) where
  open zmq use {Net, Socket, ZmqError}

  -- The network in which the ports are bound at the address of the file.
  abbrev pub AllBound : Net → List PortAddr → Type 0
  AllBound n bound = All (λ p. zmq.Bound n (endpoint file p)) bound

  -- One more port that is bound is none of those before.
  bind-new :
      (n m : Net) (s : Socket) (port : PortAddr) (bound : List PortAddr)
      → port ≢ 0
      → zmq.bind n (endpoint file port) ≡ ok (s, m)
      → AllBound n bound
      → All (λ q. q ≢ port) bound × AllBound m (port ∷ bound)
  unfolding endpoint
  bind-new n m s port [] z h k = (tt, (zmq.bind-Bound n _ s m h, tt))
  bind-new n m s port (q ∷ bound) z h k =
      let (fresh, (b, rest)) = bind-new n m s port bound z h k.1 in
      (
        (
          λ same.
              let (e, r) =
                zmq.bind-refuses n (address file) port z
                  (subst (λ x. zmq.Bound n (endpoint file x)) same k.0) in
              cc (h, r),
          fresh,
        ),
        (b, (zmq.bind-keeps n _ s m _ h k.0, rest)),
      )

  -- Where an address in use is refused: when the sockets have started on ports of which none is 0,
  -- the five ports are pairwise distinct and the addresses of all five are bound.
  pub start-Distinct :
      (n m : Net) (sockets : Sockets Socket)
      → All (λ p. p ≢ 0) (ports file)
      → start zmq file n ≡ ok (sockets, m)
      → Distinct (ports file) × AllBound m (ports file)
  unfolding start
  start-Distinct n m sockets (zh, (zc, (zs, (zi, (zl, z))))) h =
      let ((shell, n1), b1, h1) = >>=-eq-ok (zmq.bind n (endpoint file file.shell_port)) _ h in
      let ((iopub, n2), b2, h2) = >>=-eq-ok (zmq.bind n1 (endpoint file file.iopub_port)) _ h1 in
      let ((stdin, n3), b3, h3) = >>=-eq-ok (zmq.bind n2 (endpoint file file.stdin_port)) _ h2 in
      let ((control, n4), b4, h4) =
        >>=-eq-ok (zmq.bind n3 (endpoint file file.control_port)) _ h3 in
      let ((heartbeat, n5), b5, h5) =
        >>=-eq-ok (zmq.bind n4 (endpoint file file.heartbeat_port)) _ h4 in
      let (d1, k1) = bind-new n n1 shell file.shell_port [] zl b1 tt in
      let (d2, k2) = bind-new n1 n2 iopub file.iopub_port (file.shell_port ∷ []) zi b2 k1 in
      let (d3, k3) =
        bind-new n2 n3 stdin file.stdin_port (file.iopub_port ∷ file.shell_port ∷ []) zs b3 k2 in
      let (d4, k4) =
        bind-new n3 n4 control file.control_port
          (file.stdin_port ∷ file.iopub_port ∷ file.shell_port ∷ []) zc b4 k3 in
      let (d5, k5) =
        bind-new n4 n5 heartbeat file.heartbeat_port
          (file.control_port ∷ file.stdin_port ∷ file.iopub_port ∷ file.shell_port ∷ []) zh b5 k4 in
      (
        (d5, (d4, (d3, (d2, (d1, tt))))),
        subst (λ x. AllBound x (ports file)) (ok-net _ _ n5 m h5) k5,
      )
