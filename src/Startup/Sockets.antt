-- ===== src/Startup/Sockets.antt =====
-- main.rs, `Sockets::start`: the five sockets of the kernel and their addresses.
pub mod Ports
use nu_jupyter_kernel.Prelude.{ℕ, ◌≡◌, ◌≢◌, List, [], ◌∷◌, ◌++◌}
use nu_jupyter_kernel.Prelude.Text.{Text, lit, decimal}
use nu_jupyter_kernel.Nu.{Result, ok, err}
use nu_jupyter_kernel.Nu.Results.{◌>>=◌}
use nu_jupyter_kernel.Startup.Connection.{
  ConnectionFile, Transport, Ipv4Addr, PortAddr, transport_text, ip_text,
}

-- A network in which sockets are bound. An address stays bound, and a second socket is refused at an
-- address in use unless its port is 0, for which the system chooses a free one.
pub record Zmq : Type 1 where
  pub Net : Type 0
  pub Socket : Type 0
  pub ZmqError : Type 0
  pub Bound : Net → Text → Type 0
  pub bind : Net → Text → Result ZmqError (Socket × Net)
  pub bind-Bound : (n : Net) (e : Text) (s : Socket) (m : Net) → bind n e ≡ ok (s, m) → Bound m e
  pub bind-keeps :
      (n : Net) (e : Text) (s : Socket) (m : Net) (f : Text)
      → bind n e ≡ ok (s, m)
      → Bound n f
      → Bound m f
  pub bind-refuses :
      (n : Net) (address : Text) (port : ℕ)
      → port ≢ 0
      → Bound n (address ++ (lit ":" ++ decimal port))
      → (e : ZmqError) × (bind n (address ++ (lit ":" ++ decimal port)) ≡ err e)

pub record Sockets (Socket : Type 0) : Type 0 where
  pub shell : Socket
  pub iopub : Socket
  pub stdin : Socket
  pub control : Socket
  pub heartbeat : Socket

unfoldable pub address : ConnectionFile → Text
address file = transport_text file.transport ++ (lit "://" ++ ip_text file.ip)

-- The closure `endpoint`.
unfoldable pub endpoint : ConnectionFile → PortAddr → Text
unfolding address
endpoint file port = address file ++ (lit ":" ++ decimal port)

module _ (zmq : Zmq) where
  open zmq use {Net, Socket, ZmqError}

  -- `Sockets::start`, with the network that it leaves.
  unfoldable pub start : ConnectionFile → Net → Result ZmqError (Sockets Socket × Net)
  unfolding endpoint
  start file n0 = zmq.bind n0 (endpoint file file.shell_port) >>= λ (shell, n1).
      zmq.bind n1 (endpoint file file.iopub_port) >>= λ (iopub, n2).
      zmq.bind n2 (endpoint file file.stdin_port) >>= λ (stdin, n3).
      zmq.bind n3 (endpoint file file.control_port) >>= λ (control, n4).
      zmq.bind n4 (endpoint file file.heartbeat_port) >>= λ (heartbeat, n5). ok (
        record {
          shell = shell;
          iopub = iopub;
          stdin = stdin;
          control = control;
          heartbeat = heartbeat;
        },
        n5,
      )
