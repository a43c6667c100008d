-- ===== src/Messages.antt =====
-- jupyter/messages/mod.rs and jupyter/mod.rs: headers, messages, and the kernel's three statics.
-- `J` stands for `serde_json::Value`.
pub mod Shell
pub mod Control
pub mod Iopub
pub mod KernelInfo
pub mod Content
pub mod Wire
pub mod Multipart
pub mod Replies
pub mod Ids
use nu_jupyter_kernel.Prelude.{ℕ, ◌+◌, ◌%◌, ◌^◌, List, ◌++◌, Option, none, some, Bool}
use nu_jupyter_kernel.Prelude.Text.{Bytes, Text, lit, decimal}
use nu_jupyter_kernel.Cell.{usize_mod}

pub record Shutdown : Type 0 where
  pub restart : Bool

pub record Header : Type 0 where
  pub msg_id : Text
  pub session : Text
  pub username : Text
  pub date : Text
  pub msg_type : Text
  pub version : Text

pub record Message (J C : Type 0) : Type 0 where
  pub zmq_identities : List Bytes
  pub header : Header
  pub parent_header : Option Header
  pub metadata : J
  pub content : C
  pub buffers : List Bytes

-- Where a message comes from.
pub data Channel : Type 0 where
  shell stdin control : Channel

-- `KERNEL_SESSION`, `MESSAGE_COUNTER` and `DIGESTER`: the session's name and the key are set once.
pub record Globals : Type 0 where
  pub session : Option Text
  pub message_counter : ℕ
  pub key : Option Bytes

-- What the process reads from outside: a fresh UUID, the clock at the n-th header, and the crates
-- `hmac` and `hex`.
pub record Host : Type 0 where
  pub uuid : Text
  pub now : ℕ → Text
  pub hmac_sha256 : Bytes → Bytes → Bytes
  pub hex_encode : Bytes → Text

-- `CARGO_TOML.package.metadata.jupyter.protocol_version`
unfoldable pub protocol_version : Text
protocol_version = lit "5.4"

unfoldable pub get_session : Host → Globals → Text × Globals
get_session host g = elim g.session [
  | some session ↦ (session, g)
  | none ↦ (host.uuid, record g { session = some host.uuid })
]

-- `Digester::key_init`: a second key is a panic, as in `expect("already set")`.
unfoldable pub key_init : Bytes → Globals → Option Globals
key_init key g = elim g.key [ none ↦ some (record g { key = some key }) | some _ ↦ none ]

unfoldable pub msg_id_of : Text → ℕ → Text
msg_id_of session counter = session ++ (lit ":" ++ decimal counter)

-- `Header::new`: `fetch_add` gives the old count and wraps.
unfoldable pub new_header : Host → Text → Globals → Header × Globals
unfolding get_session msg_id_of protocol_version
new_header host msg_type g =
    let (session, g') = get_session host g in
    let counter : ℕ = g'.message_counter in
    (
      record {
        msg_id = msg_id_of session counter;
        session = session;
        username = lit "nu_kernel";
        date = host.now counter;
        msg_type = msg_type;
        version = protocol_version;
      },
      record g' { message_counter = (counter + 1) % usize_mod },
    )
