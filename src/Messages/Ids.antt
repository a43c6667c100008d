-- ===== src/Messages/Ids.antt =====
-- The ids of the kernel's headers over a session.
use mathlib.Core.List.{Nodup, Nodup-cons, Nodup-nil}
use nu_jupyter_kernel.Prelude.{
  ℕ, ◌+◌, ◌<◌, ◌≡◌, refl, ap, ◌≢◌, List, [], ◌∷◌, map, arith, length, All, not_mem_of_All,
  append_cancel_left,
}
use nu_jupyter_kernel.Prelude.Text.{Text, lit, decimal-injective}
use nu_jupyter_kernel.Cell.{usize_mod}
use nu_jupyter_kernel.Messages.{Globals, Header, Host, get_session, msg_id_of, new_header}

msg_id_of-injective : (s : Text) (m n : ℕ) → msg_id_of s m ≡ msg_id_of s n → m ≡ n
unfolding msg_id_of
msg_id_of-injective s m n e =
    decimal-injective m n (append_cancel_left (lit ":") _ _ (append_cancel_left s _ _ e))

-- The headers that a sequence of message types gets, one after the other.
unfoldable pub headers : Host → List Text → Globals → List Header
headers host [] g = []
headers host (t ∷ ts) g = let (h, g') = new_header host t g in h ∷ headers host ts g'

-- The name of the session, once some header was made.
abbrev pub session_of : Host → Globals → Text
session_of host g = (get_session host g).0

abbrev pub ids : Host → List Text → Globals → List Text
ids host ts g = map (λ h. h.msg_id) (headers host ts g)

next : Host → Text → Globals → Globals
next host t g = (new_header host t g).1

next_counter :
    (host : Host) (t : Text) (g : Globals)
    → g.message_counter + 1 < usize_mod
    → (next host t g).message_counter ≡ g.message_counter + 1
unfolding next new_header get_session
next_counter host t g h = ground arith

next_session :
    (host : Host) (t : Text) (g : Globals) → session_of host (next host t g) ≡ session_of host g
unfolding next new_header get_session
next_session host t g = ground arith

get_session_counter :
    (host : Host) (g : Globals) → (get_session host g).1.message_counter ≡ g.message_counter
unfolding get_session
get_session_counter host g = ground arith

ids-cons :
    (host : Host) (t : Text) (ts : List Text) (g : Globals)
    → ids host (t ∷ ts) g
      ≡ msg_id_of (session_of host g) g.message_counter ∷ ids host ts (next host t g)
unfolding headers next new_header
ids-cons host t ts g =
    ap (λ c. msg_id_of (session_of host g) c ∷ ids host ts (new_header host t g).1)
      (get_session_counter host g)

ids-nil : (host : Host) (g : Globals) → ids host [] g ≡ []
unfolding headers
ids-nil host g = refl

ids_past :
    (host : Host) (ts : List Text) (g : Globals) (n : ℕ)
    → g.message_counter + length ts < usize_mod
    → n < g.message_counter
    → All (λ id. id ≢ msg_id_of (session_of host g) n) (ids host ts g)
ids_past host [] g n room past = rw (ids-nil host g) tt
ids_past host (t ∷ ts) g n room past =
    let counter = next_counter host t g (omega arith) in
    let rest = ids_past host ts (next host t g) n (omega arith) (omega arith) in
    rw (ids-cons host t ts g) (
      (λ e.
          let same = msg_id_of-injective (session_of host g) g.message_counter n e in omega arith),
      (rw (next_session host t g) at rest),
    )

-- No two headers of a session have the same id, as long as the counter does not wrap.
pub ids-Nodup :
    (host : Host) (ts : List Text) (g : Globals)
    → g.message_counter + length ts < usize_mod
    → Nodup (ids host ts g)
ids-Nodup host [] g room = rw (ids-nil host g) Nodup-nil
ids-Nodup host (t ∷ ts) g room =
    let counter = next_counter host t g (omega arith) in
    let past = ids_past host ts (next host t g) g.message_counter (omega arith) (omega arith) in
    rw (ids-cons host t ts g) (
      Nodup-cons.1 (
        not_mem_of_All _ _ (rw (next_session host t g) at past),
        ids-Nodup host ts (next host t g) (omega arith),
      ))
