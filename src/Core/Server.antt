-- ===== src/Core/Server.antt =====
-- The state of the chat core (core/src/server.c): clients in slots, channels, counters, and the
-- frames that wait to be sent to each client. A client is the index of its slot.
pub mod Messages
pub mod Handlers
pub mod Events
pub mod Input
pub mod Runs
pub mod Reached
pub mod Buffers
pub mod Names
pub mod Kept
mod Answers
pub mod Handled
pub mod Queues
pub mod Usernames
pub mod Membership
pub mod Enqueued
pub mod Delivery
use channel_wire.Prelude.{
  ℕ, zero, suc, ◌+◌, ◌-◌, Bool, true, false, not, ◌&&◌, ◌||◌, Option, none, some, List, [], ◌∷◌,
  ◌++◌, length, update, ltb, leb, nat_eq, if◌then◌else◌,
}
use mathlib.Core.Option
use channel_wire.Core.Protocol.{Bytes, max_payload_size, write_header}

-- `clients` of core/src/server.c has this many slots, `channels` this many names.
abbrev pub max_clients : ℕ
max_clients = 128

abbrev pub max_channels : ℕ
max_channels = 64

abbrev pub name_cap : ℕ
name_cap = 32

abbrev pub text_cap : ℕ
text_cap = 1024

pub record OutFrame : Type 0 where
  pub bytes : Bytes
  pub sent : ℕ

-- `is_open` stands for `fd >= 0`.
pub record Client : Type 0 where
  pub is_open : Bool
  pub registered : Bool
  pub username : Bytes
  pub active_channel : Bytes
  pub joined : ℕ → Bool
  pub inbuf : Bytes
  pub queue : List OutFrame
  pub queued_bytes : ℕ

pub record ServerStats : Type 0 where
  pub current_connections : ℕ
  pub total_connections : ℕ
  pub channel_messages : ℕ
  pub direct_messages : ℕ
  pub malformed_frames : ℕ
  pub queue_disconnects : ℕ

pub record Server : Type 0 where
  pub clients : ℕ → Client
  pub channels : List Bytes
  pub max_queue_bytes : ℕ
  pub stats : ServerStats

-- A client after `memset` and `fd = -1`.
abbrev pub no_client : Client
no_client = record {
  is_open = false;
  registered = false;
  username = [];
  active_channel = [];
  joined = λ k. false;
  inbuf = [];
  queue = [];
  queued_bytes = 0;
}

abbrev pub put : ℕ → Client → Server → Server
put i c s = record s { clients = update s.clients i c }

-- `strcmp(a, b) == 0`
unfoldable pub same_name : Bytes → Bytes → Bool
same_name [] [] = true
same_name (x ∷ xs) (y ∷ ys) = nat_eq x y && same_name xs ys
same_name _ _ = false

-- `reset_client`
abbrev pub reset_client : ℕ → Server → Server
reset_client i s =
    let left = s.stats.current_connections - 1 in
    let counts = if (s.clients i).is_open then left else s.stats.current_connections in
    put i no_client (record s { stats = record s.stats { current_connections = counts } })

-- `disconnect_client`, without the line that it logs.
abbrev pub disconnect_client : ℕ → Server → Server
disconnect_client i s = reset_client i s

abbrev pub with_frame : ℕ → Bytes → Client → Client
with_frame type payload c =
    let frame = write_header type (length payload) ++ payload in
    record c {
      queue = c.queue ++ (record { bytes = frame; sent = 0 } ∷ []);
      queued_bytes = c.queued_bytes + length frame;
    }

-- `enqueue_payload`, `none` where it returns -1. Memory is taken to be available.
unfoldable pub enqueue_payload : ℕ → ℕ → Bytes → Server → Option Server
enqueue_payload i type payload s =
    if ltb max_payload_size (length payload)
    then none
    else if ltb s.max_queue_bytes ((s.clients i).queued_bytes + 5 + length payload)
    then none
    else some (put i (with_frame type payload (s.clients i)) s)

-- What follows an `enqueue_payload`: a client whose queue overflows is disconnected.
abbrev pub or_overflow : ℕ → Server → Option Server → Server
or_overflow i s (some s') = s'
or_overflow i s none =
    let counts = record s.stats { queue_disconnects = s.stats.queue_disconnects + 1 } in
    disconnect_client i (record s { stats = counts })

-- `safe_enqueue_text`; no caller uses the value that it returns.
unfoldable pub safe_enqueue_text : ℕ → ℕ → Bytes → Server → Server
unfolding enqueue_payload
safe_enqueue_text i type text s = or_overflow i s (enqueue_payload i type text s)

-- `for (size_t i = 0; i < n; i++)` over the slots.
unfoldable pub each : ℕ → (ℕ → Server → Server) → Server → Server
each zero f s = s
each (suc n) f s = f n (each n f s)

abbrev pub is_user : Server → ℕ → Bool
is_user s i = (s.clients i).is_open && (s.clients i).registered

abbrev pub is_member : Server → ℕ → ℕ → Bool
is_member s channel i = is_user s i && (s.clients i).joined channel

-- The loop of `username_in_use` over the first `n` slots.
unfoldable pub name_taken : Server → Bytes → ℕ → ℕ → Bool
unfolding same_name
name_taken s name except zero = false
name_taken s name except (suc n) =
    name_taken s name except n
    || (not (nat_eq n except) && is_user s n && same_name (s.clients n).username name)

abbrev pub username_in_use : Server → Bytes → ℕ → Bool
username_in_use s name except = name_taken s name except max_clients

-- `find_channel`
unfoldable pub find_channel : List Bytes → Bytes → Option ℕ
unfolding same_name
find_channel [] name = none
find_channel (c ∷ cs) name =
    if same_name c name then some 0 else Option.map suc (find_channel cs name)

abbrev pub ensured : Option ℕ → Bytes → Server → Option ℕ × Server
ensured (some k) name s = (some k, s)
ensured none name s =
    if leb max_channels (length s.channels)
    then (none, s)
    else (some (length s.channels), record s { channels = s.channels ++ (name ∷ []) })

-- `ensure_channel`
unfoldable pub ensure_channel : Bytes → Server → Option ℕ × Server
unfolding find_channel
ensure_channel name s = ensured (find_channel s.channels name) name s
