-- ===== src/Core/Server/Runs.antt =====
-- The events of the chat core, as the poll loop of core/src/server.c meets them: a connection, bytes to
-- read, room to send, or the loss of a client, in any order.
use channel_wire.Core.Server.{disconnect_client, max_clients, some, no_client, Server}
use channel_wire.Prelude.{
  zero, length, suc, ◌&&◌, [], none, ltb, ◌∷◌, if◌then◌else◌, List, ℕ, Option,
}
use channel_wire.Core.Server.Events.{accept_client, bytes_sent}
use channel_wire.Core.Server.Input.{would_block, Received, read_from_client}

pub data Event : Type 0 where
  connected : Event
  readable : ℕ → List Received → Event
  written : (i n : ℕ) → Event
  lost : ℕ → Event

-- The results of the calls of `recv`, and EAGAIN after them. A run goes on after a reading that ends, and
-- such a reading makes finitely many calls.
unfoldable pub results_of : List Received → ℕ → Received
results_of [] n = would_block
results_of (r ∷ rs) zero = r
results_of (r ∷ rs) (suc n) = results_of rs n

-- Where the fuel of a reading runs out, the state is left as it is.
abbrev pub or_same : Option Server → Server → Server
or_same none s = s
or_same (some t) s = t

-- Bytes are read, and are sent, only for a client in an open slot.
unfoldable pub step : Event → Server → Server
unfolding accept_client read_from_client results_of bytes_sent
step connected s = accept_client s
step (readable i rs) s =
    let t = or_same (read_from_client (suc (length rs)) (results_of rs) i s) s in
    if ltb i max_clients && (s.clients i).is_open then t else s
step (written i n) s = if ltb i max_clients && (s.clients i).is_open then bytes_sent i n s else s
step (lost i) s = if ltb i max_clients then disconnect_client i s else s

unfoldable pub run : List Event → Server → Server
unfolding step
run [] s = s
run (e ∷ es) s = run es (step e s)

-- The server as it starts, with the limit of the queues.
abbrev pub started : ℕ → Server
started max_queue_bytes = record {
  clients = λ i. no_client;
  channels = [];
  max_queue_bytes = max_queue_bytes;
  stats = record {
    current_connections = 0;
    total_connections = 0;
    channel_messages = 0;
    direct_messages = 0;
    malformed_frames = 0;
    queue_disconnects = 0;
  };
}
