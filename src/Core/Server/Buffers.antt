-- ===== src/Core/Server/Buffers.antt =====
-- The input buffers of the chat core after any events (core/src/server.c).
use channel_wire.Core.Server.Reached.{run_kept}
use channel_wire.Core.Server.{Server}
use channel_wire.Core.Server.Input.{inbuf_cap, read_from_client, Received}
use channel_wire.Prelude.{suc, refl, arith, ◌≤◌, length, some, ◌≡◌, List, ℕ}
use channel_wire.Core.Server.Runs.{Event, run, started}
use channel_wire.Core.Server.Input.Drained.{IsShort, put-IsShort, IsShort-IsKept}
use channel_wire.Core.Server.Input.Reading.{IsLast, read_from_client-returns}

-- After any events, in any order, a reading from a client ends at the latest with the first call of
-- `recv` that gives no bytes and is not EINTR, whatever came before: as many rounds of the loop as there
-- are calls up to that one are enough. It leaves no more bytes in the input buffer than there is room for.
pub reading-returns :
    (limit : ℕ) (es : List Event) (n : ℕ) (results : ℕ → Received) (i : ℕ)
    → IsLast (results n)
    → (t : Server) × (read_from_client (suc n) results i (run es (started limit)) ≡ some t)
      × (length (t.clients i).inbuf ≤ inbuf_cap)
reading-returns limit es n results i last =
    let short : IsShort i inbuf_cap (run es (started limit)) =
      run_kept (IsShort-IsKept i inbuf_cap)
        (λ j input s fits h. put-IsShort i inbuf_cap j _ s h (λ e. fits (h j e))) es (started limit)
        (λ j e. omega arith) in
    read_from_client-returns n results i (run es (started limit)) last (short i refl)
