-- ===== src/Core/Server/Queues.antt =====
-- The queues of the chat core (core/src/server.c) stay within their limit.
use channel_wire.Prelude.{
  ℕ, ◌+◌, ◌≤◌, List, [], ◌∷◌, ◌++◌, length, nat_eq, Bool-cases, inl, inr, ◌≡◌, refl, arith,
  update-All,
}
use channel_wire.Core.Protocol.{Bytes, write_header}
use channel_wire.Core.Server.{Client, OutFrame, Server, no_client, put, with_frame}
use channel_wire.Core.Server.Events.{frames_sent, bytes_sent}
use channel_wire.Core.Server.Runs.{Event, run, started}
use channel_wire.Core.Server.Kept.{IsKept}
use channel_wire.Core.Server.Reached.{run_kept}

-- The bytes of the frames that wait, with those already sent of the first one.
pub total : List OutFrame → ℕ
total [] = 0
total (f ∷ fs) = length f.bytes + total fs

abbrev pub Fits : ℕ → Client → Type 0
Fits limit c = (c.queued_bytes ≡ total c.queue) × (c.queued_bytes ≤ limit)

abbrev AllFit : ℕ → Server → Type 0
AllFit limit s = (s.max_queue_bytes ≡ limit) × ((i : ℕ) → Fits limit (s.clients i))

total-append : (fs gs : List OutFrame) → total (fs ++ gs) ≡ total fs + total gs
unfolding total
total-append [] gs = omega arith
total-append (f ∷ fs) gs = rw (total-append fs gs) (omega arith)

put-AllFit :
    (limit i : ℕ) (c : Client) (s : Server)
    → AllFit limit s
    → Fits limit c
    → AllFit limit (put i c s)
put-AllFit limit i c s h fit = (h.0, update-All (λ j x. Fits limit x) s.clients i c h.1 fit)

with_frame-Fits :
    (limit type : ℕ) (payload : Bytes) (c : Client)
    → c.queued_bytes + 5 + length payload ≤ limit
    → Fits limit c
    → Fits limit (with_frame type payload c)
unfolding total write_header
with_frame-Fits limit type payload c room h =
    let frame : OutFrame = record {
      bytes = write_header type (length payload) ++ payload;
      sent = 0;
    } in
    let sum = total-append c.queue (frame ∷ []) in
    let size : length frame.bytes ≡ 5 + length payload = omega arith in
    let all : c.queued_bytes + length frame.bytes ≡ total (c.queue ++ (frame ∷ [])) = omega arith in
    (all, omega arith)

frames_sent-Fits :
    (limit n : ℕ) (fs : List OutFrame) (c : Client)
    → c.queue ≡ fs
    → Fits limit c
    → Fits limit (frames_sent n fs c)
unfolding total
frames_sent-Fits limit n [] c e h = h
frames_sent-Fits limit n (f ∷ fs) c e h =
    let all : c.queued_bytes ≡ length f.bytes + total fs = rw e at h.0 in
    elim (Bool-cases (nat_eq (f.sent + n) (length f.bytes))) [
      | inl done ↦ rw done (omega arith, omega arith)
      | inr more ↦ rw more (all, h.1)
    ]

none-Fits : (limit : ℕ) → Fits limit no_client
unfolding total
none-Fits limit = (refl, omega arith)

AllFit-IsKept : (limit : ℕ) → IsKept (AllFit limit)
unfolding bytes_sent
AllFit-IsKept limit = record {
  enqueued = λ i type payload s room h.
      put-AllFit limit i _ s h
        (with_frame-Fits limit type payload (s.clients i) (rw h.0 at room) (h.1 i));
  emptied = λ i s h. put-AllFit limit i _ s h (none-Fits limit);
  counted = λ stats s h. h;
  named = λ i name s free h. put-AllFit limit i _ s h (h.1 i);
  added = λ name s absent room h. h;
  entered = λ i k name s found h. put-AllFit limit i _ s h (h.1 i);
  switched = λ i name s joined h. put-AllFit limit i _ s h (h.1 i);
  left = λ i k name s found h. put-AllFit limit i _ s h (h.1 i);
  sent =
      λ i n s h. put-AllFit limit i _ s h (frames_sent-Fits limit n _ (s.clients i) refl (h.1 i));
  opened = λ i s h. put-AllFit limit i _ s h (none-Fits limit);
}

-- After any events, in any order, the number of queued bytes of each client of the core is that of the
-- frames in its queue, and is at most the limit that the server started with.
pub queues_bounded :
    (limit : ℕ) (es : List Event) (i : ℕ) → Fits limit ((run es (started limit)).clients i)
queues_bounded limit es i =
    (run_kept (AllFit-IsKept limit) (λ j input s fits h. put-AllFit limit j _ s h (h.1 j)) es
        (started limit) (refl, λ j. none-Fits limit)).1
      i
