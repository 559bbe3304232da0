-- ===== src/Core/Server/Enqueued.antt =====
-- What a frame for one client does to each client of the chat core (core/src/server.c).
use channel_wire.Core.Protocol.{max_payload_size, Bytes}
use channel_wire.Core.Server.{
  put, no_client, with_frame, or_overflow, Client, enqueue_payload, Server,
}
use channel_wire.Prelude.{
  refl, inr, arith, update_ne, none, update_self, inl, ltb, some, Bool-cases, ◌≢◌, ◌+◌, leb, ◌≤◌,
  ◌≡◌, if◌then◌else◌, Bool, length, ℕ,
}

-- A client for which there is a frame: it has the frame at the end of its queue, or is disconnected
-- where the queue has no room.
abbrev pub queued : ℕ → ℕ → Bytes → Client → Client
queued limit type payload c =
    if leb (c.queued_bytes + 5 + length payload) limit then with_frame type payload c else no_client

-- Whether the queue of a client has room for a payload.
abbrev pub has_room : Server → ℕ → Bytes → Bool
has_room s i payload = leb ((s.clients i).queued_bytes + 5 + length payload) s.max_queue_bytes

pub enqueue_payload-room :
    (i type : ℕ) (payload : Bytes) (s : Server)
    → length payload ≤ max_payload_size
    → enqueue_payload i type payload s ≡ (
        if has_room s i payload
        then some (put i (with_frame type payload (s.clients i)) s)
        else none)
unfolding enqueue_payload
enqueue_payload-room i type payload s short = ground arith

pub enqueue-at :
    (i type : ℕ) (payload : Bytes) (s : Server)
    → length payload ≤ max_payload_size
    → (or_overflow i s (enqueue_payload i type payload s)).clients i
      ≡ queued s.max_queue_bytes type payload (s.clients i)
enqueue-at i type payload s short = elim (Bool-cases (has_room s i payload)) [
  | inl room ↦ rw (enqueue_payload-room i type payload s short, room) (update_self s.clients i _)
  | inr full ↦ rw (enqueue_payload-room i type payload s short, full) (update_self s.clients i _)
]

-- The others, and the limit, are as they were.
pub enqueue-others :
    (i type : ℕ) (payload : Bytes) (s : Server)
    → ((or_overflow i s (enqueue_payload i type payload s)).max_queue_bytes ≡ s.max_queue_bytes)
      × ((m : ℕ)
          → i ≢ m
          → (or_overflow i s (enqueue_payload i type payload s)).clients m ≡ s.clients m)
unfolding enqueue_payload
enqueue-others i type payload s = elim (Bool-cases (ltb max_payload_size (length payload))) [
  | inl long ↦ rw long (refl, λ m n. update_ne s.clients i m no_client n)
  | inr short ↦
      elim (Bool-cases (ltb s.max_queue_bytes ((s.clients i).queued_bytes + 5 + length payload))) [
        | inl full ↦ rw (short, full) (refl, λ m n. update_ne s.clients i m no_client n)
        | inr free ↦ rw (short, free) (refl, λ m n. update_ne s.clients i m _ n)
      ]
]
