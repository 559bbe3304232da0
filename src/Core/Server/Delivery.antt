-- ===== src/Core/Server/Delivery.antt =====
-- What a message to a channel does to each client of the chat core (core/src/server.c).
use channel_wire.Core.Server.Enqueued.{enqueue-at, queued, enqueue-others}
use channel_wire.Prelude.{
  ℕ, zero, suc, ◌≤◌, ◌<◌, ◌&&◌, some, [], ◌∷◌, length, Bool-cases, inl, inr, ◌≡◌, ◌≢◌, refl, subst,
  ap, ◌∙◌, arith, ℕ_discrete, if◌then◌else◌,
}
use channel_wire.Core.Protocol.{Bytes, max_payload_size, write_strings}
use channel_wire.Core.Protocol.Strings.{write_strings-length}
use channel_wire.Core.Server.{Client, Server, max_clients, each, is_member, find_channel}
use channel_wire.Core.Server.Messages.{msg_chat, deliver, broadcast_chat}

-- A client after a message to a channel: a member of it has the message at the end of its queue, or is
-- disconnected where the queue has no room; another client is as it was.
abbrev pub received : ℕ → ℕ → Bytes → Client → Client
received limit channel payload c =
    let member = c.is_open && c.registered && c.joined channel in
    if member then queued limit msg_chat payload c else c

deliver-at :
    (channel : ℕ) (payload : Bytes) (j : ℕ) (s : Server)
    → length payload ≤ max_payload_size
    → (deliver channel payload j s).clients j
      ≡ received s.max_queue_bytes channel payload (s.clients j)
deliver-at channel payload j s short = elim (Bool-cases (is_member s channel j)) [
  | inl member ↦ rw member (enqueue-at j msg_chat payload s short)
  | inr other ↦ rw other refl
]

-- A delivery to one client leaves the others, and the limit, as they were.
deliver-others :
    (channel : ℕ) (payload : Bytes) (j : ℕ) (s : Server)
    → ((deliver channel payload j s).max_queue_bytes ≡ s.max_queue_bytes)
      × ((m : ℕ) → j ≢ m → (deliver channel payload j s).clients m ≡ s.clients m)
deliver-others channel payload j s = elim (Bool-cases (is_member s channel j)) [
  | inl member ↦ rw member (enqueue-others j msg_chat payload s)
  | inr other ↦ rw other (refl, λ m n. refl)
]

-- The loop over the slots has reached those below `n` and no other.
module _ (channel : ℕ) (payload : Bytes) where
  each-limit :
      (n : ℕ) (s : Server)
      → (each n (deliver channel payload) s).max_queue_bytes ≡ s.max_queue_bytes
  unfolding each
  each-limit zero s = refl
  each-limit (suc n) s =
      (deliver-others channel payload n (each n (deliver channel payload) s)).0 ∙ each-limit n s

  each-later :
      (n : ℕ) (s : Server) (j : ℕ)
      → n ≤ j
      → (each n (deliver channel payload) s).clients j ≡ s.clients j
  unfolding each
  each-later zero s j later = refl
  each-later (suc n) s j later =
      (deliver-others channel payload n (each n (deliver channel payload) s)).1 j (λ e. omega arith)
      ∙ each-later n s j (omega arith)

  each-reached :
      (n : ℕ) (s : Server) (j : ℕ)
      → length payload ≤ max_payload_size
      → j < n
      → (each n (deliver channel payload) s).clients j
        ≡ received s.max_queue_bytes channel payload (s.clients j)
  unfolding each
  each-reached zero s j short below = let never : ⊥ = omega arith in elim never [ ]
  each-reached (suc n) s j short below =
      let t = each n (deliver channel payload) s in
      elim (ℕ_discrete n j) [
        | yes e ↦
            let here : (deliver channel payload n t).clients n
                ≡ received s.max_queue_bytes channel payload (s.clients n) =
              deliver-at channel payload n t short
              ∙ ap (λ l. received l channel payload (t.clients n)) (each-limit n s)
              ∙ ap (received s.max_queue_bytes channel payload) (each-later n s n (omega arith)) in
            subst
              (λ k.
                (deliver channel payload n t).clients k
                ≡ received s.max_queue_bytes channel payload (s.clients k))
              e here
        | no other ↦
            (deliver-others channel payload n t).1 j other ∙ each-reached n s j short (omega arith)
      ]

-- A message of a sender in a channel of the core, whose text fits a frame, is put at the end of the
-- queue of every member of the channel that has room for it, the sender included; a member without room
-- is disconnected, and every other client is left as it was.
pub broadcast_chat-received :
    (sender : ℕ) (text : Bytes) (channel : ℕ) (payload : Bytes) (s : Server) (j : ℕ)
    → find_channel s.channels (s.clients sender).active_channel ≡ some channel
    → write_strings max_payload_size []
        ((s.clients sender).active_channel ∷ (s.clients sender).username ∷ text ∷ [])
      ≡ some payload
    → j < max_clients
    → (broadcast_chat sender text s).clients j
      ≡ received s.max_queue_bytes channel payload (s.clients j)
unfolding broadcast_chat
broadcast_chat-received sender text channel payload s j found written below =
    rw (found, written)
      (each-reached channel payload max_clients s j
        (write_strings-length max_payload_size [] _ payload (omega arith) written) below)
