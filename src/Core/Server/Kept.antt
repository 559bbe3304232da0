-- ===== src/Core/Server/Kept.antt =====
-- What each change of the chat core's state keeps, each event keeps (core/src/server.c).
use channel_wire.Prelude.{
  ℕ, zero, suc, ◌+◌, ◌≤◌, ◌<◌, Bool, true, false, none, some, [], ◌∷◌, ◌++◌, length, update, ltb,
  if◌then◌else◌, Bool-cases, inl, inr, ◌≡◌, arith,
}
use channel_wire.Core.Protocol.{Bytes, max_payload_size}
use channel_wire.Core.Server.{
  reset_client, ServerStats, Server, max_channels, no_client, put, same_name, with_frame,
  enqueue_payload, or_overflow, safe_enqueue_text, each, find_channel, username_in_use,
}
use channel_wire.Core.Server.Handlers.{set_name, has_joined}
use channel_wire.Core.Server.Events.{bytes_sent}

-- A property of the server that each change of its state keeps, where the code makes that change.
pub record IsKept (I : Server → Type 0) : Type 0 where
  pub enqueued :
      (i type : ℕ) (payload : Bytes) (s : Server)
      → (s.clients i).queued_bytes + 5 + length payload ≤ s.max_queue_bytes
      → I s
      → I (put i (with_frame type payload (s.clients i)) s)
  pub emptied : (i : ℕ) (s : Server) → I s → I (put i no_client s)
  pub counted : (stats : ServerStats) (s : Server) → I s → I (record s { stats = stats })
  pub named :
      (i : ℕ) (name : Bytes) (s : Server)
      → username_in_use s name i ≡ false
      → I s
      → I (set_name i name s)
  pub added :
      (name : Bytes) (s : Server)
      → find_channel s.channels name ≡ none
      → length s.channels < max_channels
      → I s
      → I (record s { channels = s.channels ++ (name ∷ []) })
  pub entered :
      (i k : ℕ) (name : Bytes) (s : Server)
      → find_channel s.channels name ≡ some k
      → I s
      → I (
          put i
            (record (s.clients i) {
              joined = update (s.clients i).joined k true;
              active_channel = name;
            })
            s)
  pub switched :
      (i : ℕ) (name : Bytes) (s : Server)
      → has_joined (find_channel s.channels name) (s.clients i) ≡ true
      → I s
      → I (put i (record (s.clients i) { active_channel = name }) s)
  pub left :
      (i k : ℕ) (name : Bytes) (s : Server)
      → find_channel s.channels name ≡ some k
      → I s
      → I (
          put i
            (record (s.clients i) {
              joined = update (s.clients i).joined k false;
              active_channel =
                  if same_name (s.clients i).active_channel name
                  then []
                  else (s.clients i).active_channel;
            })
            s)
  pub sent : (i n : ℕ) (s : Server) → I s → I (bytes_sent i n s)
  pub opened : (i : ℕ) (s : Server) → I s → I (put i (record no_client { is_open = true }) s)

module _ {I : Server → Type 0} (k : IsKept I) where
  pub reset_kept : (i : ℕ) (s : Server) → I s → I (reset_client i s)
  reset_kept i s h = k.emptied i _ (k.counted _ s h)

  pub overflow_kept : (i : ℕ) (s : Server) → I s → I (or_overflow i s none)
  overflow_kept i s h = reset_kept i _ (k.counted _ s h)

  pub enqueue_kept :
      (i type : ℕ) (payload : Bytes) (s : Server)
      → I s
      → I (or_overflow i s (enqueue_payload i type payload s))
  unfolding enqueue_payload
  enqueue_kept i type payload s h = elim (Bool-cases (ltb max_payload_size (length payload))) [
    | inl long ↦ rw long (overflow_kept i s h)
    | inr short ↦
        elim (Bool-cases
          (ltb s.max_queue_bytes ((s.clients i).queued_bytes + 5 + length payload))) [
            | inl full ↦ rw (short, full) (overflow_kept i s h)
            | inr room ↦ rw (short, room) (k.enqueued i type payload s (ground arith) h)
          ]
  ]

  pub text_kept :
      (i type : ℕ) (text : Bytes) (s : Server) → I s → I (safe_enqueue_text i type text s)
  unfolding safe_enqueue_text
  text_kept i type text s h = enqueue_kept i type text s h

  pub each_kept :
      (n : ℕ) (f : ℕ → Server → Server)
      → ((j : ℕ) (t : Server) → I t → I (f j t))
      → (s : Server) → I s
      → I (each n f s)
  unfolding each
  each_kept zero f keeps s h = h
  each_kept (suc n) f keeps s h = keeps n _ (each_kept n f keeps s h)

  -- A test that decides whether a change is made.
  pub if_kept : (b : Bool) (s t : Server) → I s → I t → I (if b then s else t)
  if_kept true s t h g = h
  if_kept false s t h g = g
