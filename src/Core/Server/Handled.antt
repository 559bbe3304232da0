-- ===== src/Core/Server/Handled.antt =====
-- A property that each change of the chat core's state keeps is kept by the handler of a frame
-- (core/src/server.c).
use mathlib.Core.Option
use channel_wire.Prelude.{
  ℕ, ◌+◌, true, not, ◌||◌, Option, none, some, List, [], ◌∷◌, length, leb, nat_eq, if◌then◌else◌,
  Bool-cases, Option-cases, inl, inr, arith,
}
use channel_wire.Core.Protocol.{Bytes, max_payload_size, write_strings, read_strings}
use channel_wire.Core.Server.{
  Server, max_channels, max_clients, name_cap, text_cap, enqueue_payload, find_channel,
  ensure_channel, username_in_use,
}
use channel_wire.Core.Server.Messages.{msg_dm_recv, say_error}
use channel_wire.Core.Server.Handlers.{
  read_one_string, dm_enqueued, enqueue_strings, dm_to, dm_read, c_string, find_user, handle_dm,
  handle_nick, handle_hello, join_channel, switch_channel, leave_channel, read_name, hello_as,
  join_named, has_joined, switch_to, leave_named, nick_as,
}
use channel_wire.Core.Server.Events.{
  get_stats, quit, nick, list, who, dm, say, leave, switch, join, hello, ClientMsgType, say_read,
  handle_say, handle_msg,
}
use channel_wire.Core.Server.Names.{find_channel-end}
use channel_wire.Core.Server.Kept.{
  IsKept, reset_kept, overflow_kept, enqueue_kept, text_kept, if_kept,
}
use channel_wire.Core.Server.Answers.{
  error_kept, system_kept, chat_kept, who_kept, list_kept, stats_kept,
}

module _ {I : Server → Type 0} (k : IsKept I) where
  hello_kept : (o : Option Bytes) (i : ℕ) (s : Server) → I s → I (hello_as o i s)
  hello_kept none i s h = text_kept k i _ _ s h
  hello_kept (some name) i s h = elim (Bool-cases (username_in_use s name i)) [
    | inl taken ↦ rw taken (text_kept k i _ _ s h)
    | inr free ↦ rw free (text_kept k i _ _ _ (k.named i name s free h))
  ]

  nick_kept : (o : Option Bytes) (i : ℕ) (s : Server) → I s → I (nick_as o i s)
  nick_kept none i s h = text_kept k i _ _ s h
  nick_kept (some name) i s h = elim (Bool-cases (username_in_use s name i)) [
    | inl taken ↦ rw taken (text_kept k i _ _ s h)
    | inr free ↦ rw free (system_kept k i _ _ (text_kept k i _ _ _ (k.named i name s free h)))
  ]

  leave_kept : (o : Option Bytes) (i : ℕ) (s : Server) → I s → I (leave_named o i s)
  leave_kept none i s h = text_kept k i _ _ s h
  leave_kept (some name) i s h = elim (Option-cases (find_channel s.channels name)) [
    | inl absent ↦ rw absent (text_kept k i _ _ s h)
    | inr (c, found) ↦
        rw found (
          if_kept k _ _ _ (text_kept k i _ _ s h) (text_kept k i _ _ _ (k.left i c name s found h)))
  ]

  switch_kept : (o : Option Bytes) (i : ℕ) (s : Server) → I s → I (switch_to o i s)
  switch_kept none i s h = text_kept k i _ _ s h
  switch_kept (some name) i s h =
      elim (Bool-cases (has_joined (find_channel s.channels name) (s.clients i))) [
        | inl joined ↦ rw joined (text_kept k i _ _ _ (k.switched i name s joined h))
        | inr other ↦ rw other (text_kept k i _ _ s h)
      ]

  join_kept : (o : Option Bytes) (i : ℕ) (s : Server) → I s → I (join_named o true i s)
  unfolding ensure_channel
  join_kept none i s h = text_kept k i _ _ s h
  join_kept (some name) i s h = elim (Option-cases (find_channel s.channels name)) [
    | inr (c, found) ↦ rw found (text_kept k i _ _ _ (k.entered i c name s found h))
    | inl absent ↦ elim (Bool-cases (leb max_channels (length s.channels))) [
      | inl full ↦ rw (absent, full) (text_kept k i _ _ s h)
      | inr room ↦
          rw (absent, room)
            (text_kept k i _ _ _ (
              k.entered i (length s.channels) name _ (find_channel-end s.channels name absent)
                (k.added name s absent (ground arith) h)))
    ]
  ]

  dm_enqueued_kept :
      (payload : Option Bytes) (target i : ℕ) (s : Server)
      → I s
      → I (
          dm_enqueued
            (Option.bind payload (λ p. enqueue_payload target msg_dm_recv p s))
            target
            i
            s)
  unfolding Option.bind
  dm_enqueued_kept none target i s h = overflow_kept k target s h
  dm_enqueued_kept (some payload) target i s h =
      elim (Option-cases (enqueue_payload target msg_dm_recv payload s)) [
        | inl full ↦ rw full (overflow_kept k target s h)
        | inr (s', ok) ↦
            let sent : I s' = rw ok at (enqueue_kept k target msg_dm_recv payload s h) in
            rw ok (text_kept k i _ _ _ (k.counted _ s' sent))
      ]

  dm_to_kept : (o : Option ℕ) (text : Bytes) (i : ℕ) (s : Server) → I s → I (dm_to o text i s)
  unfolding enqueue_strings
  dm_to_kept none text i s h = text_kept k i _ _ s h
  dm_to_kept (some target) text i s h =
      let values = (s.clients i).username ∷ text ∷ [] in
      dm_enqueued_kept (write_strings max_payload_size [] values) target i s h

  dm_read_kept :
      (r : Option (List Bytes) × ℕ) (size i : ℕ) (s : Server) → I s → I (dm_read r size i s)
  dm_read_kept (some (name ∷ text ∷ []), offset) size i s h =
      if_kept k (not (nat_eq offset size) || nat_eq (length (c_string text)) 0) _ _
        (error_kept k i "invalid direct message" s h)
        (dm_to_kept (find_user s (c_string name) 0 max_clients) (c_string text) i s h)
  dm_read_kept (none, offset) size i s h = text_kept k i _ _ s h
  dm_read_kept (some [], offset) size i s h = text_kept k i _ _ s h
  dm_read_kept (some (a ∷ []), offset) size i s h = text_kept k i _ _ s h
  dm_read_kept (some (a ∷ b ∷ c ∷ more), offset) size i s h = text_kept k i _ _ s h

  -- A handler that wants a registered client.
  registered_kept :
      (i : ℕ) (s t : Server)
      → I s
      → I t
      → I (if not (s.clients i).registered then say_error i "send HELLO first" s else t)
  registered_kept i s t h g =
      if_kept k (not (s.clients i).registered) _ t (error_kept k i "send HELLO first" s h) g

  say_read_kept : (o : Option Bytes) (i : ℕ) (s : Server) → I s → I (say_read o i s)
  say_read_kept none i s h = text_kept k i _ _ s h
  say_read_kept (some text) i s h =
      if_kept k (nat_eq (length text) 0) _ _ (error_kept k i "invalid message" s h)
        (chat_kept k i text s h)

  say_kept : (i : ℕ) (payload : Bytes) (s : Server) → I s → I (handle_say i payload s)
  unfolding handle_say
  say_kept i payload s h = registered_kept i s _ h (
      if_kept k (nat_eq (length (s.clients i).active_channel) 0) _ _
        (error_kept k i "join a channel before sending" s h)
        (say_read_kept (read_one_string payload (text_cap + 1)) i s h))

  pub handle_msg_kept :
      (o : Option ClientMsgType) (i : ℕ) (payload : Bytes) (s : Server)
      → I s
      → I (handle_msg o i payload s)
  unfolding handle_hello handle_nick join_channel switch_channel leave_channel handle_dm
  handle_msg_kept none i payload s h = text_kept k i _ _ s h
  handle_msg_kept (some hello) i payload s h = hello_kept (read_name payload) i s h
  handle_msg_kept (some join) i payload s h =
      registered_kept i s _ h (join_kept (read_name payload) i s h)
  handle_msg_kept (some switch) i payload s h =
      registered_kept i s _ h (switch_kept (read_name payload) i s h)
  handle_msg_kept (some leave) i payload s h = leave_kept (read_name payload) i s h
  handle_msg_kept (some say) i payload s h = say_kept i payload s h
  handle_msg_kept (some dm) i payload s h = registered_kept i s _ h (
      dm_read_kept (read_strings payload 0 ((name_cap + 1) ∷ (text_cap + 1) ∷ [])) (length payload)
        i s h)
  handle_msg_kept (some who) i payload s h = who_kept k i s h
  handle_msg_kept (some list) i payload s h = list_kept k i s h
  handle_msg_kept (some nick) i payload s h = nick_kept (read_name payload) i s h
  handle_msg_kept (some quit) i payload s h = reset_kept k i s h
  handle_msg_kept (some get_stats) i payload s h = stats_kept k i s h
