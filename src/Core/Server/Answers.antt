-- ===== src/Core/Server/Answers.antt =====
-- A property that each change of the chat core's state keeps, each message that the core sends keeps
-- (core/src/server.c).
use channel_wire.Prelude.{ℕ, String, Option, none, some, [], ◌∷◌, length, leb}
use channel_wire.Urls.Escapes.{utf8_all}
use channel_wire.Core.Protocol.{Bytes, max_payload_size, write_strings}
use channel_wire.Core.Server.{Server, max_clients, find_channel}
use channel_wire.Core.Server.Messages.{
  msg_who_resp, msg_list_resp, member_names, msg_error, msg_stats_resp, say_error, join_lines,
  stats_text, notify, notify_all, broadcast_system, chat_payload, chat_to, broadcast_chat, answer,
  who_in, send_who, send_list, send_stats,
}
use channel_wire.Core.Server.Kept.{IsKept, enqueue_kept, text_kept, each_kept, if_kept}

module _ {I : Server → Type 0} (k : IsKept I) where
  pub error_kept : (i : ℕ) (text : String) (s : Server) → I s → I (say_error i text s)
  error_kept i text s h = text_kept k i msg_error (utf8_all text) s h

  pub notify_kept :
      (o : Option ℕ) (i : ℕ) (text : Bytes) (s : Server) → I s → I (notify_all o i text s)
  notify_kept none i text s h = h
  notify_kept (some channel) i text s h =
      each_kept k max_clients (notify i channel text)
        (λ j t g. if_kept k _ _ t (text_kept k j _ text t g) g) s h

  pub system_kept : (i : ℕ) (text : Bytes) (s : Server) → I s → I (broadcast_system i text s)
  unfolding broadcast_system
  system_kept i text s h =
      notify_kept (find_channel s.channels (s.clients i).active_channel) i text s h

  pub payload_kept :
      (o : Option Bytes) (i channel : ℕ) (s : Server) → I s → I (chat_payload o i channel s)
  payload_kept none i channel s h = text_kept k i _ _ s h
  payload_kept (some payload) i channel s h =
      k.counted _ _ (
        each_kept k max_clients _ (λ j t g. if_kept k _ _ t (enqueue_kept k j _ payload t g) g) s h)

  pub chat_to_kept :
      (o : Option ℕ) (i : ℕ) (text : Bytes) (s : Server) → I s → I (chat_to o i text s)
  chat_to_kept none i text s h = text_kept k i _ _ s h
  chat_to_kept (some channel) i text s h =
      let c = s.clients i in
      let values = c.active_channel ∷ c.username ∷ text ∷ [] in
      payload_kept (write_strings max_payload_size [] values) i channel s h

  pub chat_kept : (i : ℕ) (text : Bytes) (s : Server) → I s → I (broadcast_chat i text s)
  unfolding broadcast_chat
  chat_kept i text s h =
      chat_to_kept (find_channel s.channels (s.clients i).active_channel) i text s h

  pub answer_kept :
      (o : Option Bytes) (type : ℕ) (large : String) (i : ℕ) (s : Server)
      → I s
      → I (answer o type large i s)
  answer_kept none type large i s h = text_kept k i _ _ s h
  answer_kept (some payload) type large i s h = text_kept k i type payload s h

  pub who_in_kept : (o : Option ℕ) (i : ℕ) (s : Server) → I s → I (who_in o i s)
  who_in_kept none i s h = text_kept k i _ _ s h
  who_in_kept (some channel) i s h =
      answer_kept (join_lines [] (member_names s channel max_clients)) msg_who_resp
        "WHO response too large" i s h

  pub who_kept : (i : ℕ) (s : Server) → I s → I (send_who i s)
  unfolding send_who
  who_kept i s h = who_in_kept (find_channel s.channels (s.clients i).active_channel) i s h

  pub list_kept : (i : ℕ) (s : Server) → I s → I (send_list i s)
  unfolding send_list
  list_kept i s h =
      answer_kept (join_lines [] s.channels) msg_list_resp "LIST response too large" i s h

  pub stats_kept : (i : ℕ) (s : Server) → I s → I (send_stats i s)
  unfolding send_stats
  stats_kept i s h =
      if_kept k (leb max_payload_size (length (stats_text s))) _ _
        (error_kept i "stats response too large" s h)
        (text_kept k i msg_stats_resp (stats_text s) s h)
