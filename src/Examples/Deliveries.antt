-- ===== src/Examples/Deliveries.antt =====
-- Messages on their way from page to page, at concrete texts and a concrete state of the chat core.
use channel_wire.Service.Mismatches.{figures_refused}
use channel_wire.World.Setters.{wait_for}
use channel_wire.Service.Endpoints.{
  hello_payload, open_registered_core, core_stats_response, channels_response, http_exception,
  as_text, status_code,
}
use channel_wire.Service.Letters.{dm_delivered, told_sent}
use channel_wire.Service.Requests.Accepted.{core_payload-message_of}
use channel_wire.Stats.{core_responded}
use channel_wire.Service.Journey.{IsWhole, message_delivered}
use channel_wire.Service.Journey.Single.{is_not_nul}
use channel_wire.Core.Server.Messages.{msg_chat}
use channel_wire.Core.Server.Enqueued.{has_room, queued}
use channel_wire.Core.Protocol.Strings.{encoded_all}
use channel_wire.Service.Text.{is_blank}
use channel_wire.Service.Wire.Agreement.{wire, AreFramed}
use channel_wire.Core.Server.Delivery.{received}
use channel_wire.Core.Server.Events.{handle_frame}
use channel_wire.Core.Server.Runs.{started}
use channel_wire.Text.{all_chars, is_recipient}
use channel_wire.Urls.Escapes.{utf8_all}
use channel_wire.Core.Server.{no_client, max_clients, Client, Server, find_channel}
use channel_wire.Core.Server.Handlers.{find_user}
use channel_wire.Core.Protocol.{Bytes}
use channel_wire.Prelude.{
  [], nat_eq, arith, refl, ◌≤◌, false, ◌∷◌, if◌then◌else◌, some, length, true, ◌≡◌,
}
use channel_wire.Types.{say, dm, GatewayEvent, PlatformStats}
use channel_wire.Service.Requests.{accepted, message_of, core_payload_for_command}
use channel_wire.Service.Replies.{gateway_event, event}
use channel_wire.World.{refresh_button, channels_head}

abbrev talker : Bytes → Client
talker name = record no_client {
  is_open = true;
  registered = true;
  username = name;
  active_channel = utf8_all "x";
  joined = λ k. true;
}

-- Two users in one channel.
abbrev two_users : Server
two_users = record (started 65536) {
  clients = λ i.
      if nat_eq i 0
      then talker (utf8_all "al")
      else if nat_eq i 1
      then talker (utf8_all "bo")
      else no_client;
  channels = utf8_all "x" ∷ [];
}

in_channel_x : find_channel two_users.channels (utf8_all "x") ≡ some 0
unfolding find_channel utf8_all
in_channel_x = refl

finds_bo : find_user two_users (utf8_all "bo") 0 max_clients ≡ some 1
unfolding find_user utf8_all
finds_bo = refl

hi-IsWhole : IsWhole "hi"
unfolding utf8_all all_chars is_not_nul
hi-IsWhole = (refl, omega arith)

short_name : (length (utf8_all "x") ≤ 32) × (length (utf8_all "al") ≤ 32)
unfolding utf8_all
short_name = (omega arith, omega arith)

bo_valid : (is_recipient "bo" ≡ true) × (is_blank "hi" ≡ false)
unfolding is_recipient is_blank
bo_valid = (refl, refl)

al_valid : is_recipient "al" ≡ true
unfolding is_recipient
al_valid = refl

framed_texts : AreFramed ("bo" ∷ "hi" ∷ [])
unfolding utf8_all
framed_texts = (omega arith, (omega arith, tt))

abbrev figures : PlatformStats
figures = record {
  users = 2;
  channels = 1;
  memberships = 2;
  messages = 0;
  channel_messages = 0;
  direct_messages = 0;
}

message_delivered_example :
    (request : Bytes) × (payload : Bytes) × (core_payload_for_command (message_of (say "hi"))
      ≡ accepted 5 request)
    × ((handle_frame 0 5 request two_users).clients 1
        ≡ received 65536 0 payload (talker (utf8_all "bo")))
    × (gateway_event msg_chat payload ≡ some (event (GatewayEvent.chat "x" "al" "hi")))
message_delivered_example =
    message_delivered 0 0 1 "x" "al" "hi" two_users refl refl refl refl short_name.0 short_name.1
      in_channel_x refl hi-IsWhole (omega arith)

dm_delivered_example :
    (request : Bytes) × (payload : Bytes) × (core_payload_for_command (message_of (dm "bo" "hi"))
      ≡ accepted 6 request)
    × ((handle_frame 0 6 request two_users).clients 1
        ≡ queued 65536 104 payload (talker (utf8_all "bo")))
    × ((handle_frame 0 6 request two_users).clients 0 ≡ (
        if has_room two_users 1 payload
        then queued 65536 101 told_sent (talker (utf8_all "al"))
        else talker (utf8_all "al")))
    × (gateway_event 104 payload ≡ some (event (GatewayEvent.dm "al" "hi")))
dm_delivered_example =
    dm_delivered 0 1 "al" "bo" "hi" two_users (omega arith) refl refl short_name.1 bo_valid.0
      bo_valid.1 hi-IsWhole finds_bo

core_payload-message_of_example :
    core_payload_for_command (message_of (dm "bo" "hi"))
    ≡ accepted 6 (encoded_all (wire ("bo" ∷ "hi" ∷ [])))
core_payload-message_of_example = core_payload-message_of (dm "bo" "hi") bo_valid framed_texts

figures_refused_example :
    (request : Bytes) × (hello_payload "al" ≡ some request)
    × ((handle_frame 2 1 request two_users).clients 2
        ≡ queued 65536 102 (utf8_all "username already in use") no_client)
    × (let refusal = open_registered_core 102 (utf8_all "username already in use") in
        (core_stats_response refusal 108 []
          ≡ http_exception 409 (as_text "username already in use"))
        × (channels_response refusal 108 []
            ≡ http_exception 409 (as_text "username already in use"))
        × (core_responded "t" refresh_button figures
              (status_code (core_stats_response refusal 108 []))
            ≡ wait_for (channels_head "t" refresh_button)))
figures_refused_example =
    figures_refused 0 2 108 [] "al" "t" refresh_button figures two_users (omega arith) (omega arith)
      refl refl al_valid
