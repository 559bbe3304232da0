-- ===== src/Examples/Storage.antt =====
-- The database of the gateway service at a small content, and a connection of the service with it.
use channel_wire.Core.Server.Messages.{msg_system}
use channel_wire.Service.Socket.Turns.{asked, noticed, settled, said, heard, passed, Turn, all_rows}
use channel_wire.Types.{dm, join}
use channel_wire.Examples.Tables.{lists}
use channel_wire.Service.Mismatches.{lost_saved, taken_not_saved}
use channel_wire.Service.Database.Recalled.{direct_message-recalled, channel_message-recalled}
use channel_wire.Core.Server.Handlers.{dm_to}
use channel_wire.Service.Database.Commits.{save_channel_message-saved}
use channel_wire.Service.Database.Soundness.{dm_row, channel_row, IsSound}
use channel_wire.Urls.Escapes.{utf8_all}
use channel_wire.Core.Server.Runs.{started}
use channel_wire.Service.Socket.Direct.{answered, taken, refused, all_answered}
use channel_wire.Service.Socket.{Connection}
use channel_wire.Prelude.{
  nat_eq, if◌then◌else◌, refl, true, ◌++◌, some, arith, String, ◌≡◌, [], List, ◌∷◌,
}
use channel_wire.Service.Database.Table.{has}
use channel_wire.Core.Protocol.{write_string, max_payload_size, Bytes, write_strings}
use channel_wire.Core.Server.{no_client, Server}
use channel_wire.Service.Database.{
  direct_history, transact, channel_history, Database, user_named, save_dm, save_channel_message,
}

-- One user, one channel, and one message in it.
abbrev one_message : Database
one_message = record {
  users = user_named "al" ∷ [];
  channels = "x" ∷ [];
  memberships = record { username = "al"; channel_name = "x" } ∷ [];
  messages = channel_row 1 "x" "al" "hi" ∷ [];
  next_id = 2;
}

one_message-IsSound : IsSound one_message
unfolding has
one_message-IsSound = record {
  users_distinct = (refl, tt);
  channels_distinct = (refl, tt);
  memberships_distinct = (refl, tt);
  increasing = (tt, tt);
  below = (omega arith, tt);
  refer = ((refl, tt, refl), tt);
}

-- A connection on which two direct messages wait for an answer of the core.
abbrev waiting : List (String × String) → Connection
waiting pending = record {
  username = "al";
  pending_dms = pending;
  to_browser = [];
  to_core = [];
  db = one_message;
  active_gateway_users = λ u. 0;
}

save_channel_message-saved_example :
    (db' : Database) × (transact lists (save_channel_message "y" "bo" "hey") one_message ≡ some db')
    × IsSound db'
    × (db'.messages ≡ one_message.messages ++ (channel_row 2 "y" "bo" "hey" ∷ []))
    × (db'.next_id ≡ 3)
save_channel_message-saved_example =
    save_channel_message-saved lists "y" "bo" "hey" one_message one_message-IsSound

channel_message-recalled_example :
    (db' : Database) × (transact lists (save_channel_message "x" "bo" "hey") one_message ≡ some db')
    × (channel_history lists "x" 50 db'
        ≡ channel_history lists "x" 49 one_message ++ (channel_row 2 "x" "bo" "hey" ∷ []))
    × (channel_history lists "y" 50 db' ≡ channel_history lists "y" 50 one_message)
    × (direct_history lists "al" "bo" 50 db' ≡ direct_history lists "al" "bo" 50 one_message)
channel_message-recalled_example =
    channel_message-recalled lists "x" "bo" "hey" "y" "al" "bo" 49 one_message one_message-IsSound
      refl

direct_message-recalled_example :
    (db' : Database) × (transact lists (save_dm "al" "bo" "hey") one_message ≡ some db')
    × (direct_history lists "al" "bo" 50 db'
        ≡ direct_history lists "al" "bo" 49 one_message ++ (dm_row 2 "al" "bo" "hey" ∷ []))
    × (direct_history lists "cy" "al" 50 db' ≡ direct_history lists "cy" "al" 50 one_message)
    × (channel_history lists "x" 50 db' ≡ channel_history lists "x" 50 one_message)
direct_message-recalled_example =
    direct_message-recalled lists "al" "bo" "hey" "cy" "al" "x" 49 one_message one_message-IsSound
      refl refl refl

-- One message waits; another is sent, and other frames come between the answers.
abbrev mixed : List Turn
mixed =
    asked (dm "cy" "two")
    ∷ asked (join "y")
    ∷ noticed "joined channel"
    ∷ settled taken
    ∷ said "x" "al" "hey"
    ∷ heard "dy" "yo"
    ∷ settled (refused "user not found")
    ∷ passed msg_system (utf8_all "bo left")
    ∷ []

mixed_rows :
    all_rows 2 "al" (λ u. 0) (("bo", "one") ∷ []) mixed
    ≡ dm_row 2 "al" "bo" "one" ∷ channel_row 3 "x" "al" "hey" ∷ dm_row 4 "dy" "al" "yo" ∷ []
unfolding all_rows
mixed_rows = refl

taken_not_saved_example :
    (c' : Connection) × (all_answered lists
        (refused "not in a channel" ∷ taken ∷ [])
        (waiting (("bo", "one") ∷ []))
      ≡ some c')
    × (c'.db ≡ one_message)
    × (c'.pending_dms ≡ [])
taken_not_saved_example =
    taken_not_saved lists "bo" "one" "not in a channel" (waiting (("bo", "one") ∷ [])) refl

-- A core whose queues have no room for the message.
abbrev crowded : Server
crowded = record (started 10) {
  clients = λ i. record no_client {
    is_open = true;
    registered = true;
    username = utf8_all (if nat_eq i 0 then "al" else "bo");
  };
}

abbrev lost_payload : Bytes
lost_payload = 0 ∷ 2 ∷ 97 ∷ 108 ∷ 0 ∷ 3 ∷ 111 ∷ 110 ∷ 101 ∷ []

lost_written :
    write_strings max_payload_size [] (utf8_all "al" ∷ utf8_all "one" ∷ []) ≡ some lost_payload
unfolding write_strings utf8_all write_string
lost_written = refl

lost_saved_example :
    let ps : List (String × String) = ("bo", "one") ∷ ("cy", "two") ∷ [] in
    ((dm_to (some 1) (utf8_all "one") 0 crowded).clients 0 ≡ crowded.clients 0)
    × ((dm_to (some 1) (utf8_all "one") 0 crowded).clients 1 ≡ no_client)
    × (c' : Connection) × (answered lists taken (waiting ps) ≡ some c')
    × (c'.pending_dms ≡ ("cy", "two") ∷ [])
    × (c'.db.messages ≡ one_message.messages ++ (dm_row 2 "al" "bo" "one" ∷ []))
lost_saved_example =
    lost_saved lists 0 1 (utf8_all "one") lost_payload crowded "bo" "one" "cy" "two"
      (waiting (("bo", "one") ∷ ("cy", "two") ∷ [])) (omega arith) lost_written (omega arith) refl
      refl refl one_message-IsSound
