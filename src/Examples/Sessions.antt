-- ===== src/Examples/Sessions.antt =====
-- Sessions and texts of frontend/src/main.tsx, at concrete inputs.
use channel_wire.Prelude.{false, some, [], ◌∷◌, ◌≡◌, refl}
use channel_wire.Text.{split_spaces}
use channel_wire.Json.{le_seconds}
use channel_wire.Session.{read_stored_session, padded}
use channel_wire.Session.Sound.{Reads, read_stored_session-Reads, read_stored_session-stringify}
use channel_wire.Examples.Platform.{expiry_of_token, marked, token, stored}

read_stored_session-stringify_example :
    read_stored_session marked 1000 stored
    ≡ (some (record { token = token; username = "bob" }), stored)
unfolding le_seconds
read_stored_session-stringify_example =
    read_stored_session-stringify marked 1000 token "bob"
      {exp = record { negative = false; parts = 2000; per_less_one = 0 }} refl refl expiry_of_token

read_stored_session-Reads_example :
    Reads marked 1000 stored (read_stored_session marked 1000 stored)
read_stored_session-Reads_example = read_stored_session-Reads marked 1000 stored

padded_test : padded "QQ" ≡ "QQ=="
unfolding padded
padded_test = refl

split_test : split_spaces " dm  bob " ≡ "" ∷ "dm" ∷ "bob" ∷ "" ∷ []
unfolding split_spaces
split_test = refl
