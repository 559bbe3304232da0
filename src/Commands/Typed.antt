-- ===== src/Commands/Typed.antt =====
-- What the user types into the composer of frontend/src/main.tsx, and the command that goes out.
use channel_wire.Prelude.{ℕ, String, false, some, List, [], ◌∷◌, ◌++◌, ◌≡◌, refl, concat, arith}
use channel_wire.Text.{is_empty, trim, join_spaces, starts_with_slash, is_space, all_chars}
use channel_wire.Text.Words.{IsWord, AreWords, split_spaces-join_spaces}
use channel_wire.Text.Trimmed.{trim-join_spaces, is_empty-join_spaces, slice_one-join_spaces}
use channel_wire.Types.{Command}
use channel_wire.World.{World, open_state}
use channel_wire.World.Setters
use channel_wire.Connection.{send, logout, request_users, request_channels}
use channel_wire.Commands.{
  send_chat, handle_slash_command, run_command, run_other, channel_command, dm_command,
}

-- The words that stand for a command.
pub data Typed : Command → List String → Type 0 where
  list : Typed Command.list ("/list" ∷ [])
  who : Typed Command.who ("/who" ∷ [])
  quit : Typed Command.quit ("/quit" ∷ [])
  join : (channel : String) → Typed (Command.join channel) ("/join" ∷ channel ∷ [])
  switch : (channel : String) → Typed (Command.switch channel) ("/switch" ∷ channel ∷ [])
  leave : (channel : String) → Typed (Command.leave channel) ("/leave" ∷ channel ∷ [])
  dm :
      (to word : String) (words : List String)
      → Typed (Command.dm to (join_spaces (word ∷ words))) ("/dm" ∷ to ∷ word ∷ words)
  say :
      (word : String) (words : List String)
      → starts_with_slash (join_spaces (word ∷ words)) ≡ false
      → Typed (Command.say (join_spaces (word ∷ words))) (word ∷ words)

-- The composer hands the words after the slash to the command.
slash_command :
    (v : String) (ws : List String) (w : World)
    → IsWord v
    → AreWords (concat "/" v ∷ ws)
    → w.page.message ≡ join_spaces (concat "/" v ∷ ws)
    → send_chat w ≡ run_command v ws (Setters.set_error "" (Setters.set_message "" w))
unfolding send_chat handle_slash_command
slash_command v ws w word all e =
    let slash = slice_one-join_spaces v ws in
    rw
      (
        e,
        trim-join_spaces (concat "/" v) ws all,
        is_empty-join_spaces (concat "/" v) ws all,
        slash.0,
        slash.1,
        split_spaces-join_spaces v ws (word, all.1),
      )
      refl

module _ (r : ℕ) (w : World) (ref : w.refs.socket ≡ some r)
    (up : (w.browser.sockets r).state ≡ open_state) where
  -- The socket `r` of a state gets one more command.
  abbrev Sends : World → Command → Type 0
  Sends v c = (v.browser.sockets r).sent ≡ (w.browser.sockets r).sent ++ c ∷ []

  -- The state in which the command runs.
  abbrev cleared : World
  cleared = Setters.set_error "" (Setters.set_message "" w)

  join-Sends :
      (channel : String)
      → is_empty channel ≡ false
      → Sends (run_command "join" (channel ∷ []) cleared) (Command.join channel)
  unfolding run_command channel_command send
  join-Sends channel given = ground arith

  switch-Sends :
      (channel : String)
      → is_empty channel ≡ false
      → Sends (run_command "switch" (channel ∷ []) cleared) (Command.switch channel)
  unfolding run_command channel_command send
  switch-Sends channel given = ground arith

  leave-Sends :
      (channel : String)
      → is_empty channel ≡ false
      → Sends (run_command "leave" (channel ∷ []) cleared) (Command.leave channel)
  unfolding run_command channel_command send
  leave-Sends channel given = ground arith

  list-Sends : Sends (run_command "list" [] cleared) Command.list
  unfolding run_command run_other request_channels send
  list-Sends = ground arith

  who-Sends : Sends (run_command "who" [] cleared) Command.who
  unfolding run_command run_other request_users send
  who-Sends = ground arith

  quit-Sends : Sends (run_command "quit" [] cleared) Command.quit
  unfolding run_command run_other logout
  quit-Sends = ground arith

  dm-Sends :
      (to word : String) (words : List String)
      → is_empty to ≡ false
      → is_empty word ≡ false
      → Sends
          (run_command "dm" (to ∷ word ∷ words) cleared)
          (Command.dm to (join_spaces (word ∷ words)))
  unfolding run_command run_other dm_command send
  dm-Sends to word words given some_text = ground arith

  say-Sends :
      (text : String)
      → trim w.page.message ≡ text
      → is_empty text ≡ false
      → starts_with_slash text ≡ false
      → Sends (send_chat w) (Command.say text)
  unfolding send_chat send
  say-Sends text e given plain = ground arith

  -- Words that are typed with single spaces between them go out as the command that they stand for,
  -- where the socket is open: `/list`, `/who` and `/quit` alone, `/join`, `/switch` and `/leave` with
  -- a channel, `/dm` with a user and a message, and as a message any words that do not begin with a
  -- slash.
  pub Typed-Sends :
      (c : Command) (words : List String)
      → Typed c words
      → AreWords words
      → w.page.message ≡ join_spaces words
      → ((send_chat w).browser.sockets r).sent ≡ (w.browser.sockets r).sent ++ c ∷ []
  unfolding all_chars is_space
  Typed-Sends c words list all e = rw (slash_command "list" [] w (refl, refl) all e) list-Sends
  Typed-Sends c words who all e = rw (slash_command "who" [] w (refl, refl) all e) who-Sends
  Typed-Sends c words quit all e = rw (slash_command "quit" [] w (refl, refl) all e) quit-Sends
  Typed-Sends c words (join channel) all e =
      rw (slash_command "join" (channel ∷ []) w (refl, refl) all e) (join-Sends channel all.1.0.0)
  Typed-Sends c words (switch channel) all e =
      rw (slash_command "switch" (channel ∷ []) w (refl, refl) all e)
        (switch-Sends channel all.1.0.0)
  Typed-Sends c words (leave channel) all e =
      rw (slash_command "leave" (channel ∷ []) w (refl, refl) all e) (leave-Sends channel all.1.0.0)
  Typed-Sends c words (dm to word more) all e =
      rw (slash_command "dm" (to ∷ word ∷ more) w (refl, refl) all e)
        (dm-Sends to word more all.1.0.0 all.1.1.0.0)
  Typed-Sends c words (say word more plain) all e =
      say-Sends (join_spaces (word ∷ more)) (rw e (trim-join_spaces word more all))
        (is_empty-join_spaces word more all) plain
