-- ===== src/Commands.antt =====
-- What the user types: `joinChannel`, `sendChat`, `handleSlashCommand` and `sendDirect` of
-- frontend/src/main.tsx.
pub mod Sent
pub mod Typed
use channel_wire.Prelude.{
  String, Bool, true, false, ◌||◌, List, [], ◌∷◌, ◌==◌, concat, if◌then◌else◌,
}
use channel_wire.Text.{
  is_empty, trim, split_spaces, join_spaces, starts_with_slash, slice_one, is_recipient,
}
use channel_wire.Types.{Command, join, switch, leave, say, dm}
use channel_wire.World.{slash_stats, request_list}
use channel_wire.World.Setters.{
  Action, ◌>>◌, ◌>>=◌, when, set_error, set_channel, set_message, set_dm_text, set_timeout,
}
use channel_wire.Log.{show_help, clear_messages}
use channel_wire.Connection.{send_command, request_channels, request_users, logout}
use channel_wire.Stats.{refresh_stats}
use channel_wire.History.{load_history}

unfoldable pub join_channel : Action
join_channel = do
  channel ← λ w. w.page.channel
  send_command (join channel)
  set_timeout request_list 100

-- `/join`, `/switch` and `/leave`, by the command that is sent.
unfoldable pub channel_command : String → (String → Command) → Bool → List String → Action
channel_command name command relist [] =
    set_error (concat "Enter a channel name after /" (concat name "."))
channel_command name command relist (part ∷ parts) =
    if is_empty part
    then set_error (concat "Enter a channel name after /" (concat name "."))
    else (do
      set_channel part
      send_command (command part)
      when relist (set_timeout request_list 100))

abbrev pub dm_usage : String
dm_usage = "Enter a username and message to send a direct message."

unfoldable pub dm_command : List String → Action
dm_command (to ∷ word ∷ words) =
    if is_empty to || is_empty word
    then set_error dm_usage
    else send_command (dm to (join_spaces (word ∷ words)))
dm_command _ = set_error dm_usage

-- The rest of the chain: the commands that name no channel.
unfoldable pub run_other : String → List String → Action
unfolding dm_command
run_other command parts =
    if command == "dm"
    then dm_command parts
    else if command == "who"
    then request_users
    else if command == "list"
    then request_channels
    else if command == "quit"
    then logout
    else if command == "stats"
    then (do token ← λ w. w.page.token; refresh_stats token slash_stats)
    else if command == "history"
    then load_history
    else set_error
        (concat "Command not recognized: /" (concat command ". Use /help to view commands."))

-- `token` and `channel` are those of the render that handles the command.
unfoldable pub run_command : String → List String → Action
unfolding channel_command run_other
run_command command parts =
    if command == "help"
    then show_help
    else if command == "clear"
    then clear_messages
    else if command == "join"
    then channel_command "join" join true parts
    else if command == "switch"
    then channel_command "switch" switch false parts
    else if command == "leave"
    then channel_command "leave" leave false parts
    else run_other command parts

abbrev pub run_words : List String → Action
run_words [] = run_command "" []
run_words (command ∷ parts) = run_command command parts

unfoldable pub handle_slash_command : String → Action
unfolding run_command
handle_slash_command input = do set_error ""; run_words (split_spaces (slice_one input))

unfoldable pub send_chat : Action
unfolding handle_slash_command
send_chat = do
  text ← λ w. trim w.page.message
  if is_empty text then set_error "Enter a message or use /help." else (do
    set_message ""
    if starts_with_slash text then handle_slash_command text else send_command (say text))

unfoldable pub send_direct : Action
send_direct = do
  recipient ← λ w. trim w.page.dm_to
  text ← λ w. trim w.page.dm_text
  if is_empty recipient
      then set_error "Enter a username."
      else if is_empty text
      then set_error "Enter a message."
      else if is_recipient recipient
      then (do set_error ""; send_command (dm recipient text); set_dm_text "")
      else set_error "User not found. Check the username and try again."
