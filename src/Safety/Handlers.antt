-- ===== src/Safety/Handlers.antt =====
-- What the gateway sends and what the user types (frontend/src/main.tsx): the handlers keep the
-- invariant.
use channel_wire.Prelude.{Bool, ℕ, String, true, false, List, [], ◌∷◌, refl, arith, ◌==◌, concat}
use channel_wire.Text.{
  is_empty, is_recipient, join_spaces, split_spaces, slice_one, trim, starts_with_slash,
  after_space,
}
use channel_wire.Types.{
  GatewayEvent, ready, ok, error, system, chat, dm, who, channels, Kind, status, Command, join,
  switch, leave, say,
}
use channel_wire.World.{request_list, World, gateway_event, slash_stats}
use channel_wire.World.Setters
use channel_wire.World.Setters.{Action}
use channel_wire.Log.{plain, push_line, help_text, show_help}
use channel_wire.Errors.{friendly_gateway_error, friendly_gateway_message}
use channel_wire.History.{load_history, load_direct_history}
use channel_wire.Gateway.{enter_channel, leave_channel, on_event, handle_gateway_event}
use channel_wire.Commands.{
  join_channel, channel_command, dm_command, run_command, run_other, run_words,
  handle_slash_command, send_chat, send_direct,
}
use channel_wire.Safety.Invariant.{Inv, when-Inv, if-Inv}
use channel_wire.Safety.Connections.{
  push_line-Inv, send-Inv, request_users-Inv, request_channels-Inv, logout-Inv, clear_messages-Inv,
}
use channel_wire.Safety.Requests.{refresh_stats-Inv}

module _ (q : Bool) (s k : ℕ) where
  enter_channel-Inv : (name : String) (w : World) → Inv q s k w → Inv q s k (enter_channel name w)
  unfolding enter_channel
  enter_channel-Inv name w h = request_users-Inv q s k _ (ground arith)

  leave_channel-Inv : (w : World) → Inv q s k w → Inv q s k (leave_channel w)
  unfolding leave_channel
  leave_channel-Inv w h = ground arith

  transmit-Inv :
      (r : ℕ) (command : Command) (w : World)
      → Inv q s k w
      → Inv q s k (Setters.transmit r command w)
  transmit-Inv r command w h = ground arith

  on_event-Inv :
      (r : ℕ) (event : GatewayEvent) (w : World) → Inv q s k w → Inv q s k (on_event r event w)
  unfolding on_event push_line
  on_event-Inv r (ready username) w h =
      let h' = push_line-Inv q s k (plain status (concat "Ready as " (concat username "."))) w h in
      when-Inv _ (Setters.transmit r (join w.refs.active_channel)) _ h' (transmit-Inv r _ _ h')
  on_event-Inv r (chat channel sender text) w h = push_line-Inv q s k _ w h
  on_event-Inv r (dm sender text) w h = push_line-Inv q s k _ w h
  on_event-Inv r (system message) w h = push_line-Inv q s k _ w h
  on_event-Inv r (ok message) w h =
      let h' = push_line-Inv q s k (plain Kind.system (friendly_gateway_message message)) w h in
      ground (arith, enter_channel-Inv (after_space message) _ h', leave_channel-Inv _ h')
  on_event-Inv r (error message) w h =
      ground (arith, push_line-Inv q s k (plain Kind.error (friendly_gateway_error message)) w h)
  on_event-Inv r (who users) w h = ground arith
  on_event-Inv r (channels names) w h = ground arith

  pub handle_gateway_event-Inv :
      (r : ℕ) (event : GatewayEvent) (w : World)
      → Inv q s k w
      → Inv q s k (handle_gateway_event r event w)
  unfolding handle_gateway_event
  handle_gateway_event-Inv r event w h =
      refresh_stats-Inv q s k _ gateway_event refl _ (on_event-Inv r event w h)

  pub join_channel-Inv : (w : World) → Inv q s k w → Inv q s k (join_channel w)
  unfolding join_channel
  join_channel-Inv w h = ground (arith, send-Inv q s k (join w.page.channel) w h)

  set_error-Inv : (t : String) (w : World) → Inv q s k w → Inv q s k (Setters.set_error t w)
  set_error-Inv t w h = ground arith

  set_channel-Inv : (t : String) (w : World) → Inv q s k w → Inv q s k (Setters.set_channel t w)
  set_channel-Inv t w h = ground arith

  relist-Inv : (w : World) → Inv q s k w → Inv q s k (Setters.set_timeout request_list 100 w)
  relist-Inv w h = ground arith

  channel_command-Inv :
      (name : String) (command : String → Command) (relist : Bool) (parts : List String) (w : World)
      → Inv q s k w
      → Inv q s k (channel_command name command relist parts w)
  unfolding channel_command
  channel_command-Inv name command relist [] w h = ground arith
  channel_command-Inv name command relist (part ∷ parts) w h =
      let h' = send-Inv q s k (command part) _ (set_channel-Inv part w h) in
      if-Inv (is_empty part) _ _ w (set_error-Inv _ w h)
        (when-Inv relist (Setters.set_timeout request_list 100) _ h' (relist-Inv _ h'))

  dm_command-Inv : (parts : List String) (w : World) → Inv q s k w → Inv q s k (dm_command parts w)
  unfolding dm_command
  dm_command-Inv [] w h = ground arith
  dm_command-Inv (to ∷ []) w h = ground arith
  dm_command-Inv (to ∷ word ∷ words) w h =
      ground (arith, send-Inv q s k (Command.dm to (join_spaces (word ∷ words))) w h)

  pub show_help-Inv : (w : World) → Inv q s k w → Inv q s k (show_help w)
  unfolding show_help
  show_help-Inv w h = push_line-Inv q s k (plain Kind.system help_text) w h

  pub load_history-Inv : (w : World) → Inv q s k w → Inv q s k (load_history w)
  unfolding load_history
  load_history-Inv w h = ground arith

  pub load_direct_history-Inv : (w : World) → Inv q s k w → Inv q s k (load_direct_history w)
  unfolding load_direct_history
  load_direct_history-Inv w h = ground arith

  set_dm_text-Inv : (t : String) (w : World) → Inv q s k w → Inv q s k (Setters.set_dm_text t w)
  set_dm_text-Inv t w h = ground arith

  run_other-Inv :
      (command : String) (parts : List String) (w : World)
      → Inv q s k w
      → Inv q s k (run_other command parts w)
  unfolding run_other
  run_other-Inv command parts w h = if-Inv (command == "dm") _ _ w (dm_command-Inv parts w h) (
      if-Inv (command == "who") _ _ w (request_users-Inv q s k w h) (
        if-Inv (command == "list") _ _ w (request_channels-Inv q s k w h) (
          if-Inv (command == "quit") _ _ w (logout-Inv q s k w h) (
            if-Inv (command == "stats") _ _ w
              (refresh_stats-Inv q s k w.page.token slash_stats refl w h)
              (if-Inv (command == "history") _ _ w (load_history-Inv w h) (set_error-Inv _ w h))))))

  run_command-Inv :
      (command : String) (parts : List String) (w : World)
      → Inv q s k w
      → Inv q s k (run_command command parts w)
  unfolding run_command
  run_command-Inv command parts w h = if-Inv (command == "help") _ _ w (show_help-Inv w h) (
      if-Inv (command == "clear") _ _ w (clear_messages-Inv q s k w h) (
        if-Inv (command == "join") _ _ w (channel_command-Inv "join" join true parts w h) (
          if-Inv (command == "switch") _ _ w (channel_command-Inv "switch" switch false parts w h) (
            if-Inv (command == "leave") _ _ w (channel_command-Inv "leave" leave false parts w h)
              (run_other-Inv command parts w h)))))

  run_words-Inv : (words : List String) (w : World) → Inv q s k w → Inv q s k (run_words words w)
  run_words-Inv [] w h = run_command-Inv "" [] w h
  run_words-Inv (command ∷ parts) w h = run_command-Inv command parts w h

  handle_slash_command-Inv :
      (input : String) (w : World) → Inv q s k w → Inv q s k (handle_slash_command input w)
  unfolding handle_slash_command
  handle_slash_command-Inv input w h =
      run_words-Inv (split_spaces (slice_one input)) _ (set_error-Inv "" w h)

  set_message-Inv : (t : String) (w : World) → Inv q s k w → Inv q s k (Setters.set_message t w)
  set_message-Inv t w h = ground arith

  pub send_chat-Inv : (w : World) → Inv q s k w → Inv q s k (send_chat w)
  unfolding send_chat
  send_chat-Inv w h = if-Inv (is_empty (trim w.page.message)) _ _ w (set_error-Inv _ w h) (
      if-Inv (starts_with_slash (trim w.page.message)) _ _ _
        (handle_slash_command-Inv (trim w.page.message) _ (set_message-Inv "" w h))
        (send-Inv q s k (say (trim w.page.message)) _ (set_message-Inv "" w h)))

  pub send_direct-Inv : (w : World) → Inv q s k w → Inv q s k (send_direct w)
  unfolding send_direct
  send_direct-Inv w h = if-Inv (is_empty (trim w.page.dm_to)) _ _ w (set_error-Inv _ w h) (
      if-Inv (is_empty (trim w.page.dm_text)) _ _ w (set_error-Inv _ w h) (
        if-Inv (is_recipient (trim w.page.dm_to)) _ _ w
          (set_dm_text-Inv "" _ (
            send-Inv q s k (Command.dm (trim w.page.dm_to) (trim w.page.dm_text)) _
              (set_error-Inv "" w h)))
          (set_error-Inv _ w h)))
