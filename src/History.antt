-- ===== src/History.antt =====
-- `loadHistory`, `loadDirectHistory` and `refreshHealth` of frontend/src/main.tsx, from one `await`
-- to the next.
use channel_wire.Prelude.{ℕ, String, ◌||◌, Option, none, some, List, map, if◌then◌else◌}
use channel_wire.Text.{is_empty}
use channel_wire.Types.{ChatLine, HistoryItem, Kind, Health}
use channel_wire.World.{
  error_body, history_head, history_body, dm_history_head, dm_history_body, health_head,
  health_body,
}
use channel_wire.World.Setters.{
  Action, ◌>>◌, ◌>>=◌, set_error, set_health, set_health_error, wait_for,
}
use channel_wire.Log.{replace_messages}
use channel_wire.Errors.{Body, response_error}
use channel_wire.Stats.{is_ok}

-- `setError(await responseError(response))`; a rejected promise leaves the page as it is.
abbrev pub show_error : Option String → Action
show_error none w = w
show_error (some s) w = set_error s w

unfoldable pub error_parsed : Body → Action
error_parsed body = show_error (response_error body)

unfoldable pub load_history : Action
load_history = do
  token ← λ w. w.page.token
  channel ← λ w. w.page.channel
  if is_empty token
      then set_error "Sign in before loading channel history."
      else wait_for (history_head channel)

unfoldable pub history_responded : String → ℕ → Action
history_responded channel code =
    if is_ok code then wait_for (history_body channel) else wait_for error_body

unfoldable pub channel_line : String → HistoryItem → ChatLine
channel_line channel item = record {
  id = item.id;
  kind = Kind.chat;
  channel = some channel;
  sender = some item.sender;
  text = item.text;
}

unfoldable pub history_parsed : String → List HistoryItem → Action
history_parsed channel items = replace_messages (map (channel_line channel) items)

unfoldable pub load_direct_history : Action
load_direct_history = do
  token ← λ w. w.page.token
  dm_to ← λ w. w.page.dm_to
  if is_empty token || is_empty dm_to
      then set_error "Enter a username to load direct message history."
      else wait_for dm_history_head

unfoldable pub dm_history_responded : ℕ → Action
dm_history_responded code = if is_ok code then wait_for dm_history_body else wait_for error_body

unfoldable pub direct_line : HistoryItem → ChatLine
direct_line item = record {
  id = item.id;
  kind = Kind.dm;
  channel = none;
  sender = some item.sender;
  text = item.text;
}

unfoldable pub dm_history_parsed : List HistoryItem → Action
dm_history_parsed items = replace_messages (map direct_line items)

unfoldable pub refresh_health : Action
refresh_health = wait_for health_head

abbrev pub gateway_health_error : String
gateway_health_error = "Gateway unavailable. Check that the API is running, then refresh."

unfoldable pub health_failed : Action
health_failed = do set_health none; set_health_error gateway_health_error

unfoldable pub health_responded : ℕ → Action
unfolding health_failed
health_responded code = if is_ok code then wait_for health_body else health_failed

unfoldable pub health_parsed : Health → Action
health_parsed health = do set_health (some health); set_health_error ""
