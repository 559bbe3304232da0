-- ===== src/Stats.antt =====
-- `refreshStats` of frontend/src/main.tsx, from one `await` to the next, and what its callers do
-- with its outcome.
pub mod Races
use channel_wire.Prelude.{
  ℕ, String, Bool, true, false, ◌&&◌, ◌||◌, Option, none, some, List, leb, nat_eq, ◌==◌,
  if◌then◌else◌,
}
use channel_wire.Text.{is_empty}
use channel_wire.Types.{PlatformStats, CoreStats, PersistedChannel, status}
use channel_wire.World.{
  World, StatsCaller, refresh_button, slash_stats, sign_in, restore, stats_head, stats_body,
  core_head, core_body, channels_head, channels_body,
}
use channel_wire.World.Setters.{
  Action, ◌>>◌, ◌>>=◌, skip, when, branch, set_error, set_platform_stats, set_core_stats,
  set_persisted_channels, wait_for,
}
use channel_wire.Log.{push_line, plain, record_monitor_sample}
use channel_wire.Connection.{connect, logout}

-- `response.ok`
abbrev pub is_ok : ℕ → Bool
is_ok code = leb 200 code && leb code 299

-- `tokenRef.current === token`
abbrev pub is_current : String → World → Bool
is_current token w = w.refs.token == token

abbrev pub show_line : Option String → Action
show_line none w = w
show_line (some s) w = push_line (plain status s) w

-- What follows the `await` of a caller, by the value that `refreshStats` returns.
unfoldable pub stats_returned : StatsCaller → Bool → Action
stats_returned (sign_in token captured line) valid = do
  same ← is_current token
  when same (connect captured token)
  show_line line
stats_returned (restore token captured) valid = do
  same ← is_current token
  when (valid && same) (connect captured token)
stats_returned slash_stats valid = push_line (plain status "Monitoring updated.")
stats_returned _ valid = skip

-- What a caller does when `refreshStats` is rejected with a message.
unfoldable pub stats_rejected : StatsCaller → String → Action
unfolding stats_returned
stats_rejected refresh_button reason = set_error reason
stats_rejected (sign_in token captured line) reason =
    stats_returned (sign_in token captured line) false
stats_rejected _ reason = skip

unfoldable pub refresh_stats : String → StatsCaller → Action
unfolding stats_returned
refresh_stats access_token caller =
    if is_empty access_token
    then stats_returned caller false
    else wait_for (stats_head access_token caller)

-- The response of `/stats` is there.
unfoldable pub stats_responded : String → StatsCaller → ℕ → Action
stats_responded token caller code =
    if nat_eq code 401 || nat_eq code 403
    then (do logout; stats_returned caller false)
    else if is_ok code
    then wait_for (stats_body token caller)
    else stats_returned caller false

unfoldable pub stats_parsed : String → StatsCaller → PlatformStats → Action
stats_parsed token caller platform = do
  same ← is_current token
  branch same (do set_platform_stats (some platform); wait_for (core_head token caller platform))
      (stats_returned caller false)

-- The response of `/core-stats` is there.
unfoldable pub core_responded : String → StatsCaller → PlatformStats → ℕ → Action
core_responded token caller platform code =
    if is_ok code
    then wait_for (core_body token caller platform)
    else wait_for (channels_head token caller)

unfoldable pub core_parsed : String → StatsCaller → PlatformStats → CoreStats → Action
core_parsed token caller platform core = do
  same ← is_current token
  branch same
      (do
        set_core_stats (some core)
        record_monitor_sample platform core
        wait_for (channels_head token caller))
      (stats_returned caller false)

-- The response of `/db/channels` is there.
unfoldable pub channels_responded : String → StatsCaller → ℕ → Action
channels_responded token caller code =
    if is_ok code then wait_for (channels_body token caller) else stats_returned caller true

unfoldable pub channels_parsed : String → StatsCaller → List PersistedChannel → Action
channels_parsed token caller channels = do
  same ← is_current token
  branch same (do set_persisted_channels channels; stats_returned caller true)
      (stats_returned caller false)
