-- ===== src/Loop/Settle.antt =====
-- The continuations of the asynchronous functions of frontend/src/main.tsx: what each does when the
-- promise that it waits for is settled.
use channel_wire.Prelude.{Bool, true, false, ℕ, String, Option, none, some, List}
use channel_wire.Types.{PlatformStats, CoreStats, PersistedChannel, HistoryItem, Health}
use channel_wire.Json.{Json}
use channel_wire.World.{
  Task, auth_head, auth_body, error_body, stats_head, stats_body, core_head, core_body,
  channels_head, channels_body, history_head, history_body, dm_history_head, dm_history_body,
  health_head, health_body, ready_head, ready_body,
}
use channel_wire.World.Setters.{Action, ◌>>=◌, skip, branch}
use channel_wire.Errors.{Body}
use channel_wire.Stats.{
  stats_rejected, stats_responded, stats_parsed, core_responded, core_parsed, channels_responded,
  channels_parsed,
}
use channel_wire.History.{
  error_parsed, history_responded, history_parsed, dm_history_responded, dm_history_parsed,
  health_responded, health_failed, health_parsed,
}
use channel_wire.Account.{auth_unreachable, auth_responded, auth_parsed}
use channel_wire.Readiness.{check_failed, check_responded, check_parsed}

-- `rejected` carries the error's message, `responded` the status; the others are parsed bodies.
pub data Reply : Type 0 where
  rejected : String → Reply
  responded : ℕ → Reply
  access_token : String → Reply
  platform : PlatformStats → Reply
  core : CoreStats → Reply
  stored_channels : List PersistedChannel → Reply
  rows : List HistoryItem → Reply
  health : Health → Reply
  json : Json → Reply
  problem : Body → Reply

-- A request whose controller has been aborted is rejected, whatever has arrived.
abbrev pub unless_aborted : ℕ → Action → Action → Action
unless_aborted controller failure action = do
  aborted ← λ w. w.browser.aborted controller
  branch aborted failure action

-- `none` for a reply that does not belong to what is waited for.
unfoldable pub resume : Task → Reply → Option Action
resume (auth_head path username captured) (rejected reason) = some auth_unreachable
resume (auth_head path username captured) (responded code) =
    some (auth_responded path username captured code)
resume (auth_body path username captured) (access_token token) =
    some (auth_parsed path username captured token)
resume (auth_body path username captured) (rejected reason) = some skip
resume error_body (problem body) = some (error_parsed body)
resume error_body (rejected reason) = some skip
resume (stats_head token caller) (rejected reason) = some (stats_rejected caller reason)
resume (stats_head token caller) (responded code) = some (stats_responded token caller code)
resume (stats_body token caller) (rejected reason) = some (stats_rejected caller reason)
resume (stats_body token caller) (platform stats) = some (stats_parsed token caller stats)
resume (core_head token caller stats) (rejected reason) = some (stats_rejected caller reason)
resume (core_head token caller stats) (responded code) =
    some (core_responded token caller stats code)
resume (core_body token caller stats) (rejected reason) = some (stats_rejected caller reason)
resume (core_body token caller stats) (core core_stats) =
    some (core_parsed token caller stats core_stats)
resume (channels_head token caller) (rejected reason) = some (stats_rejected caller reason)
resume (channels_head token caller) (responded code) = some (channels_responded token caller code)
resume (channels_body token caller) (rejected reason) = some (stats_rejected caller reason)
resume (channels_body token caller) (stored_channels names) =
    some (channels_parsed token caller names)
resume (history_head channel) (rejected reason) = some skip
resume (history_head channel) (responded code) = some (history_responded channel code)
resume (history_body channel) (rejected reason) = some skip
resume (history_body channel) (rows items) = some (history_parsed channel items)
resume dm_history_head (rejected reason) = some skip
resume dm_history_head (responded code) = some (dm_history_responded code)
resume dm_history_body (rejected reason) = some skip
resume dm_history_body (rows items) = some (dm_history_parsed items)
resume health_head (rejected reason) = some health_failed
resume health_head (responded code) = some (health_responded code)
resume health_body (rejected reason) = some health_failed
resume health_body (health h) = some (health_parsed h)
resume (ready_head run attempt controller) (rejected reason) =
    some (check_failed run attempt controller)
resume (ready_head run attempt controller) (responded code) = some (
    unless_aborted controller (check_failed run attempt controller)
      (check_responded run attempt controller code))
resume (ready_body run attempt controller) (rejected reason) =
    some (check_failed run attempt controller)
resume (ready_body run attempt controller) (json body) = some (
    unless_aborted controller (check_failed run attempt controller)
      (check_parsed run attempt controller body))
resume _ _ = none

-- The reply that completes a sign-in.
abbrev pub gives_token : Reply → Bool
gives_token (access_token token) = true
gives_token _ = false
