-- ===== src/Stats/Races.antt =====
-- What late responses do in `refreshStats` of frontend/src/main.tsx.
use channel_wire.Prelude.{
  none, [], ℕ, String, Bool, true, false, ◌||◌, List, ◌≡◌, arith, some, nat_eq,
}
use channel_wire.Types.{PlatformStats, CoreStats, PersistedChannel}
use channel_wire.World.{World, StatsCaller, stats_head, gateway_event}
use channel_wire.Connection.{logout, connect}
use channel_wire.Stats.{
  is_current, stats_returned, stats_parsed, core_parsed, channels_parsed, stats_responded,
}
use channel_wire.Log.{push_line}
use channel_wire.Loop.{Event, step}
use channel_wire.Loop.Settle.{resume, responded}

-- The figures of a page.
abbrev pub SameFigures : World → World → Type 0
SameFigures v w =
    (v.page.platform_stats ≡ w.page.platform_stats)
    × (v.page.core_stats ≡ w.page.core_stats)
    × (v.page.monitor_samples ≡ w.page.monitor_samples)
    × (v.page.persisted_channels ≡ w.page.persisted_channels)

returned-SameFigures :
    (caller : StatsCaller) (valid : Bool) (w : World)
    → SameFigures (stats_returned caller valid w) w
unfolding stats_returned connect push_line
returned-SameFigures caller valid w = ground arith

-- A body that arrives for another token than the current one, at any of the three requests, leaves
-- the figures as they are.
pub stale_bodies_ignored :
    (token : String) (caller : StatsCaller) (w : World)
    → is_current token w ≡ false
    → (platform : PlatformStats) (core : CoreStats) (names : List PersistedChannel)
    → SameFigures (stats_parsed token caller platform w) w
      × SameFigures (core_parsed token caller platform core w) w
      × SameFigures (channels_parsed token caller names w) w
unfolding stats_parsed core_parsed channels_parsed
stale_bodies_ignored token caller w stale platform core names =
    let same = returned-SameFigures caller false w in rw stale (same, same, same)

-- A 401 or 403 that answers a request made at a gateway event, for any token, an earlier user's
-- too, signs out the user of the moment: the token, the stored session and the messages go, and
-- reconnecting is not allowed.
pub late_refusal_signs_out :
    (k : ℕ) (token : String) (code : ℕ) (w : World)
    → w.browser.tasks k ≡ some (stats_head token gateway_event)
    → (nat_eq code 401 || nat_eq code 403) ≡ true
    → let v = step (Event.settled k (responded code)) w in
      (v.refs.token ≡ "")
      × (v.page.token ≡ "")
      × (v.page.messages ≡ [])
      × (v.browser.storage ≡ none)
      × (v.refs.allow_reconnect ≡ false)
unfolding step resume stats_responded logout stats_returned
late_refusal_signs_out k token code w e refused = ground arith
