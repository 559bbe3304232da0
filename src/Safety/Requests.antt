-- ===== src/Safety/Requests.antt =====
-- The asynchronous functions of frontend/src/main.tsx keep the invariant, from one `await` to the
-- next.
use channel_wire.Prelude.{
  Option, Bool, ℕ, String, true, false, none, some, List, ◌≡◌, arith, Bool-cases, inl, inr,
}
use channel_wire.Types.{status, PlatformStats, CoreStats, PersistedChannel}
use channel_wire.World.{
  channels_head, World, StatsCaller, gateway_event, refresh_button, slash_stats, sign_in, restore,
}
use channel_wire.World.Setters
use channel_wire.Log.{plain}
use channel_wire.Connection.{logout}
use channel_wire.Stats.{
  show_line, stats_returned, stats_rejected, refresh_stats, stats_responded, stats_parsed,
  core_responded, core_parsed, channels_responded, channels_parsed, is_current,
}
use channel_wire.Safety.Invariant.{branch-Inv, wait_for-Inv, Inv, caller_captured}
use channel_wire.Safety.Connections.{
  push_line-Inv, connect-Inv, logout-Inv, record_monitor_sample-Inv,
}

module _ (q : Bool) (s k : ℕ) where
  show_line-Inv : (line : Option String) (w : World) → Inv q s k w → Inv q s k (show_line line w)
  show_line-Inv none w h = h
  show_line-Inv (some t) w h = push_line-Inv q s k (plain status t) w h

  pub stats_returned-Inv :
      (caller : StatsCaller) (valid : Bool) (w : World)
      → Inv q s k w
      → Inv q s k (stats_returned caller valid w)
  unfolding stats_returned
  stats_returned-Inv (sign_in token captured line) valid w h =
      elim (Bool-cases (is_current token w)) [
        | inl same ↦ rw same (show_line-Inv line _ (connect-Inv q s k captured token w h))
        | inr other ↦ rw other (show_line-Inv line w h)
      ]
  stats_returned-Inv (restore token captured) valid w h =
      ground (arith, connect-Inv q s k captured token w h)
  stats_returned-Inv slash_stats valid w h = push_line-Inv q s k _ w h
  stats_returned-Inv gateway_event valid w h = h
  stats_returned-Inv refresh_button valid w h = h

  pub stats_rejected-Inv :
      (caller : StatsCaller) (reason : String) (w : World)
      → Inv q s k w
      → Inv q s k (stats_rejected caller reason w)
  unfolding stats_rejected
  stats_rejected-Inv refresh_button reason w h = ground arith
  stats_rejected-Inv (sign_in token captured line) reason w h =
      stats_returned-Inv (sign_in token captured line) false w h
  stats_rejected-Inv (restore token captured) reason w h = h
  stats_rejected-Inv slash_stats reason w h = h
  stats_rejected-Inv gateway_event reason w h = h

  set_core_stats-Inv :
      (stats : Option CoreStats) (w : World)
      → Inv q s k w
      → Inv q s k (Setters.set_core_stats stats w)
  set_core_stats-Inv stats w h = ground arith

  set_persisted_channels-Inv :
      (names : List PersistedChannel) (w : World)
      → Inv q s k w
      → Inv q s k (Setters.set_persisted_channels names w)
  set_persisted_channels-Inv names w h = ground arith

  module _ (token : String) (caller : StatsCaller) (own : caller_captured caller ≡ "") where
    pub refresh_stats-Inv : (w : World) → Inv q s k w → Inv q s k (refresh_stats token caller w)
    unfolding refresh_stats
    refresh_stats-Inv w h = ground (arith, stats_returned-Inv caller false w h)

    pub stats_responded-Inv :
        (code : ℕ) (w : World) → Inv q s k w → Inv q s k (stats_responded token caller code w)
    unfolding stats_responded
    stats_responded-Inv code w h = ground (
      arith,
      stats_returned-Inv caller false w h,
      stats_returned-Inv caller false (logout w) (logout-Inv q s k w h),
    )

    pub stats_parsed-Inv :
        (stats : PlatformStats) (w : World)
        → Inv q s k w
        → Inv q s k (stats_parsed token caller stats w)
    unfolding stats_parsed
    stats_parsed-Inv stats w h = ground (arith, stats_returned-Inv caller false w h)

    pub core_responded-Inv :
        (stats : PlatformStats) (code : ℕ) (w : World)
        → Inv q s k w
        → Inv q s k (core_responded token caller stats code w)
    unfolding core_responded
    core_responded-Inv stats code w h = ground arith

    pub core_parsed-Inv :
        (stats : PlatformStats) (core : CoreStats) (w : World)
        → Inv q s k w
        → Inv q s k (core_parsed token caller stats core w)
    unfolding core_parsed
    core_parsed-Inv stats core w h =
        branch-Inv (is_current token w) _ _ w
          (wait_for-Inv (channels_head token caller) _ own (omega arith)
            (record_monitor_sample-Inv q s k stats core _ (set_core_stats-Inv (some core) w h)))
          (stats_returned-Inv caller false w h)

    pub channels_responded-Inv :
        (code : ℕ) (w : World) → Inv q s k w → Inv q s k (channels_responded token caller code w)
    unfolding channels_responded
    channels_responded-Inv code w h = ground (arith, stats_returned-Inv caller true w h)

    pub channels_parsed-Inv :
        (names : List PersistedChannel) (w : World)
        → Inv q s k w
        → Inv q s k (channels_parsed token caller names w)
    unfolding channels_parsed
    channels_parsed-Inv names w h =
        branch-Inv (is_current token w) _ _ w
          (stats_returned-Inv caller true _ (set_persisted_channels-Inv names w h))
          (stats_returned-Inv caller false w h)
