-- ===== src/Safety/Resume.antt =====
-- A settled promise keeps the invariant: each continuation of frontend/src/main.tsx does.
use channel_wire.Prelude.{refl, Bool, ℕ, ◌≤◌, true, false, none, some, ◌≡◌, arith, Option}
use channel_wire.World.{
  World, Task, auth_head, auth_body, error_body, stats_head, stats_body, core_head, core_body,
  channels_head, channels_body, history_head, history_body, dm_history_head, dm_history_body,
  health_head, health_body, ready_head, ready_body,
}
use channel_wire.World.Setters.{Action, end_task}
use channel_wire.Readiness.{check_failed}
use channel_wire.Loop.{run, settle, run_resumed}
use channel_wire.Loop.Settle.{
  Reply, rejected, responded, access_token, platform, core, stored_channels, rows, health, json,
  problem, resume, gives_token,
}
use channel_wire.Safety.Invariant.{branch-Inv, Inv, task_captured, task_attempt}
use channel_wire.Safety.Requests
use channel_wire.Safety.Checks

not_true : (q : Bool) → (q ≡ true → ◌≡◌ {A = Bool} true false) → q ≡ false
not_true true h = h refl
not_true false h = refl

module _ (q : Bool) (s k : ℕ) where
  pub end_task-Inv : (n : ℕ) (w : World) → Inv q s k w → Inv q s k (end_task n w)
  end_task-Inv n w h = ground arith

  abbrev Resumed : Option Action → World → Type 0
  Resumed none w = Unit
  Resumed (some action) w = Inv q s k (action w)

  -- A function that goes on keeps the invariant, if the task that it comes from does.
  resume-Inv :
      (task : Task) (reply : Reply) (w : World)
      → task_captured (some task) ≡ ""
      → (q ≡ true → gives_token reply ≡ false)
      → task_attempt (some task) ≤ 6
      → Inv q s k w
      → Resumed (resume task reply) w
  unfolding resume
  resume-Inv (auth_head path username captured) (rejected reason) w own out few h =
      Checks.auth_unreachable-Inv q s k w h
  resume-Inv (auth_head path username captured) (responded code) w own out few h =
      Checks.auth_responded-Inv q s k path username captured code w own h
  resume-Inv (auth_body path username captured) (access_token token) w own out few h =
      Checks.auth_parsed-Inv q s k path username captured token w own (not_true q out) h
  resume-Inv (auth_body path username captured) (rejected reason) w own out few h = h
  resume-Inv error_body (problem body) w own out few h = Checks.error_parsed-Inv q s k body w h
  resume-Inv error_body (rejected reason) w own out few h = h
  resume-Inv (stats_head token caller) (rejected reason) w own out few h =
      Requests.stats_rejected-Inv q s k caller reason w h
  resume-Inv (stats_head token caller) (responded code) w own out few h =
      Requests.stats_responded-Inv q s k token caller own code w h
  resume-Inv (stats_body token caller) (rejected reason) w own out few h =
      Requests.stats_rejected-Inv q s k caller reason w h
  resume-Inv (stats_body token caller) (platform stats) w own out few h =
      Requests.stats_parsed-Inv q s k token caller own stats w h
  resume-Inv (core_head token caller stats) (rejected reason) w own out few h =
      Requests.stats_rejected-Inv q s k caller reason w h
  resume-Inv (core_head token caller stats) (responded code) w own out few h =
      Requests.core_responded-Inv q s k token caller own stats code w h
  resume-Inv (core_body token caller stats) (rejected reason) w own out few h =
      Requests.stats_rejected-Inv q s k caller reason w h
  resume-Inv (core_body token caller stats) (core core_stats) w own out few h =
      Requests.core_parsed-Inv q s k token caller own stats core_stats w h
  resume-Inv (channels_head token caller) (rejected reason) w own out few h =
      Requests.stats_rejected-Inv q s k caller reason w h
  resume-Inv (channels_head token caller) (responded code) w own out few h =
      Requests.channels_responded-Inv q s k token caller own code w h
  resume-Inv (channels_body token caller) (rejected reason) w own out few h =
      Requests.stats_rejected-Inv q s k caller reason w h
  resume-Inv (channels_body token caller) (stored_channels names) w own out few h =
      Requests.channels_parsed-Inv q s k token caller own names w h
  resume-Inv (history_head channel) (rejected reason) w own out few h = h
  resume-Inv (history_head channel) (responded code) w own out few h =
      Checks.history_responded-Inv q s k channel code w h
  resume-Inv (history_body channel) (rejected reason) w own out few h = h
  resume-Inv (history_body channel) (rows items) w own out few h =
      Checks.history_parsed-Inv q s k channel items w h
  resume-Inv dm_history_head (rejected reason) w own out few h = h
  resume-Inv dm_history_head (responded code) w own out few h =
      Checks.dm_history_responded-Inv q s k code w h
  resume-Inv dm_history_body (rejected reason) w own out few h = h
  resume-Inv dm_history_body (rows items) w own out few h =
      Checks.dm_history_parsed-Inv q s k items w h
  resume-Inv health_head (rejected reason) w own out few h = Checks.health_failed-Inv q s k w h
  resume-Inv health_head (responded code) w own out few h =
      Checks.health_responded-Inv q s k code w h
  resume-Inv health_body (rejected reason) w own out few h = Checks.health_failed-Inv q s k w h
  resume-Inv health_body (health body) w own out few h = Checks.health_parsed-Inv q s k body w h
  resume-Inv (ready_head run attempt controller) (rejected reason) w own out few h =
      Checks.check_failed-Inv q s k run attempt controller w h
  resume-Inv (ready_head run attempt controller) (responded code) w own out few h =
      branch-Inv (w.browser.aborted controller) (check_failed run attempt controller) _ w
        (Checks.check_failed-Inv q s k run attempt controller w h)
        (Checks.check_responded-Inv q s k run attempt controller few code w h)
  resume-Inv (ready_body run attempt controller) (rejected reason) w own out few h =
      Checks.check_failed-Inv q s k run attempt controller w h
  resume-Inv (ready_body run attempt controller) (json body) w own out few h =
      branch-Inv (w.browser.aborted controller) (check_failed run attempt controller) _ w
        (Checks.check_failed-Inv q s k run attempt controller w h)
        (Checks.check_parsed-Inv q s k run attempt controller body w h)
  resume-Inv _ _ w own out few h = tt

  run_resumed-Inv :
      (n : ℕ) (action : Option Action) (w : World)
      → Resumed action (end_task n w)
      → Inv q s k w
      → Inv q s k (run_resumed n action w)
  run_resumed-Inv n none w r h = h
  run_resumed-Inv n (some action) w r h = r

  pub settle-Inv :
      (n : ℕ) (task : Option Task) (reply : Reply) (w : World)
      → task_captured task ≡ ""
      → (q ≡ true → gives_token reply ≡ false)
      → task_attempt task ≤ 6
      → Inv q s k w
      → Inv q s k (settle n task reply w)
  settle-Inv n none reply w own out few h = h
  settle-Inv n (some task) reply w own out few h =
      run_resumed-Inv n (resume task reply) w
        (resume-Inv task reply (end_task n w) own out few (end_task-Inv n w h)) h
