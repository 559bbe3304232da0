-- ===== src/Examples/Pages.antt =====
-- Pages of the dashboard (frontend/src/main.tsx) at concrete states.
use channel_wire.Prelude.{
  ℕ, ℕ_discrete, ◌+◌, ◌++◌, ◌⊎◌, true, false, none, some, List, [], ◌∷◌, map, slice_last, ◌≡◌, ◌≢◌,
  refl, arith, update,
}
use channel_wire.Text.{trim}
use channel_wire.Types.{failed, ok, PlatformStats, CoreStats, HistoryItem, GatewayEvent, dm}
use channel_wire.Connection.{start_session}
use channel_wire.World.{
  auth_body, login, World, open_state, connecting, reconnect, history_body, stats_head,
  gateway_event, refresh_button,
}
use channel_wire.Log.{message_limit}
use channel_wire.Connection.{logout, reconnect_delay}
use channel_wire.Connection.Backoff
use channel_wire.Stats.{stats_parsed, core_parsed, channels_parsed}
use channel_wire.Stats.Races
use channel_wire.Gateway.{on_event, handle_gateway_event}
use channel_wire.Gateway.Channels
use channel_wire.Commands.{send_direct}
use channel_wire.Commands.Sent
use channel_wire.History.{channel_line}
use channel_wire.Readiness.{start_readiness_check}
use channel_wire.Readiness.Attempts
use channel_wire.Loop.{Event, step}
use channel_wire.Loop.Settle.{responded, rows}
use channel_wire.Safety.Leaks
use channel_wire.Examples.Platform.{token}
use channel_wire.Examples.Runs.{connects}

-- Signed in, in a channel, with an open socket, a message to bob, and requests that wait.
abbrev pub busy : World
busy = record connects {
  page = record connects.page {
    connected = true;
    active_channel = "general";
    dm_to = " bob ";
    dm_text = "hi";
  };
  refs = record connects.refs { active_channel = "general" };
  browser = record connects.browser {
    sockets =
        update connects.browser.sockets 0
          (record { state = open_state; url_token = token; captured = ""; sent = [] });
    tasks =
        update (update connects.browser.tasks 5 (some (history_body "general"))) 6
          (some (stats_head "old" gateway_event));
    task_count = 7;
  };
}

-- The same, with the socket before it still closing.
abbrev two_sockets : World
two_sockets = record busy {
  refs = record busy.refs { socket = some 1 };
  browser = record busy.browser {
    sockets =
        update busy.browser.sockets 1
          (record { state = open_state; url_token = token; captured = ""; sent = [] });
    socket_count = 2;
  };
}

abbrev figures : PlatformStats
figures = record {
  users = 1;
  channels = 0;
  memberships = 0;
  messages = 0;
  channel_messages = 0;
  direct_messages = 0;
}

abbrev core_figures : CoreStats
core_figures = record {
  current_connections = 1;
  registered_clients = 1;
  total_connections = 1;
  channels = 0;
  channel_messages = 0;
  direct_messages = 0;
  malformed_frames = 0;
  queue_disconnects = 0;
  max_queue_bytes = 0;
}

outage-failed_example :
    (Attempts.outage 5 connects.browser.task_count "down"
      (start_readiness_check connects)).page.backend_readiness
    ≡ failed
outage-failed_example = Attempts.outage-failed "down" connects

reconnects_example :
    let w1 = step (Event.closed_by_peer 0) connects in
    let w2 = step (Event.fired connects.browser.timer_count) w1 in
    (w1.page.connected ≡ false)
    × (w1.refs.reconnect_attempt ≡ connects.refs.reconnect_attempt + 1)
    × (w1.browser.timers connects.browser.timer_count
        ≡ some (record {
          action = reconnect (connects.browser.sockets 0).captured;
          delay = reconnect_delay connects.refs.reconnect_attempt;
        }))
    × (w2.refs.socket ≡ some connects.browser.socket_count)
    × ((w2.browser.sockets connects.browser.socket_count).state ≡ connecting)
    × ((w2.browser.sockets connects.browser.socket_count).url_token ≡ connects.refs.token)
unfolding ℕ_discrete
reconnects_example = Backoff.reconnects 0 connects refl refl refl refl

stale_bodies_ignored_example :
    Races.SameFigures (stats_parsed "old" refresh_button figures busy) busy
    × Races.SameFigures (core_parsed "old" refresh_button figures core_figures busy) busy
    × Races.SameFigures (channels_parsed "old" refresh_button [] busy) busy
stale_bodies_ignored_example =
    Races.stale_bodies_ignored "old" refresh_button busy refl figures core_figures []

late_refusal_signs_out_example :
    let v = step (Event.settled 6 (responded 401)) busy in
    (v.refs.token ≡ "")
    × (v.page.token ≡ "")
    × (v.page.messages ≡ [])
    × (v.browser.storage ≡ none)
    × (v.refs.allow_reconnect ≡ false)
unfolding ℕ_discrete
late_refusal_signs_out_example = Races.late_refusal_signs_out 6 "old" 401 busy refl refl

on_event-enters_example :
    let v = on_event 0 (ok (Channels.joined "lobby")) busy in
    let u = on_event 0 (ok (Channels.switched "lobby")) busy in
    (v.page.active_channel ≡ "lobby")
    × (v.refs.active_channel ≡ "lobby")
    × (v.page.users ≡ [])
    × (u.page.active_channel ≡ "lobby")
    × (u.refs.active_channel ≡ "lobby")
    × (u.page.users ≡ [])
on_event-enters_example = Channels.on_event-enters 0 "lobby" busy

send_direct-IsDirect_example :
    let sent = (busy.browser.sockets 0).sent in
    let sent' = ((send_direct busy).browser.sockets 0).sent in
    (sent' ≡ sent)
    ⊎ ((sent' ≡ sent ++ dm (trim " bob ") (trim "hi") ∷ [])
        × Sent.IsDirect (dm (trim " bob ") (trim "hi")))
send_direct-IsDirect_example = Sent.send_direct-IsDirect 0 busy

abbrev two_rows : List HistoryItem
two_rows =
    record { id = 1; sender = "bob"; text = "hi" }
    ∷ record { id = 2; sender = "eve"; text = "yo" }
    ∷ []

history_after_logout_example :
    let v = step (Event.settled 5 (rows two_rows)) (logout busy) in
    let u = start_session "j.QQ" "eve" v in
    (v.page.token ≡ "")
    × (u.page.token ≡ "j.QQ")
    × (u.page.authenticated_username ≡ "eve")
    × (u.page.messages ≡ slice_last message_limit (map (channel_line "general") two_rows))
unfolding ℕ_discrete
history_after_logout_example =
    Leaks.history_after_logout 5 "general" two_rows "j.QQ" "eve" busy refl

-- A second sign-in, whose response is there.
abbrev twice : World
twice = record connects {
  browser = record connects.browser {
    tasks = update connects.browser.tasks 5 (some (auth_body login "bob" ""));
    task_count = 6;
  };
}

abbrev old_socket : ℕ
old_socket = 0

old_socket-ne : old_socket ≢ 1
old_socket-ne = omega arith

late_close_disconnects_example :
    let v = step (Event.closed_by_peer 0) two_sockets in
    (v.page.connected ≡ false)
    × (v.refs.socket ≡ some 1)
    × ((v.browser.sockets 1).state ≡ open_state)
unfolding ℕ_discrete
late_close_disconnects_example =
    Leaks.late_close_disconnects 0 1 two_sockets old_socket-ne refl refl refl

no_refresh_without_token_example :
    ((handle_gateway_event 0 (GatewayEvent.system "hello") busy).browser.task_count
      ≡ busy.browser.task_count)
    × ((handle_gateway_event 0 (GatewayEvent.system "hello") busy).page.platform_stats
        ≡ busy.page.platform_stats)
unfolding ℕ_discrete
no_refresh_without_token_example =
    Leaks.no_refresh_without_token 0 (GatewayEvent.system "hello") busy refl
