-- ===== src/Safety/Leaks.antt =====
-- Four orders of events in which the dashboard (frontend/src/main.tsx) does not do what it means to:
-- a history that arrives late, a sign-in that ends late, a socket that closes late, and handlers that keep an old token.
use channel_wire.Prelude.{ℕ, String, false, some, List, map, ◌≡◌, ◌≢◌, arith, slice_last}
use channel_wire.Types.{GatewayEvent, HistoryItem}
use channel_wire.Connection.{start_session}
use channel_wire.World.{World, open_state, history_body, dm_history_body}
use channel_wire.Connection.{on_close, schedule_reconnect, logout, request_users, send}
use channel_wire.Log.{push_line, replace_messages, message_limit}
use channel_wire.History.{channel_line, direct_line, history_parsed, dm_history_parsed}
use channel_wire.Stats.{refresh_stats, stats_returned}
use channel_wire.Gateway.{handle_gateway_event, on_event}
use channel_wire.Loop.{Event, step, is_closed}
use channel_wire.Loop.Settle.{resume, rows}

-- A channel history that the user asked for before signing out is taken when it arrives, with
-- nobody signed in, and is what the next user finds in the view.
pub history_after_logout :
    (k : ℕ) (channel : String) (items : List HistoryItem) (token username : String) (w : World)
    → w.browser.tasks k ≡ some (history_body channel)
    → let v = step (Event.settled k (rows items)) (logout w) in
      let u = start_session token username v in
      (v.page.token ≡ "")
      × (u.page.token ≡ token)
      × (u.page.authenticated_username ≡ username)
      × (u.page.messages ≡ slice_last message_limit (map (channel_line channel) items))
unfolding step resume history_parsed replace_messages logout start_session
history_after_logout k channel items token username w asked = ground arith

-- So is a history of direct messages.
direct_history_after_logout :
    (k : ℕ) (items : List HistoryItem) (token username : String) (w : World)
    → w.browser.tasks k ≡ some dm_history_body
    → let v = step (Event.settled k (rows items)) (logout w) in
      let u = start_session token username v in
      (u.page.token ≡ token) × (u.page.messages ≡ slice_last message_limit (map direct_line items))
unfolding step resume dm_history_parsed replace_messages logout start_session
direct_history_after_logout k items token username w asked = ground arith

-- While a new socket is open, the close of another one makes the page say that it is not connected;
-- the open socket stays open, and stays the one of `socketRef`.
pub late_close_disconnects :
    (s r : ℕ) (w : World)
    → s ≢ r
    → w.refs.socket ≡ some r
    → (w.browser.sockets r).state ≡ open_state
    → is_closed (w.browser.sockets s).state ≡ false
    → let v = step (Event.closed_by_peer s) w in
      (v.page.connected ≡ false)
      × (v.refs.socket ≡ some r)
      × ((v.browser.sockets r).state ≡ open_state)
unfolding step on_close schedule_reconnect push_line
late_close_disconnects s r w ne ref open_r up = ground arith

handled_alone :
    (s : ℕ) (event : GatewayEvent) (w : World)
    → (w.browser.sockets s).captured ≡ ""
    → handle_gateway_event s event w ≡ on_event s event w
unfolding handle_gateway_event refresh_stats stats_returned
handled_alone s event w e = rw e

on_event-asks_nothing :
    (s : ℕ) (event : GatewayEvent) (w : World)
    → ((on_event s event w).browser.task_count ≡ w.browser.task_count)
      × ((on_event s event w).page.platform_stats ≡ w.page.platform_stats)
unfolding on_event push_line request_users send
on_event-asks_nothing s event w = ground arith

-- The handlers of a socket that was made while the page had no token send no request for figures,
-- whatever arrives.
pub no_refresh_without_token :
    (s : ℕ) (event : GatewayEvent) (w : World)
    → (w.browser.sockets s).captured ≡ ""
    → ((handle_gateway_event s event w).browser.task_count ≡ w.browser.task_count)
      × ((handle_gateway_event s event w).page.platform_stats ≡ w.page.platform_stats)
no_refresh_without_token s event w e =
    rw (handled_alone s event w e) (on_event-asks_nothing s event w)
