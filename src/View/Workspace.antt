-- ===== src/View/Workspace.antt =====
-- The panels of the workspace that `App` (frontend/src/main.tsx) renders for a signed-in user.
use channel_wire.Prelude.{ℕ, String, false, not, Option, none, some, concat, if◌then◌else◌}
use channel_wire.Text.{is_empty}
use channel_wire.Types.{Health, PlatformStats, Percent}
use channel_wire.World.{Page}
use channel_wire.Loop.Controls.{Control, Input}
use channel_wire.Decimal.{to_fixed_0}
use channel_wire.Monitor.{stats, monitoring, monitor_series, sparkline_text}
use channel_wire.View.Node.{
  Node, Nodes, text, number, address, element, button, submit, form, field, bar, trend, end, ◌◂◌,
  ◌◂◂◌,
}
use channel_wire.View.Lists.{channels_panel, participants_panel, stored_panel, message_list}
use channel_wire.View.Account.{banner}

abbrev pub term : String → Node → Nodes
term name value = element "dt" (text name ◂ end) ◂ element "dd" (value ◂ end) ◂ end

-- `s?.f ?? "—"`
abbrev pub or_dash : {A : Type 0} → (A → ℕ) → Option A → Node
or_dash f none = text "—"
or_dash f (some s) = number (f s)

abbrev pub gateway_status : Option Health → Node
gateway_status none = text "Unknown"
gateway_status (some h) = text h.status

abbrev pub core_address : Option Health → Node
core_address none = text "Checking…"
core_address (some h) = address h.core_host h.core_port

unfoldable pub status_terms : Page → Nodes
unfolding stats
status_terms p =
    term "Gateway" (gateway_status p.health)
    ◂◂ term "Core" (core_address p.health)
    ◂◂ term "Users" (or_dash (λ s. s.users) p.platform_stats)
    ◂◂ term "Channels" (or_dash (λ s. s.channels) p.platform_stats)
    ◂◂ term "Channel memberships" (or_dash (λ s. s.memberships) p.platform_stats)
    ◂◂ term "Stored messages" (or_dash (λ s. s.messages) p.platform_stats)
    ◂◂ term "Core clients" (or_dash (λ s. s.registered_clients) p.core_stats)
    ◂◂ term "Queue disconnects" (or_dash (λ s. s.queue_disconnects) p.core_stats)
    ◂◂ term "Session events" (number (stats p.messages).events)

unfoldable pub status_panel : Page → Node
unfolding status_terms
status_panel p = element "div" (
    element "div" (text "Status" ◂ end)
    ◂ element "div" (text (if p.connected then "Connected" else "Connecting…") ◂ end)
    ◂ element "dl" (status_terms p)
    ◂ button "Refresh" false Control.refresh
    ◂ end)

unfoldable pub toolbar : Page → Node
toolbar p = element "div" (
    form Control.join_form
      (field Input.channel p.channel "" ◂ submit "Join" (not p.connected) ◂ end)
    ◂ button "Load history" false Control.load_history_button
    ◂ button "View commands" false Control.view_commands
    ◂ button "Clear view" false Control.clear_view
    ◂ end)

abbrev pub message_hint : String → String
message_hint channel =
    if is_empty channel then "Type a command…" else concat "Message #" (concat channel "…")

unfoldable pub composer : Page → Node
composer p = form Control.chat_form (
    field Input.message p.message (message_hint p.active_channel)
    ◂ submit "Send" (not p.connected)
    ◂ end)

unfoldable pub direct_panel : Page → Node
direct_panel p = element "div" (
    element "div" (text "Direct message" ◂ end)
    ◂ form Control.direct_form (
        element "label"
          (element "span" (text "To" ◂ end) ◂ field Input.recipient p.dm_to "Username" ◂ end)
        ◂ element "label" (
            element "span" (text "Message" ◂ end)
            ◂ field Input.direct_message p.dm_text "Write a direct message"
            ◂ end)
        ◂ submit "Send direct message" (not p.connected)
        ◂ button "Load history" false Control.load_direct_button
        ◂ end)
    ◂ end)

-- `platformStats?.f ?? n`
abbrev pub stored_or : (PlatformStats → ℕ) → ℕ → Option PlatformStats → Node
stored_or f n none = number n
stored_or f n (some s) = number (f s)

unfoldable pub metrics : Page → Node
unfolding stats
metrics p = element "div" (
    element "div" (
      element "strong"
        (stored_or (λ s. s.channel_messages) (stats p.messages).messages p.platform_stats ◂ end)
      ◂ element "span" (text "Stored channel messages" ◂ end)
      ◂ end)
    ◂ element "div" (
        element "strong"
          (stored_or (λ s. s.direct_messages) (stats p.messages).direct p.platform_stats ◂ end)
        ◂ element "span" (text "Stored direct messages" ◂ end)
        ◂ end)
    ◂ end)

unfoldable pub meter : String → Percent → Node
unfolding to_fixed_0
meter label share = element "div" (
    element "div" (
      element "span" (text label ◂ end)
      ◂ element "strong" (text (to_fixed_0 share) ◂ text "%" ◂ end)
      ◂ end)
    ◂ element "div" (bar share ◂ end)
    ◂ end)

abbrev pub trend_of : String → String → Node
trend_of label points = element "div" (element "span" (text label ◂ end) ◂ trend points ◂ end)

unfoldable pub monitor_panel : Page → Node
unfolding meter monitoring monitor_series sparkline_text
monitor_panel p =
    let figures = monitoring p.platform_stats p.core_stats in
    let series = monitor_series p.monitor_samples in
    element "div" (
      element "div" (text "Traffic monitor" ◂ end)
      ◂ meter "Channel message share" figures.channel_share
      ◂ meter "Direct message share" figures.direct_share
      ◂ meter "Queue disconnect rate" figures.queue_pressure
      ◂ element "dl" (
          term "Malformed frames" (number figures.malformed_frames)
          ◂◂ term "Total connections" (number figures.total_connections))
      ◂ element "div" (
          trend_of "Stored messages" (sparkline_text series.messages)
          ◂ trend_of "Queue disconnect rate" (sparkline_text series.queue_pressure)
          ◂ trend_of "Malformed frames" (sparkline_text series.malformed_frames)
          ◂ end)
      ◂ end)

unfoldable pub workspace : Page → Node
unfolding status_panel toolbar composer direct_panel metrics monitor_panel channels_panel
    participants_panel stored_panel message_list banner
workspace p = element "section" (
    element "aside"
      (status_panel p ◂ channels_panel p ◂ participants_panel p ◂ stored_panel p ◂ end)
    ◂ element "section" (toolbar p ◂ (banner p ◂◂ (message_list p ◂ composer p ◂ end)))
    ◂ element "aside" (direct_panel p ◂ metrics p ◂ monitor_panel p ◂ end)
    ◂ end)
