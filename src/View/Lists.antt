-- ===== src/View/Lists.antt =====
-- The lists that `App` (frontend/src/main.tsx) renders: channels, participants, stored channels and
-- messages.
use channel_wire.Prelude.{
  ◌||◌, String, not, Option, none, some, List, [], ◌∷◌, concat, if◌then◌else◌,
}
use channel_wire.Text.{is_empty}
use channel_wire.Types.{ChatLine, Kind, PersistedChannel}
use channel_wire.World.{Page}
use channel_wire.Loop.Controls.{Control}
use channel_wire.View.Node.{Node, Nodes, text, element, button, end, ◌◂◌}

module _ {A : Type 0} where
  -- `items.map(...)`
  unfoldable pub render_each : (A → Node) → List A → Nodes
  render_each f [] = end
  render_each f (x ∷ xs) = f x ◂ render_each f xs

  -- A list, or a line that says that it is empty.
  unfoldable pub items_or : (A → Node) → String → List A → Nodes
  unfolding render_each
  items_or f empty [] = element "li" (text empty ◂ end) ◂ end
  items_or f empty (x ∷ xs) = render_each f (x ∷ xs)

abbrev pub line : String → Nodes
line s = element "li" (text s ◂ end) ◂ end

abbrev pub item : String → Node
item s = element "li" (text s ◂ end)

abbrev pub channel_suffix : String → String
channel_suffix channel = if is_empty channel then "" else concat " in #" channel

unfoldable pub channel_items : Page → Nodes
unfolding items_or
channel_items p =
    if not p.connected
    then line "Connect to view channels"
    else if not p.channels_loaded
    then line "Loading channels…"
    else items_or item "No channels yet" p.channels

-- The second panel of the sidebar.
unfoldable pub channels_panel : Page → Node
unfolding channel_items
channels_panel p = element "div" (
    element "div" (text "Channels" ◂ end)
    ◂ button "Refresh channels" (not p.connected) Control.refresh_channels
    ◂ element "ul" (channel_items p)
    ◂ end)

unfoldable pub participant_items : Page → Nodes
unfolding items_or
participant_items p =
    if not p.connected
    then line "Connect to view participants"
    else if is_empty p.active_channel
    then line "Join a channel to view participants"
    else if not p.users_loaded
    then line "Loading participants…"
    else items_or item "No participants in this channel" p.users

unfoldable pub participants_panel : Page → Node
unfolding participant_items
participants_panel p = element "div" (
    element "div" (text "Participants" ◂ text (channel_suffix p.active_channel) ◂ end)
    ◂ button "Refresh participants" (not p.connected || is_empty p.active_channel)
        Control.refresh_participants
    ◂ element "ul" (participant_items p)
    ◂ end)

unfoldable pub stored_panel : Page → Node
unfolding items_or
stored_panel p = element "div" (
    element "div" (text "Stored channels" ◂ end)
    ◂ element "ul" (
        items_or (λ (c : PersistedChannel). item c.name) "No stored channels yet"
          p.persisted_channels)
    ◂ end)

abbrev pub kind_name : Kind → String
kind_name Kind.chat = "chat"
kind_name Kind.dm = "dm"
kind_name Kind.system = "system"
kind_name Kind.status = "status"
kind_name Kind.error = "error"

-- `item.sender ?? item.kind`
abbrev pub heading : Option String → Kind → String
heading none kind = kind_name kind
heading (some sender) kind = sender

-- `item.channel && <small>#{item.channel}</small>`
abbrev pub channel_mark : Option String → Nodes
channel_mark none = end
channel_mark (some channel) =
    if is_empty channel then end else element "small" (text "#" ◂ text channel ◂ end) ◂ end

unfoldable pub message : ChatLine → Node
message l = element "article" (
    element "header"
      (element "span" (text (heading l.sender l.kind) ◂ end) ◂ channel_mark l.channel)
    ◂ element "p" (text l.text ◂ end)
    ◂ end)

unfoldable pub empty_title : Page → String
empty_title p =
    if p.connected
    then (if not (is_empty p.active_channel)
        then concat "You’re in #" p.active_channel
        else "Connected to ChannelWire")
    else "Reconnecting to ChannelWire"

unfoldable pub empty_hint : Page → String
empty_hint p =
    if p.connected
    then (if not (is_empty p.active_channel)
        then "Send a message or use /help to view commands."
        else "Join a channel above to start messaging.")
    else "The real-time stream will resume automatically when the gateway is available."

-- What stands in place of the messages where there are none.
unfoldable pub empty_state : Page → Node
unfolding empty_title empty_hint
empty_state p =
    element "div" (
      element "strong" (text (empty_title p) ◂ end) ◂ element "p" (text (empty_hint p) ◂ end) ◂ end)

unfoldable pub messages_or : List ChatLine → Page → Nodes
unfolding render_each message empty_state
messages_or [] p = empty_state p ◂ end
messages_or (l ∷ lines) p = render_each message (l ∷ lines)

unfoldable pub message_list : Page → Node
unfolding messages_or
message_list p = element "div" (messages_or p.messages p)
