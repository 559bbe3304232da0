-- ===== src/Loop/Controls.antt =====
-- The controls of the page that `App` of frontend/src/main.tsx renders: when each is offered, and
-- what it does.
use channel_wire.Prelude.{String, Bool, true, false, not, ◌&&◌, ◌||◌}
use channel_wire.Text.{is_empty}
use channel_wire.Types.{BackendReadiness, ready, failed}
use channel_wire.World.{World, AuthPath, refresh_button}
use channel_wire.World.Setters
use channel_wire.World.Setters.{Action, ◌>>◌, ◌>>=◌, branch}
use channel_wire.Log.{show_help, clear_messages}
use channel_wire.Connection.{logout, request_channels, request_users}
use channel_wire.Stats.{refresh_stats}
use channel_wire.Account.{authenticate}
use channel_wire.History.{load_history, load_direct_history, refresh_health}
use channel_wire.Commands.{join_channel, send_chat, send_direct}
use channel_wire.Readiness.{start_readiness_check}

-- The inputs that the user types into.
pub data Input : Type 0 where
  username password channel message recipient direct_message : Input

pub data Control : Type 0 where
  account_button : AuthPath → Control
  sign_out try_again refresh refresh_channels refresh_participants : Control
  join_form chat_form direct_form : Control
  load_history_button load_direct_button view_commands clear_view dismiss : Control
  typed : Input → String → Control

abbrev pub is_ready : BackendReadiness → Bool
is_ready ready = true
is_ready _ = false

abbrev pub is_failed : BackendReadiness → Bool
is_failed failed = true
is_failed _ = false

-- The account form is shown to a visitor who is not signed in, and the workspace to one who is.
abbrev shows_account : World → Bool
shows_account w = is_ready w.page.backend_readiness && is_empty w.page.token

abbrev shows_workspace : World → Bool
shows_workspace w = is_ready w.page.backend_readiness && not (is_empty w.page.token)

abbrev is_shown : Input → World → Bool
is_shown username w = shows_account w
is_shown password w = shows_account w
is_shown _ w = shows_workspace w

-- Whether the page shows the control, and shows it enabled.
unfoldable pub is_offered : Control → World → Bool
is_offered (account_button path) w = shows_account w
is_offered sign_out w = shows_workspace w
is_offered try_again w = is_failed w.page.backend_readiness
is_offered refresh w = shows_workspace w
is_offered refresh_channels w = shows_workspace w && w.page.connected
is_offered refresh_participants w =
    shows_workspace w && w.page.connected && not (is_empty w.page.active_channel)
is_offered join_form w = shows_workspace w && w.page.connected
is_offered chat_form w = shows_workspace w && w.page.connected
is_offered direct_form w = shows_workspace w && w.page.connected
is_offered load_history_button w = shows_workspace w
is_offered load_direct_button w = shows_workspace w
is_offered view_commands w = shows_workspace w
is_offered clear_view w = shows_workspace w
is_offered dismiss w =
    is_ready w.page.backend_readiness
    && (not (is_empty w.page.error) || not (is_empty w.page.health_error))
is_offered (typed input text) w = is_shown input w

abbrev pub type_text : Input → String → Action
type_text username s = Setters.set_username s
type_text password s = Setters.set_password s
type_text channel s = Setters.set_channel s
type_text message s = Setters.set_message s
type_text recipient s = Setters.set_dm_to s
type_text direct_message s = Setters.set_dm_text s

unfoldable pub press : Control → Action
press (account_button path) = authenticate path
press sign_out = logout
press try_again = start_readiness_check
press refresh = do refresh_health; token ← λ w. w.page.token; refresh_stats token refresh_button
press refresh_channels = request_channels
press refresh_participants = request_users
press join_form = join_channel
press chat_form = send_chat
press direct_form = send_direct
press load_history_button = load_history
press load_direct_button = load_direct_history
press view_commands = show_help
press clear_view = clear_messages
press dismiss = do
  shown ← λ w. is_empty w.page.error
  branch shown (Setters.set_health_error "") (Setters.set_error "")
press (typed input text) = type_text input text
