-- ===== src/View/Account.antt =====
-- The top of the page that `App` (frontend/src/main.tsx) renders, and what it renders below while
-- there is no workspace: the readiness check, and the signed-out page.
use channel_wire.Prelude.{String, Bool, true, false, if◌then◌else◌}
use channel_wire.Text.{is_empty}
use channel_wire.Types.{BackendReadiness}
use channel_wire.World.{Page, AuthPath}
use channel_wire.Loop.Controls.{Control, Input, is_ready}
use channel_wire.View.Node.{Node, Nodes, text, element, button, field, end, ◌◂◌}

unfoldable pub live_status : BackendReadiness → String
live_status BackendReadiness.checking = "Checking ChannelWire."
live_status BackendReadiness.ready = "ChannelWire is ready."
live_status BackendReadiness.failed = ""

unfoldable pub signed_in_controls : Page → Node
signed_in_controls p = element "div" (
    element "div" (
      element "span" (text "Signed in as" ◂ end)
      ◂ element "strong" (text p.authenticated_username ◂ end)
      ◂ end)
    ◂ button "Sign out" false Control.sign_out
    ◂ end)

-- `devTokenEnabled && ...`
abbrev pub dev_button : Bool → Nodes
dev_button dev =
    if dev then button "Dev token" false (Control.account_button AuthPath.dev_token) ◂ end else end

unfoldable pub account_form : Bool → Page → Node
account_form dev p = element "div" (
    element "label"
      (element "span" (text "Username" ◂ end) ◂ field Input.username p.username "" ◂ end)
    ◂ element "label" (
        element "span" (text "Password" ◂ end)
        ◂ field Input.password p.password "At least 8 characters"
        ◂ end)
    ◂ button "Create account" false (Control.account_button AuthPath.register)
    ◂ button "Sign in" false (Control.account_button AuthPath.login)
    ◂ dev_button dev)

abbrev pub is_checking : BackendReadiness → Bool
is_checking BackendReadiness.checking = true
is_checking _ = false

unfoldable pub account : Bool → Page → Nodes
unfolding signed_in_controls account_form
account dev p =
    if is_ready p.backend_readiness
    then (if is_empty p.token then account_form dev p else signed_in_controls p) ◂ end
    else end

unfoldable pub topbar : Bool → Page → Node
unfolding account
topbar dev p = element "section" (
    element "div" (
      element "h1" (text "ChannelWire" ◂ end)
      ◂ element "p" (text "Real-time messaging and system monitoring" ◂ end)
      ◂ end)
    ◂ account dev p)

unfoldable pub checking_panel : Node
checking_panel = element "div" (
    element "h2" (text "Checking ChannelWire…" ◂ end)
    ◂ element "p" (
        text
          "Waiting for the gateway and messaging core. This can take a moment after the service starts."
        ◂ end)
    ◂ end)

unfoldable pub failed_panel : Node
failed_panel = element "div" (
    element "h2" (text "ChannelWire isn’t ready" ◂ end)
    ◂ element "p" (
        text
          "ChannelWire did not respond in time. Check that the service is running, then try again."
        ◂ end)
    ◂ button "Try again" false Control.try_again
    ◂ end)

unfoldable pub readiness_state : BackendReadiness → Node
unfolding checking_panel failed_panel
readiness_state readiness =
    element "section" ((if is_checking readiness then checking_panel else failed_panel) ◂ end)

-- `error || healthError`
abbrev pub error_text : Page → String
error_text p = if is_empty p.error then p.health_error else p.error

unfoldable pub banner : Page → Nodes
banner p =
    if is_empty (error_text p)
    then end
    else element "div" (
        element "span" (text (error_text p) ◂ end)
        ◂ button "Dismiss error" false Control.dismiss
        ◂ end)
      ◂ end

unfoldable pub signed_out : Page → Node
unfolding banner
signed_out p = element "section" (
    element "div" (
      element "h2" (text "Sign in to ChannelWire" ◂ end)
      ◂ element "p" (
          text "Sign in or create an account to use channels, direct messages, and monitoring."
          ◂ end)
      ◂ banner p)
    ◂ end)
