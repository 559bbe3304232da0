-- ===== src/View/App.antt =====
-- The whole page that `App` (frontend/src/main.tsx) renders.
use channel_wire.Prelude.{Bool, if◌then◌else◌, not}
use channel_wire.Text.{is_empty}
use channel_wire.World.{Page}
use channel_wire.Loop.Controls.{is_ready}
use channel_wire.View.Node.{Node, text, element, end, ◌◂◌}
use channel_wire.View.Account.{live_status, topbar, readiness_state, signed_out}
use channel_wire.View.Workspace.{workspace}

unfoldable pub body : Page → Node
body p =
    if not (is_ready p.backend_readiness)
    then readiness_state p.backend_readiness
    else if is_empty p.token
    then signed_out p
    else workspace p

-- `dev` is `devTokenEnabled`.
unfoldable pub render : Bool → Page → Node
unfolding live_status topbar
render dev p =
    element "main"
      (element "span" (text (live_status p.backend_readiness) ◂ end) ◂ topbar dev p ◂ body p ◂ end)
