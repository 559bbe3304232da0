-- ===== src/Account.antt =====
-- `createToken` and `authenticate` of frontend/src/main.tsx, from one `await` to the next.
use channel_wire.Prelude.{ℕ, String, Option, none, some, concat, if◌then◌else◌}
use channel_wire.World.{
  AuthPath, register, login, dev_token, auth_head, auth_body, error_body, sign_in,
}
use channel_wire.World.Setters.{Action, ◌>>◌, ◌>>=◌, set_error, wait_for}
use channel_wire.Connection.{start_session}
use channel_wire.Stats.{is_ok, refresh_stats}

abbrev clear_error : AuthPath → Action
clear_error dev_token w = w
clear_error _ w = set_error "" w

-- The request that a button of the signed-out page sends. Its closures are those of this render.
unfoldable pub authenticate : AuthPath → Action
authenticate path = do
  clear_error path
  username ← λ w. w.page.username
  captured ← λ w. w.page.token
  wait_for (auth_head path username captured)

unfoldable pub auth_unreachable : Action
auth_unreachable = set_error "Can’t reach ChannelWire. Try again."

unfoldable pub auth_responded : AuthPath → String → String → ℕ → Action
auth_responded path username captured code =
    if is_ok code then wait_for (auth_body path username captured) else wait_for error_body

-- The line that `authenticate` pushes last; `createToken` pushes none.
unfoldable pub auth_line : AuthPath → String → Option String
auth_line register username = some (concat "Account created for " (concat username "."))
auth_line login username = some (concat "Signed in as " (concat username "."))
auth_line dev_token username = none

unfoldable pub auth_parsed : AuthPath → String → String → String → Action
auth_parsed path username captured access_token = do
  start_session access_token username
  refresh_stats access_token (sign_in access_token captured (auth_line path username))
