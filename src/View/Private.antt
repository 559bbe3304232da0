-- ===== src/View/Private.antt =====
-- What the page (frontend/src/main.tsx) shows while nobody is signed in.
use channel_wire.Prelude.{ℕ, String, Bool, true, false, Option, none, List, ◌≡◌, refl}
use channel_wire.Json.{Codec}
use channel_wire.Text.{is_empty}
use channel_wire.World.{Page}
use channel_wire.Connection.{logout}
use channel_wire.Loop.{Event, run, any_signs_in}
use channel_wire.Loop.Start.{start, first_page}
use channel_wire.Safety.Reached
use channel_wire.View.Account.{topbar, account, account_form, signed_out, banner}
use channel_wire.View.App.{render, body}

-- The page of a first visit, but for the readiness, the inputs of the account form and the errors.
abbrev pub forgotten : Page → Page
forgotten p = record (first_page none) {
  backend_readiness = p.backend_readiness;
  username = p.username;
  password = p.password;
  error = p.error;
  health_error = p.health_error;
}

topbar-forgotten :
    (dev : Bool) (p : Page) → is_empty p.token ≡ true → topbar dev p ≡ topbar dev (forgotten p)
unfolding topbar account account_form
topbar-forgotten dev p e = rw e refl

body-forgotten : (p : Page) → is_empty p.token ≡ true → body p ≡ body (forgotten p)
unfolding body signed_out banner
body-forgotten p e = rw e refl

render-forgotten :
    (dev : Bool) (p : Page) → is_empty p.token ≡ true → render dev p ≡ render dev (forgotten p)
unfolding render
render-forgotten dev p e = rw (topbar-forgotten dev p e, body-forgotten p e) refl

empty-is_empty : (t : String) → t ≡ "" → is_empty t ≡ true
empty-is_empty t e = rw e refl

-- Once the user signs out, after any events, and until somebody signs in, whatever arrives, the page
-- shows what it would show on a first visit with the same readiness, account inputs and errors:
-- nothing of messages, channels, participants or figures.
pub logout-forgotten :
    (dev : Bool) (codec : Codec) (now : ℕ) (stamp : ℕ → ℕ) (stored : Option String)
    (before after : List Event)
    → any_signs_in after ≡ false
    → let w = run after (logout (run before (start codec now stamp stored))) in
      render dev w.page ≡ render dev (forgotten w.page)
logout-forgotten dev codec now stamp stored before after none_in =
    render-forgotten dev _
      (empty-is_empty _ (Reached.logout_hides codec now stamp stored before after none_in))
