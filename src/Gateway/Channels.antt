-- ===== src/Gateway/Channels.antt =====
-- How the dashboard follows the gateway in and out of channels (frontend/src/main.tsx).
use mathlib.Core.List.{append-nil}
use text.Mathlib.TextLemmas.{nil-append, cons-append, append_assoc}
use channel_wire.Prelude.{
  ◌&&◌, if◌then◌else◌, code, ◌∙◌, nat_eq, ℕ, String, Bool, true, not, some, [], ◌∷◌, ◌++◌, ◌≡◌,
  refl, arith, concat, ap,
}
use channel_wire.Text.{strip_prefix, after_space, after_first, is_empty}
use channel_wire.Errors.{friendly_gateway_message}
use channel_wire.Log.{plain}
use channel_wire.Types.{Kind, ready, ok, join}
use channel_wire.World.{World, open_state}
use channel_wire.Log.{push_line}
use channel_wire.Connection.{request_users, send}
use channel_wire.Gateway.{names_channel, on_event, enter_channel}

-- The texts with which the gateway confirms.
abbrev pub joined : String → String
joined name = concat "joined " name

abbrev pub switched : String → String
switched name = concat "switched " name

pub strip_prefix-concat : (p s : String) → strip_prefix p (concat p s) ≡ some s
unfolding strip_prefix
strip_prefix-concat String.[] s = rw nil-append
strip_prefix-concat (String.◌∷◌ c p) s = rw cons-append (ground (arith, strip_prefix-concat p s))

abbrev has_no_space : String → Bool
has_no_space String.[] = true
has_no_space (String.◌∷◌ c s) = not (nat_eq (code c) 0x20) && has_no_space s

after_first-concat :
    (whole w s : String) → has_no_space w ≡ true → after_first whole (concat w (concat " " s)) ≡ s
after_first-concat whole String.[] s h = rw (nil-append, cons-append, nil-append)
after_first-concat whole (String.◌∷◌ c w) s h =
    rw cons-append (ground (arith, after_first-concat whole w s))

after_space-joined : (name : String) → after_space (joined name) ≡ name
unfolding after_space
after_space-joined name =
    ap (after_first (joined name)) (append_assoc "joined" " " name)
    ∙ after_first-concat (joined name) "joined" name refl

after_space-switched : (name : String) → after_space (switched name) ≡ name
unfolding after_space
after_space-switched name =
    ap (after_first (switched name)) (append_assoc "switched" " " name)
    ∙ after_first-concat (switched name) "switched" name refl

names_channel-joined : (name : String) → names_channel (joined name) ≡ true
unfolding names_channel
names_channel-joined name = rw (strip_prefix-concat "joined " name)

names_channel-switched : (name : String) → names_channel (switched name) ≡ true
unfolding names_channel
names_channel-switched name = rw (strip_prefix-concat "switched " name) (ground arith)

enter_channel-active :
    (name : String) (w : World)
    → ((enter_channel name w).page.active_channel ≡ name)
      × ((enter_channel name w).refs.active_channel ≡ name)
      × ((enter_channel name w).page.users ≡ [])
unfolding enter_channel request_users send
enter_channel-active name w = ground arith

-- Where the gateway confirms that a channel was joined, or switched to, that channel becomes the
-- active one, of the page and for a later reconnection, and the participants are emptied.
pub on_event-enters :
    (s : ℕ) (name : String) (w : World)
    → let v = on_event s (ok (joined name)) w in
      let u = on_event s (ok (switched name)) w in
      (v.page.active_channel ≡ name)
      × (v.refs.active_channel ≡ name)
      × (v.page.users ≡ [])
      × (u.page.active_channel ≡ name)
      × (u.refs.active_channel ≡ name)
      × (u.page.users ≡ [])
unfolding on_event
on_event-enters s name w =
    let a =
      enter_channel-active name
        (push_line (plain Kind.system (friendly_gateway_message (joined name))) w) in
    let b =
      enter_channel-active name
        (push_line (plain Kind.system (friendly_gateway_message (switched name))) w) in
    rw
      (
        names_channel-joined name,
        after_space-joined name,
        names_channel-switched name,
        after_space-switched name,
      )
      (a.0, a.1, a.2, b.0, b.1, b.2)

-- When a socket that is open is ready, the dashboard asks for the active channel again on that
-- socket, if there is one, and for nothing else.
pub on_event-rejoins :
    (s : ℕ) (username : String) (w : World)
    → (w.browser.sockets s).state ≡ open_state
    → ((on_event s (ready username) w).browser.sockets s).sent
      ≡ (w.browser.sockets s).sent
        ++ (if is_empty w.refs.active_channel then [] else join w.refs.active_channel ∷ [])
unfolding on_event push_line
on_event-rejoins s username w e = ground (arith, append-nil (w.browser.sockets s).sent)
