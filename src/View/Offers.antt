-- ===== src/View/Offers.antt =====
-- What the rendered page (frontend/src/main.tsx) lets the user do, panel by panel, and as a whole:
-- the same as the guards under which the model lets a control be used.
use channel_wire.Prelude.{
  sym, inr, inl, Bool-cases, ◌∙◌, ap, ℕ, String, Bool, false, not, ◌&&◌, ◌||◌, Option, none, some,
  List, [], ◌∷◌, ◌≡◌, refl, arith,
}
use mathlib.Core.Bool.{or-false, and-true, not-not, or_assoc}
use channel_wire.Text.{is_empty}
use channel_wire.Types.{PlatformStats, Health, ChatLine, PersistedChannel}
use channel_wire.World.{Page}
use channel_wire.Loop.Controls.{Control, Input}
use channel_wire.View.Node.{
  Node, Nodes, end, ◌◂◌, ◌◂◂◌, offers, offers_any, same_control, types_into,
}
use channel_wire.View.Lists.{
  channel_mark, item, render_each, items_or, channel_items, channels_panel, participant_items,
  participants_panel, stored_panel, message, messages_or, message_list, empty_state,
}
use channel_wire.View.Account.{banner, signed_out}
use channel_wire.View.Workspace.{workspace}
use channel_wire.View.Workspace.{
  workspace, gateway_status, stored_or, core_address, or_dash, status_panel, toolbar, composer,
  direct_panel, metrics, meter, monitor_panel,
}

both-false : (a b : Bool) → a ≡ false → b ≡ false → (a || b) ≡ false
both-false a b e h = rw e h

ruleset units = (or-false, and-true, not-not)

enabled : (a b : Bool) → (a && not (not b) || false) ≡ (a && b)
enabled a b = ground arith

enabled_both : (a b d : Bool) → (a && not (not b || d) || false) ≡ (a && (b && not d))
enabled_both a b d = ground arith

module _ (c : Control) where
  offers_any-append :
      (ns ms : Nodes) → offers_any c (ns ◂◂ ms) ≡ (offers_any c ns || offers_any c ms)
  unfolding offers
  offers_any-append end ms = refl
  offers_any-append (n ◂ ns) ms =
      ap (λ b. offers c n || b) (offers_any-append ns ms) ∙ sym (or_assoc (offers c n) _ _)

  module _ {A : Type 0} (f : A → Node) (quiet : (x : A) → offers c (f x) ≡ false) where
    render_each-offers : (xs : List A) → offers_any c (render_each f xs) ≡ false
    unfolding render_each offers
    render_each-offers [] = refl
    render_each-offers (x ∷ xs) = both-false _ _ (quiet x) (render_each-offers xs)

    items_or-offers : (empty : String) (xs : List A) → offers_any c (items_or f empty xs) ≡ false
    unfolding items_or offers
    items_or-offers empty [] = refl
    items_or-offers empty (x ∷ xs) = render_each-offers (x ∷ xs)

  names-offers :
      (empty : String) (names : List String) → offers_any c (items_or item empty names) ≡ false
  unfolding offers
  names-offers = items_or-offers item (λ s. refl)

  channel_items-offers : (p : Page) → offers_any c (channel_items p) ≡ false
  unfolding channel_items offers
  channel_items-offers p = ground (arith, names-offers "No channels yet" p.channels)

  participant_items-offers : (p : Page) → offers_any c (participant_items p) ≡ false
  unfolding participant_items offers
  participant_items-offers p =
      ground (arith, names-offers "No participants in this channel" p.users)

  channels_panel-offers :
      (p : Page)
      → offers c (channels_panel p) ≡ (same_control c Control.refresh_channels && p.connected)
  unfolding channels_panel offers
  channels_panel-offers p = rw (channel_items-offers p) (enabled _ p.connected)

  participants_panel-offers :
      (p : Page)
      → offers c (participants_panel p) ≡ (
          same_control c Control.refresh_participants
          && (p.connected && not (is_empty p.active_channel)))
  unfolding participants_panel offers
  participants_panel-offers p = rw (participant_items-offers p) (enabled_both _ p.connected _)

  stored_panel-offers : (p : Page) → offers c (stored_panel p) ≡ false
  unfolding stored_panel offers
  stored_panel-offers p =
      rw
        (items_or-offers (λ (s : PersistedChannel). item s.name) (λ s. refl)
          "No stored channels yet" p.persisted_channels)
        refl

  channel_mark-offers : (channel : Option String) → offers_any c (channel_mark channel) ≡ false
  unfolding offers
  channel_mark-offers none = refl
  channel_mark-offers (some channel) = elim (Bool-cases (is_empty channel)) [
    | inl e ↦ rw e refl
    | inr e ↦ rw e refl
  ]

  message-offers : (l : ChatLine) → offers c (message l) ≡ false
  unfolding message offers
  message-offers l = rw (channel_mark-offers l.channel) refl

  messages_or-offers :
      (lines : List ChatLine) (p : Page) → offers_any c (messages_or lines p) ≡ false
  unfolding messages_or offers empty_state
  messages_or-offers [] p = refl
  messages_or-offers (l ∷ lines) p = render_each-offers message message-offers (l ∷ lines)

  message_list-offers : (p : Page) → offers c (message_list p) ≡ false
  unfolding message_list offers
  message_list-offers p = messages_or-offers p.messages p

  gateway_status-offers : (h : Option Health) → offers c (gateway_status h) ≡ false
  unfolding offers
  gateway_status-offers none = refl
  gateway_status-offers (some h) = refl

  core_address-offers : (h : Option Health) → offers c (core_address h) ≡ false
  unfolding offers
  core_address-offers none = refl
  core_address-offers (some h) = refl

  or_dash-offers : {A : Type 0} (f : A → ℕ) (o : Option A) → offers c (or_dash f o) ≡ false
  unfolding offers
  or_dash-offers f none = refl
  or_dash-offers f (some x) = refl

  stored_or-offers :
      (f : PlatformStats → ℕ) (n : ℕ) (o : Option PlatformStats)
      → offers c (stored_or f n o) ≡ false
  unfolding offers
  stored_or-offers f n none = refl
  stored_or-offers f n (some x) = refl

  ruleset leaves = (gateway_status-offers, core_address-offers, or_dash-offers, stored_or-offers)

  status_panel-offers : (p : Page) → offers c (status_panel p) ≡ same_control c Control.refresh
  unfolding status_panel offers
  status_panel-offers p = simp (leaves, units)

  toolbar-offers :
      (p : Page)
      → offers c (toolbar p) ≡ (
          (same_control c Control.join_form && p.connected || types_into c Input.channel)
          || (same_control c Control.load_history_button
              || (same_control c Control.view_commands || same_control c Control.clear_view)))
  unfolding toolbar offers
  toolbar-offers p = simp units

  composer-offers :
      (p : Page)
      → offers c (composer p)
        ≡ (same_control c Control.chat_form && p.connected || types_into c Input.message)
  unfolding composer offers
  composer-offers p = simp units

  direct_panel-offers :
      (p : Page)
      → offers c (direct_panel p) ≡ (
          (same_control c Control.direct_form && p.connected)
          || (types_into c Input.recipient
              || (types_into c Input.direct_message || same_control c Control.load_direct_button)))
  unfolding direct_panel offers
  direct_panel-offers p = simp units

  metrics-offers : (p : Page) → offers c (metrics p) ≡ false
  unfolding metrics offers
  metrics-offers p = simp leaves

  monitor_panel-offers : (p : Page) → offers c (monitor_panel p) ≡ false
  unfolding monitor_panel meter offers
  monitor_panel-offers p = refl

  banner-offers :
      (p : Page)
      → offers_any c (banner p) ≡ (
          same_control c Control.dismiss
          && (not (is_empty p.error) || not (is_empty p.health_error)))
  unfolding banner offers
  banner-offers p = ground arith

  -- The controls of the workspace.
  abbrev pub workspace_offer : Page → Bool
  workspace_offer p =
      same_control c Control.refresh
      || (same_control c Control.refresh_channels && p.connected
          || same_control c Control.refresh_participants
            && (p.connected && not (is_empty p.active_channel)))
      || (same_control c Control.join_form && p.connected
          || types_into c Input.channel
          || (same_control c Control.load_history_button
              || (same_control c Control.view_commands || same_control c Control.clear_view)))
      || (same_control c Control.dismiss
          && (not (is_empty p.error) || not (is_empty p.health_error)))
      || (same_control c Control.chat_form && p.connected || types_into c Input.message)
      || (same_control c Control.direct_form && p.connected
          || (types_into c Input.recipient
              || (types_into c Input.direct_message || same_control c Control.load_direct_button)))

  pub workspace-offers : (p : Page) → offers c (workspace p) ≡ workspace_offer p
  unfolding workspace offers
  workspace-offers p =
      rw
        (
          status_panel-offers p,
          channels_panel-offers p,
          participants_panel-offers p,
          stored_panel-offers p,
          toolbar-offers p,
          offers_any-append (banner p) _,
          banner-offers p,
          message_list-offers p,
          composer-offers p,
          direct_panel-offers p,
          metrics-offers p,
          monitor_panel-offers p,
        )
        (simp (units, or_assoc))

  pub signed_out-offers :
      (p : Page)
      → offers c (signed_out p) ≡ (
          same_control c Control.dismiss
          && (not (is_empty p.error) || not (is_empty p.health_error)))
  unfolding signed_out offers
  signed_out-offers p = rw (banner-offers p) (simp units)
