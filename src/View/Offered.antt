-- ===== src/View/Offered.antt =====
-- The controls that the rendered page (frontend/src/main.tsx) lets the user use are those that the
-- model takes as offered.
use channel_wire.Prelude.{
  Bool-cases, inl, inr, Bool, true, false, not, ◌&&◌, ◌||◌, ◌≡◌, arith, if◌then◌else◌,
}
use mathlib.Core.Bool.{and-false, or-false, and-true}
use channel_wire.Text.{is_empty}
use channel_wire.Types.{BackendReadiness}
use channel_wire.World.{World, Page, AuthPath}
use channel_wire.Loop.Controls.{Control, Input, is_offered, is_ready, is_failed}
use channel_wire.View.Node.{offers, offers_any, same_control, types_into}
use channel_wire.View.Account.{account, signed_in_controls, account_form, topbar, readiness_state}
use channel_wire.View.Offers.{workspace_offer, workspace-offers, signed_out-offers}
use channel_wire.View.App.{render, body}

abbrev pub is_dev : Control → Bool
is_dev c = same_control c (Control.account_button AuthPath.dev_token)

module _ (c : Control) where
  -- The controls of the account form.
  abbrev account_offer : Bool → Bool
  account_offer dev =
      types_into c Input.username
      || (types_into c Input.password
          || (same_control c (Control.account_button AuthPath.register)
              || (same_control c (Control.account_button AuthPath.login) || (is_dev c && dev))))

  account_form-offers : (dev : Bool) (p : Page) → offers c (account_form dev p) ≡ account_offer dev
  unfolding account_form offers
  account_form-offers true p = simp (or-false, and-true)
  account_form-offers false p = simp (or-false, and-true, and-false)

  signed_in_controls-offers :
      (p : Page) → offers c (signed_in_controls p) ≡ same_control c Control.sign_out
  unfolding signed_in_controls offers
  signed_in_controls-offers p = simp (or-false, and-true)

  account-offers :
      (dev : Bool) (p : Page)
      → offers_any c (account dev p) ≡ (
          if is_ready p.backend_readiness
          then (if is_empty p.token then account_offer dev else same_control c Control.sign_out)
          else false)
  unfolding account offers
  account-offers dev p = ground (arith, account_form-offers dev p, signed_in_controls-offers p)

  readiness_state-offers :
      (r : BackendReadiness)
      → is_ready r ≡ false
      → offers c (readiness_state r) ≡ (same_control c Control.try_again && is_failed r)
  unfolding readiness_state offers
  readiness_state-offers r h = ground arith

  body-offers :
      (p : Page)
      → offers c (body p) ≡ (
          if is_ready p.backend_readiness
          then (if is_empty p.token
              then same_control c Control.dismiss
                && (not (is_empty p.error) || not (is_empty p.health_error))
              else workspace_offer c p)
          else same_control c Control.try_again && is_failed p.backend_readiness)
  unfolding body
  body-offers p = elim (Bool-cases (is_ready p.backend_readiness)) [
    | inl up ↦ rw up (elim (Bool-cases (is_empty p.token)) [
      | inl nobody ↦ rw nobody (signed_out-offers c p)
      | inr somebody ↦ rw somebody (workspace-offers c p)
    ])
    | inr waiting ↦ rw waiting (readiness_state-offers p.backend_readiness waiting)
  ]

  render-offers :
      (dev : Bool) (p : Page)
      → offers c (render dev p) ≡ (offers_any c (account dev p) || offers c (body p))
  unfolding render topbar offers
  render-offers dev p = simp (or-false)

-- What the panels offer, for one control after the other.
panels-offered :
    (dev : Bool) (c : Control) (w : World)
    → ((if is_ready w.page.backend_readiness
          then (if is_empty w.page.token
              then account_offer c dev
              else same_control c Control.sign_out)
          else false)
        || (if is_ready w.page.backend_readiness
            then (if is_empty w.page.token
                then same_control c Control.dismiss
                  && (not (is_empty w.page.error) || not (is_empty w.page.health_error))
                else workspace_offer c w.page)
            else same_control c Control.try_again && is_failed w.page.backend_readiness))
      ≡ (is_offered c w && (dev || not (is_dev c)))
unfolding is_offered
panels-offered dev (Control.account_button AuthPath.register) w = ground arith
panels-offered dev (Control.typed Input.username text) w = ground arith
panels-offered dev _ w = ground arith

-- The page offers a control, as an enabled button, a form with an enabled submit button or an input,
-- exactly where the model lets it be used; but for the button of the developer sign-in, which it
-- offers only where that is enabled.
pub offers-render :
    (dev : Bool) (c : Control) (w : World)
    → offers c (render dev w.page) ≡ (is_offered c w && (dev || not (is_dev c)))
offers-render dev c w =
    rw (render-offers c dev w.page, account-offers c dev w.page, body-offers c w.page)
      (panels-offered dev c w)
