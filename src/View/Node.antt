-- ===== src/View/Node.antt =====
-- What `App` (frontend/src/main.tsx) renders, as a tree: the tags, the texts, and the controls with
-- what they do. Class names, icons and labels for assistive technology are left out.
use channel_wire.Prelude.{ℕ, String, Bool, true, false, not, ◌&&◌, ◌||◌}
use channel_wire.Json.{Ratio}
use channel_wire.Types.{Percent}
use channel_wire.World.{AuthPath}
use channel_wire.Loop.Controls.{Control, Input}

infixr 66 ◌◂◌
mutual
  pub data Node : Type 0 where
    text : String → Node
    number : ℕ → Node
    address : String → Ratio → Node  -- `${host}:${port}`
    element : String → Nodes → Node  -- tag, children
    button : String → Bool → Control → Node  -- label, `disabled`, `onClick`
    submit : String → Bool → Node  -- the button of a form: label, `disabled`
    form : Control → Nodes → Node  -- `onSubmit`, children
    field : Input → String → String → Node  -- `onChange`, `value`, `placeholder`
    bar : Percent → Node  -- a width
    trend : String → Node  -- the points of a sparkline

  pub data Nodes : Type 0 where
    end : Nodes
    ◌◂◌ : Node → Nodes → Nodes

infixr 66 ◌◂◂◌
abbrev pub ◌◂◂◌ : Nodes → Nodes → Nodes
end ◂◂ ms = ms
(n ◂ ns) ◂◂ ms = n ◂ (ns ◂◂ ms)

abbrev pub same_path : AuthPath → AuthPath → Bool
same_path AuthPath.register AuthPath.register = true
same_path AuthPath.login AuthPath.login = true
same_path AuthPath.dev_token AuthPath.dev_token = true
same_path _ _ = false

abbrev pub same_input : Input → Input → Bool
same_input Input.username Input.username = true
same_input Input.password Input.password = true
same_input Input.channel Input.channel = true
same_input Input.message Input.message = true
same_input Input.recipient Input.recipient = true
same_input Input.direct_message Input.direct_message = true
same_input _ _ = false

-- Whether two controls are the same but for the text that is typed.
abbrev pub same_control : Control → Control → Bool
same_control (Control.account_button p) (Control.account_button q) = same_path p q
same_control Control.sign_out Control.sign_out = true
same_control Control.try_again Control.try_again = true
same_control Control.refresh Control.refresh = true
same_control Control.refresh_channels Control.refresh_channels = true
same_control Control.refresh_participants Control.refresh_participants = true
same_control Control.join_form Control.join_form = true
same_control Control.chat_form Control.chat_form = true
same_control Control.direct_form Control.direct_form = true
same_control Control.load_history_button Control.load_history_button = true
same_control Control.load_direct_button Control.load_direct_button = true
same_control Control.view_commands Control.view_commands = true
same_control Control.clear_view Control.clear_view = true
same_control Control.dismiss Control.dismiss = true
same_control (Control.typed i s) (Control.typed j t) = same_input i j
same_control _ _ = false

abbrev pub types_into : Control → Input → Bool
types_into (Control.typed i s) j = same_input i j
types_into _ j = false

-- Whether a form has a submit button that is enabled: without it the form cannot be submitted.
unfoldable mutual
  pub submits : Node → Bool
  submits (submit label disabled) = not disabled
  submits (element tag ns) = submits_any ns
  submits _ = false

  pub submits_any : Nodes → Bool
  submits_any end = false
  submits_any (n ◂ ns) = submits n || submits_any ns

-- Whether the user can use a control of the tree.
unfoldable mutual
  unfolding submits

  pub offers : Control → Node → Bool
  offers c (button label disabled d) = same_control c d && not disabled
  offers c (form d ns) = same_control c d && submits_any ns || offers_any c ns
  offers c (field input value placeholder) = types_into c input
  offers c (element tag ns) = offers_any c ns
  offers c _ = false

  pub offers_any : Control → Nodes → Bool
  offers_any c end = false
  offers_any c (n ◂ ns) = offers c n || offers_any c ns
