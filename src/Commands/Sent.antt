-- ===== src/Commands/Sent.antt =====
-- What the message forms of frontend/src/main.tsx put on the wire.
use channel_wire.Prelude.{
  ℕ, true, false, some, [], ◌∷◌, ◌++◌, ◌≡◌, ◌⊎◌, inl, inr, refl, arith, Bool-cases, if◌then◌else◌,
}
use channel_wire.Text.{is_empty, trim, is_recipient}
use channel_wire.Types.{Command, dm}
use mathlib.Core.List.{append-nil}
use channel_wire.World.Setters
use channel_wire.World.{World}
use channel_wire.Connection.{send, send_command, ref_is_open}
use channel_wire.Commands.{send_direct}

-- A command goes out exactly where the socket of the reference is open, as the last one on that
-- socket; where it is not, that socket gets nothing, and the user is told.
pub send-sent :
    (command : Command) (r : ℕ) (w : World)
    → w.refs.socket ≡ some r
    → ((send command w).0 ≡ ref_is_open w)
      × (((send command w).1.browser.sockets r).sent
          ≡ (w.browser.sockets r).sent ++ (if ref_is_open w then command ∷ [] else []))
      × (ref_is_open w ≡ false
          → (send command w).1.page.error ≡ "Connection unavailable. Reconnecting…")
unfolding send
send-sent command r w e = ground (arith, append-nil (w.browser.sockets r).sent)

-- What a direct message may be: a valid username, and a text that is not empty.
abbrev pub IsDirect : Command → Type 0
IsDirect (dm to text) = (is_recipient to ≡ true) × (is_empty text ≡ false)
IsDirect _ = ⊥

sent_once :
    (s : ℕ) (command : Command) (w : World)
    → let sent = (w.browser.sockets s).sent in
      let sent' = ((send_command command (Setters.set_error "" w)).browser.sockets s).sent in
      (sent' ≡ sent) ⊎ (sent' ≡ sent ++ command ∷ [])
unfolding send
sent_once s command w = ground arith

-- The form of a direct message sends nothing, on any socket, or a message to a valid username with
-- a text that is not empty.
pub send_direct-IsDirect :
    (s : ℕ) (w : World)
    → let sent = (w.browser.sockets s).sent in
      let sent' = ((send_direct w).browser.sockets s).sent in
      (sent' ≡ sent)
      ⊎ ((sent' ≡ sent ++ dm (trim w.page.dm_to) (trim w.page.dm_text) ∷ [])
          × IsDirect (dm (trim w.page.dm_to) (trim w.page.dm_text)))
unfolding send_direct send
send_direct-IsDirect s w = elim (Bool-cases (is_empty (trim w.page.dm_to))) [
  | inl nobody ↦ rw nobody (inl refl)
  | inr named ↦ elim (Bool-cases (is_empty (trim w.page.dm_text))) [
    | inl nothing ↦ rw (named, nothing) (inl refl)
    | inr given ↦ elim (Bool-cases (is_recipient (trim w.page.dm_to))) [
      | inl valid ↦
          rw (named, given, valid)
            (elim (sent_once s _ w) [ inl same ↦ inl same | inr added ↦ inr (added, (refl, refl)) ])
      | inr invalid ↦ rw (named, given, invalid) (inl refl)
    ]
  ]
]
