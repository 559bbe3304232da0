-- ===== src/Safety/Reached.antt =====
-- Whatever the browser, the network and the user do, in any order, from the first render of `App`
-- (frontend/src/main.tsx) on.
use channel_wire.Prelude.{
  ℕ, ◌≤◌, String, true, false, Option, none, some, List, length, ◌≡◌, ◌≢◌, arith,
}
use channel_wire.Json.{Codec}
use channel_wire.World.{World}
use channel_wire.Connection.{is_live, logout}
use channel_wire.Log.{message_limit}
use channel_wire.Readiness.{readiness_max_attempts}
use channel_wire.Loop.{Event, run, any_signs_in}
use channel_wire.Loop.Start.{start}
use channel_wire.Safety.Invariant.{task_attempt, timer_attempt}
use channel_wire.Safety.Steps.{Holds, run-Holds, start-Holds}

module _ (codec : Codec) (now : ℕ) (stamp : ℕ → ℕ) (stored : Option String)
    (events : List Event) where
  abbrev reached : World
  reached = run events (start codec now stamp stored)

  reached-Holds : Holds false reached
  reached-Holds = run-Holds false events _ (λ e. cc) (start-Holds codec now stamp stored)

  -- After any events, of all the sockets that were made at most one is connecting or open; it is the
  -- one of `socketRef`, and reconnecting is then allowed.
  pub one_live_socket :
      (s t : ℕ)
      → is_live (reached.browser.sockets s).state ≡ true
      → is_live (reached.browser.sockets t).state ≡ true
      → (s ≡ t) × (reached.refs.socket ≡ some s) × (reached.refs.allow_reconnect ≡ true)
  one_live_socket s t live_s live_t =
      let hs = reached-Holds s 0 in
      let ht = reached-Holds t 0 in
      ground (arith, hs.referred live_s, ht.referred live_t, hs.allowed live_s)

  -- After any events the token and the active channel that the page shows are those of the
  -- references, and the page says "connected" only while `socketRef` names a socket.
  pub page_follows_refs :
      (reached.page.token ≡ reached.refs.token)
      × (reached.page.active_channel ≡ reached.refs.active_channel)
      × (reached.page.connected ≡ true → reached.refs.socket ≢ none)
  page_follows_refs = let h = reached-Holds 0 0 in (h.token_kept, h.channel_kept, h.connected_ref)

  -- After any events the page holds at most 80 messages and 30 monitoring samples, and no readiness
  -- check that waits, for a response or for its retry, is beyond the sixth attempt.
  pub lists_and_attempts_bounded :
      (k : ℕ)
      → (length reached.page.messages ≤ message_limit)
        × (length reached.page.monitor_samples ≤ 30)
        × (task_attempt (reached.browser.tasks k) ≤ readiness_max_attempts)
        × (timer_attempt (reached.browser.timers k) ≤ readiness_max_attempts)
  lists_and_attempts_bounded k =
      let h = reached-Holds 0 k in (h.messages_few, h.samples_few, h.task_bounded, h.timer_bounded)

-- Signing out starts a time in which nobody has signed in.
signed_out-Holds : (w : World) → Holds false w → Holds true (logout w)
unfolding logout
signed_out-Holds w all s k = let h = all s k in ground arith

-- Once the user signs out, after any events, no further events but the completion of a sign-in
-- bring the session back: no socket is connecting or open, no token is held, nothing is stored.
pub logout_final :
    (codec : Codec) (now : ℕ) (stamp : ℕ → ℕ) (stored : Option String) (before after : List Event)
    → any_signs_in after ≡ false
    → (s : ℕ)
    → let w = run after (logout (run before (start codec now stamp stored))) in
      (is_live (w.browser.sockets s).state ≡ false)
      × (w.refs.token ≡ "")
      × (w.browser.storage ≡ none)
logout_final codec now stamp stored before after none_in s =
    let all = reached-Holds codec now stamp stored before in
    let h = run-Holds true after (logout _) (λ e. none_in) (signed_out-Holds _ all) s 0 in
    ground (arith, h.out_allow, h.out_token, h.out_storage, h.allowed)

-- After the user signs out, and until somebody signs in, the page holds no token.
pub logout_hides :
    (codec : Codec) (now : ℕ) (stamp : ℕ → ℕ) (stored : Option String) (before after : List Event)
    → any_signs_in after ≡ false
    → (run after (logout (run before (start codec now stamp stored)))).page.token ≡ ""
logout_hides codec now stamp stored before after none_in =
    let all = reached-Holds codec now stamp stored before in
    let h = run-Holds true after (logout _) (λ e. none_in) (signed_out-Holds _ all) 0 0 in
    ground (arith, h.out_token, h.token_kept)
