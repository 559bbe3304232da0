-- ===== src/Connection/Backoff.antt =====
-- How the dashboard comes back after a lost connection: the delay that `ws.onclose` of
-- frontend/src/main.tsx computes, and what its timer does.
use channel_wire.Prelude.{ℕ, zero, suc, ◌+◌, ◌*◌, ◌^◌, ◌≤◌, true, false, some, ◌≡◌, arith}
use native.Mathlib.Nat.{pow-suc}
use channel_wire.Text.{is_empty}
use channel_wire.World.{World, connecting, reconnect}
use channel_wire.Connection.{
  reconnect_delay, reconnect_max_delay_ms, on_close, schedule_reconnect, connect,
}
use channel_wire.Log.{push_line}
use channel_wire.Loop.{Event, step, fire, is_closed}

one_le_pow : (n : ℕ) → 1 ≤ 2 ^ n
one_le_pow zero = omega arith
one_le_pow (suc n) = rw pow-suc (omega (arith, one_le_pow n))

-- The delay lies between one second and ten, never falls from one attempt to the next, and
-- doubles until it is ten seconds.
pub reconnect_delay_bounds :
    (n : ℕ)
    → (1000 ≤ reconnect_delay n)
      × (reconnect_delay n ≤ reconnect_max_delay_ms)
      × (reconnect_delay n ≤ reconnect_delay (suc n))
      × (2 * reconnect_delay n ≤ reconnect_max_delay_ms
          → reconnect_delay (suc n) ≡ 2 * reconnect_delay n)
unfolding reconnect_delay
reconnect_delay_bounds n = rw pow-suc (omega (arith, one_le_pow n))

-- If the socket of a signed-in user closes, a timer is set with the delay of the attempt, the
-- attempts are counted, and the firing of that timer makes a new socket, for the same token.
pub reconnects :
    (s : ℕ) (w : World)
    → w.refs.socket ≡ some s
    → is_closed (w.browser.sockets s).state ≡ false
    → w.refs.allow_reconnect ≡ true
    → is_empty w.refs.token ≡ false
    → let w1 = step (Event.closed_by_peer s) w in
      let w2 = step (Event.fired w.browser.timer_count) w1 in
      (w1.page.connected ≡ false)
      × (w1.refs.reconnect_attempt ≡ w.refs.reconnect_attempt + 1)
      × (w1.browser.timers w.browser.timer_count
          ≡ some (record {
            action = reconnect (w.browser.sockets s).captured;
            delay = reconnect_delay w.refs.reconnect_attempt;
          }))
      × (w2.refs.socket ≡ some w.browser.socket_count)
      × ((w2.browser.sockets w.browser.socket_count).state ≡ connecting)
      × ((w2.browser.sockets w.browser.socket_count).url_token ≡ w.refs.token)
unfolding step on_close schedule_reconnect push_line fire connect
reconnects s w ref up allow token = ground arith
