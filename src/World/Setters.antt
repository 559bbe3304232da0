-- ===== src/World/Setters.antt =====
-- The setters of the `useState` values of `App` (frontend/src/main.tsx), the assignments to its
-- references, and the calls of the platform that change what it keeps. All are `Action`s, which a
-- `do` block runs in turn.
use channel_wire.Prelude.{
  ℕ, suc, String, Bool, true, false, Option, none, some, List, [], ◌∷◌, ◌++◌, update,
}
use channel_wire.Types.{
  ChatLine, Health, BackendReadiness, PlatformStats, CoreStats, PersistedChannel, MonitorSample,
  Command,
}
use channel_wire.World.{
  World, Socket, SocketState, connecting, open_state, closing, closed, TimerAction, Task,
}

abbrev pub Action : Type 0
Action = World → World

infixl 5 ◌>>◌ ◌>>=◌
abbrev pub ◌>>◌ : Action → Action → Action
(f >> g) w = g (f w)

-- A read of the state, for the actions after it.
abbrev pub ◌>>=◌ : {A : Type 0} → (World → A) → (A → Action) → Action
(r >>= k) w = k (r w) w

abbrev pub skip : Action
skip w = w

abbrev pub when : Bool → Action → Action
when true f w = f w
when false f w = w

abbrev pub branch : Bool → Action → Action → Action
branch true f g w = f w
branch false f g w = g w

abbrev pub set_username : String → Action
set_username x w = record w { page = record w.page { username = x } }

abbrev pub set_password : String → Action
set_password x w = record w { page = record w.page { password = x } }

abbrev pub set_token : String → Action
set_token x w = record w { page = record w.page { token = x } }

abbrev pub set_authenticated_username : String → Action
set_authenticated_username x w = record w { page = record w.page { authenticated_username = x } }

abbrev pub set_channel : String → Action
set_channel x w = record w { page = record w.page { channel = x } }

abbrev pub set_active_channel : String → Action
set_active_channel x w = record w { page = record w.page { active_channel = x } }

abbrev pub set_message : String → Action
set_message x w = record w { page = record w.page { message = x } }

abbrev pub set_dm_to : String → Action
set_dm_to x w = record w { page = record w.page { dm_to = x } }

abbrev pub set_dm_text : String → Action
set_dm_text x w = record w { page = record w.page { dm_text = x } }

abbrev pub set_connected : Bool → Action
set_connected x w = record w { page = record w.page { connected = x } }

abbrev pub set_messages : List ChatLine → Action
set_messages x w = record w { page = record w.page { messages = x } }

abbrev pub set_users : List String → Action
set_users x w = record w { page = record w.page { users = x } }

abbrev pub set_users_loaded : Bool → Action
set_users_loaded x w = record w { page = record w.page { users_loaded = x } }

abbrev pub set_channels : List String → Action
set_channels x w = record w { page = record w.page { channels = x } }

abbrev pub set_channels_loaded : Bool → Action
set_channels_loaded x w = record w { page = record w.page { channels_loaded = x } }

abbrev pub set_health : Option Health → Action
set_health x w = record w { page = record w.page { health = x } }

abbrev pub set_platform_stats : Option PlatformStats → Action
set_platform_stats x w = record w { page = record w.page { platform_stats = x } }

abbrev pub set_core_stats : Option CoreStats → Action
set_core_stats x w = record w { page = record w.page { core_stats = x } }

abbrev pub set_monitor_samples : List MonitorSample → Action
set_monitor_samples x w = record w { page = record w.page { monitor_samples = x } }

abbrev pub set_persisted_channels : List PersistedChannel → Action
set_persisted_channels x w = record w { page = record w.page { persisted_channels = x } }

abbrev pub set_error : String → Action
set_error x w = record w { page = record w.page { error = x } }

abbrev pub set_health_error : String → Action
set_health_error x w = record w { page = record w.page { health_error = x } }

abbrev pub set_backend_readiness : BackendReadiness → Action
set_backend_readiness x w = record w { page = record w.page { backend_readiness = x } }

abbrev pub put_socket : Option ℕ → Action
put_socket x w = record w { refs = record w.refs { socket = x } }

abbrev pub put_token : String → Action
put_token x w = record w { refs = record w.refs { token = x } }

abbrev pub put_active_channel : String → Action
put_active_channel x w = record w { refs = record w.refs { active_channel = x } }

abbrev pub put_reconnect_timer : Option ℕ → Action
put_reconnect_timer x w = record w { refs = record w.refs { reconnect_timer = x } }

abbrev pub put_reconnect_attempt : ℕ → Action
put_reconnect_attempt x w = record w { refs = record w.refs { reconnect_attempt = x } }

abbrev pub put_allow_reconnect : Bool → Action
put_allow_reconnect x w = record w { refs = record w.refs { allow_reconnect = x } }

abbrev pub put_readiness_run : ℕ → Action
put_readiness_run x w = record w { refs = record w.refs { readiness_run = x } }

abbrev pub put_readiness_abort : Option ℕ → Action
put_readiness_abort x w = record w { refs = record w.refs { readiness_abort = x } }

abbrev pub put_readiness_request_timer : Option ℕ → Action
put_readiness_request_timer x w = record w { refs = record w.refs { readiness_request_timer = x } }

abbrev pub put_readiness_retry_timer : Option ℕ → Action
put_readiness_retry_timer x w = record w { refs = record w.refs { readiness_retry_timer = x } }

abbrev pub put_restored_session_started : Bool → Action
put_restored_session_started x w = record w {
  refs = record w.refs { restored_session_started = x };
}

abbrev pub put_storage : Option String → Action
put_storage x w = record w { browser = record w.browser { storage = x } }

abbrev pub put_socket_at : ℕ → Socket → Action
put_socket_at s x w = record w {
  browser = record w.browser { sockets = update w.browser.sockets s x };
}

-- `new WebSocket(url)`
abbrev pub new_socket : String → String → Action
new_socket access captured w = record w {
  browser = record w.browser {
    sockets =
        update w.browser.sockets w.browser.socket_count
          (record { state = connecting; url_token = access; captured = captured; sent = [] });
    socket_count = suc w.browser.socket_count;
  };
}

abbrev sent_by : SocketState → List Command → Command → List Command
sent_by open_state sent c = sent ++ c ∷ []
sent_by _ sent c = sent

-- `ws.send`: a socket that closes or is closed discards what it is given.
abbrev pub transmit : ℕ → Command → Action
transmit s c w =
    put_socket_at s
      (record (w.browser.sockets s) {
        sent = sent_by (w.browser.sockets s).state (w.browser.sockets s).sent c;
      })
      w

abbrev after_close : SocketState → SocketState
after_close closed = closed
after_close _ = closing

-- `ws.close()`
abbrev pub close_socket : ℕ → Action
close_socket s w =
    put_socket_at s
      (record (w.browser.sockets s) { state = after_close (w.browser.sockets s).state }) w

-- `setTimeout`: the timer's number is `timer_count` before the call.
abbrev pub set_timeout : TimerAction → ℕ → Action
set_timeout action delay w = record w {
  browser = record w.browser {
    timers =
        update w.browser.timers w.browser.timer_count
          (some (record { action = action; delay = delay }));
    timer_count = suc w.browser.timer_count;
  };
}

-- `clearTimeout`
abbrev pub clear_timeout : ℕ → Action
clear_timeout t w = record w {
  browser = record w.browser { timers = update w.browser.timers t none };
}

-- An `await`: the function goes on when its promise is settled.
abbrev pub wait_for : Task → Action
wait_for task w = record w {
  browser = record w.browser {
    tasks = update w.browser.tasks w.browser.task_count (some task);
    task_count = suc w.browser.task_count;
  };
}

abbrev pub end_task : ℕ → Action
end_task k w = record w { browser = record w.browser { tasks = update w.browser.tasks k none } }

abbrev pub abort : ℕ → Action
abort c w = record w { browser = record w.browser { aborted = update w.browser.aborted c true } }

abbrev pub new_controller : Action
new_controller w = record w {
  browser = record w.browser {
    aborted = update w.browser.aborted w.browser.controller_count false;
    controller_count = suc w.browser.controller_count;
  };
}

abbrev pub draw : Action
draw w = record w { browser = record w.browser { draws = suc w.browser.draws } }
