-- ===== src/World.antt =====
-- The state of `App` in frontend/src/main.tsx: `Page` for the `useState` values, `Refs` for the
-- `useRef` values, and `Browser` for what the platform keeps for the page, which is the sockets, the
-- timers, the requests that are waited for, and the item in the local storage.
pub mod Setters
use channel_wire.Prelude.{ℕ, String, Bool, Option, List}
use channel_wire.Session.{StoredSession}
use channel_wire.Types.{
  ChatLine, Health, BackendReadiness, PlatformStats, CoreStats, PersistedChannel, MonitorSample,
  Command,
}

pub record Page : Type 0 where
  pub initial_session : Option StoredSession
  pub username : String
  pub password : String
  pub token : String
  pub authenticated_username : String
  pub channel : String
  pub active_channel : String
  pub message : String
  pub dm_to : String
  pub dm_text : String
  pub connected : Bool
  pub messages : List ChatLine
  pub users : List String
  pub users_loaded : Bool
  pub channels : List String
  pub channels_loaded : Bool
  pub health : Option Health
  pub platform_stats : Option PlatformStats
  pub core_stats : Option CoreStats
  pub monitor_samples : List MonitorSample
  pub persisted_channels : List PersistedChannel
  pub error : String
  pub health_error : String
  pub backend_readiness : BackendReadiness

-- Sockets, timers and abort controllers are named by numbers.
pub record Refs : Type 0 where
  pub socket : Option ℕ
  pub token : String
  pub active_channel : String
  pub reconnect_timer : Option ℕ
  pub reconnect_attempt : ℕ
  pub allow_reconnect : Bool
  pub readiness_run : ℕ
  pub readiness_abort : Option ℕ
  pub readiness_request_timer : Option ℕ
  pub readiness_retry_timer : Option ℕ
  pub restored_session_started : Bool

pub data SocketState : Type 0 where
  connecting open_state closing closed : SocketState

-- `captured` is the `token` of the render whose `connect` made the socket: the socket's handlers
-- are closures over it.
pub record Socket : Type 0 where
  pub state : SocketState
  pub url_token : String
  pub captured : String
  pub sent : List Command

-- What a timer does when it fires.
pub data TimerAction : Type 0 where
  reconnect : String → TimerAction  -- the `token` that its `connect` captured
  request_list : TimerAction
  ready_timeout : ℕ → ℕ → TimerAction  -- the request that it races, its controller
  ready_retry : ℕ → ℕ → TimerAction  -- run, attempt

pub record Timer : Type 0 where
  pub action : TimerAction
  pub delay : ℕ

-- What is done with the outcome of `refreshStats`, by caller.
pub data StatsCaller : Type 0 where
  gateway_event refresh_button slash_stats : StatsCaller
  sign_in : String → String → Option String → StatsCaller  -- token, captured token, line
  restore : String → String → StatsCaller  -- token, captured token

pub data AuthPath : Type 0 where
  register login dev_token : AuthPath

-- An asynchronous function that waits: `head` for the response, `body` for its parsed body.
pub data Task : Type 0 where
  auth_head auth_body : AuthPath → String → String → Task  -- username, captured token
  error_body : Task
  stats_head stats_body : String → StatsCaller → Task
  core_head core_body : String → StatsCaller → PlatformStats → Task
  channels_head channels_body : String → StatsCaller → Task
  history_head history_body : String → Task  -- channel
  dm_history_head dm_history_body : Task
  health_head health_body : Task
  ready_head ready_body : ℕ → ℕ → ℕ → Task  -- run, attempt, controller

-- `stringify_session` and `stamp` are the platform's: `JSON.stringify` of a session, and the numbers
-- that the clock and the random source give, of which `draws` are used up.
pub record Browser : Type 0 where
  pub sockets : ℕ → Socket
  pub socket_count : ℕ
  pub timers : ℕ → Option Timer
  pub timer_count : ℕ
  pub tasks : ℕ → Option Task
  pub task_count : ℕ
  pub aborted : ℕ → Bool
  pub controller_count : ℕ
  pub storage : Option String
  pub stringify_session : String → String → String
  pub stamp : ℕ → ℕ
  pub draws : ℕ

pub record World : Type 0 where
  pub page : Page
  pub refs : Refs
  pub browser : Browser
