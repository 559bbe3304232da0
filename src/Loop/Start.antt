-- ===== src/Loop/Start.antt =====
-- The first render of `App` (frontend/src/main.tsx): the initial values of its state and references,
-- and the first effect, which starts the readiness check.
use channel_wire.Prelude.{ℕ, String, Bool, true, false, Option, none, some, []}
use channel_wire.Types.{checking}
use channel_wire.Json.{Codec}
use channel_wire.Session.{StoredSession, read_stored_session}
use channel_wire.World.{World, Page, Refs, Browser, closed}
use channel_wire.Readiness.{start_readiness_check}

abbrev token_or : String → Option StoredSession → String
token_or d none = d
token_or d (some session) = session.token

abbrev username_or : String → Option StoredSession → String
username_or d none = d
username_or d (some session) = session.username

abbrev is_given : Option StoredSession → Bool
is_given none = false
is_given (some session) = true

abbrev pub first_page : Option StoredSession → Page
first_page initial_session = record {
  initial_session = initial_session;
  username = username_or "alice" initial_session;
  password = "";
  token = token_or "" initial_session;
  authenticated_username = username_or "" initial_session;
  channel = "general";
  active_channel = "";
  message = "";
  dm_to = "";
  dm_text = "";
  connected = false;
  messages = [];
  users = [];
  users_loaded = false;
  channels = [];
  channels_loaded = false;
  health = none;
  platform_stats = none;
  core_stats = none;
  monitor_samples = [];
  persisted_channels = [];
  error = "";
  health_error = "";
  backend_readiness = checking;
}

abbrev pub first_refs : Option StoredSession → Refs
first_refs initial_session = record {
  socket = none;
  token = token_or "" initial_session;
  active_channel = "";
  reconnect_timer = none;
  reconnect_attempt = 0;
  allow_reconnect = is_given initial_session;
  readiness_run = 0;
  readiness_abort = none;
  readiness_request_timer = none;
  readiness_retry_timer = none;
  restored_session_started = false;
}

module _ (codec : Codec) (now : ℕ) (stamp : ℕ → ℕ) where
  abbrev pub first_browser : Option String → Browser
  first_browser storage = record {
    sockets = λ s. record { state = closed; url_token = ""; captured = ""; sent = [] };
    socket_count = 0;
    timers = λ t. none;
    timer_count = 0;
    tasks = λ k. none;
    task_count = 0;
    aborted = λ c. false;
    controller_count = 0;
    storage = storage;
    stringify_session = codec.stringify_session;
    stamp = stamp;
    draws = 0;
  }

  abbrev pub mount : Option StoredSession × Option String → World
  mount (session, storage) = record {
    page = first_page session;
    refs = first_refs session;
    browser = first_browser storage;
  }

  -- The page after its first effect, opened over what is stored.
  unfoldable pub start : Option String → World
  start stored = start_readiness_check (mount (read_stored_session codec now stored))
