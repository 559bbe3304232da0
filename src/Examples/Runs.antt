-- ===== src/Examples/Runs.antt =====
-- Runs of the dashboard (frontend/src/main.tsx) from its first render, with nothing stored: the
-- states that the first events lead to, written out as changes to the one before.
use channel_wire.Prelude.{
  ℕ_discrete, ℕ, ◌≤◌, true, false, none, some, List, [], ◌∷◌, length, ◌≡◌, ◌≢◌, refl, update,
}
use channel_wire.Types.{ready}
use channel_wire.Json.{Json, num, str, obj, member, end}
use channel_wire.Session.{read_stored_session}
use channel_wire.World.{
  World, ready_head, ready_body, ready_timeout, auth_head, auth_body, dev_token, stats_head,
  sign_in, connecting,
}
use channel_wire.Connection.{is_live, logout, start_session, connect}
use channel_wire.Stats.{refresh_stats, stats_responded, stats_returned}
use channel_wire.Account.{auth_line, authenticate, auth_responded, auth_parsed}
use channel_wire.Readiness.{start_readiness_check, check_responded, check_parsed, valid_health}
use channel_wire.Loop.{Event, run, step}
use channel_wire.Loop.Controls.{account_button, is_offered, press}
use channel_wire.Loop.Settle.{responded, json, access_token, resume}
use channel_wire.Loop.Start.{start, mount}
use channel_wire.Safety.Reached
use channel_wire.Log.{message_limit}
use channel_wire.Readiness.{readiness_max_attempts}
use channel_wire.Safety.Invariant.{task_attempt, timer_attempt}
use channel_wire.Examples.Platform.{marked, token}

abbrev pub healthy : Json
healthy = obj (
    member "status" (str "ok") (
      member "core_host" (str "core") (
        member "core_port" (num (record { negative = false; parts = 7000; per_less_one = 0 }))
          end)))

abbrev pub stamp : ℕ → ℕ
stamp n = n

abbrev pub blank : World
blank = mount marked 1000 stamp (none, none)

abbrev checks : World
checks = record blank {
  refs = record blank.refs {
    readiness_run = 1;
    readiness_abort = some 0;
    readiness_request_timer = some 0;
  };
  browser = record blank.browser {
    controller_count = 1;
    aborted = update blank.browser.aborted 0 false;
    tasks = update blank.browser.tasks 0 (some (ready_head 1 1 0));
    task_count = 1;
    timers =
        update blank.browser.timers 0 (some (record { action = ready_timeout 0 0; delay = 3000 }));
    timer_count = 1;
  };
}

starts : start marked 1000 stamp none ≡ checks
unfolding start start_readiness_check read_stored_session
starts = refl

abbrev pub answered : World
answered = record checks {
  browser = record checks.browser {
    tasks = update (update checks.browser.tasks 0 none) 1 (some (ready_body 1 1 0));
    task_count = 2;
  };
}

answers : step (Event.settled 0 (responded 200)) checks ≡ answered
unfolding step resume check_responded ℕ_discrete
answers = refl

abbrev is_up : World
is_up = record answered {
  page = record answered.page {
    backend_readiness = ready;
    health = some (record {
      status = "ok";
      core_host = "core";
      core_port = record { negative = false; parts = 7000; per_less_one = 0 };
    });
  };
  refs = record answered.refs { readiness_abort = none; readiness_request_timer = none };
  browser = record answered.browser {
    tasks = update answered.browser.tasks 1 none;
    timers = update answered.browser.timers 0 none;
  };
}

comes_up : step (Event.settled 1 (json healthy)) answered ≡ is_up
unfolding step resume check_parsed valid_health ℕ_discrete
comes_up = refl

abbrev asks : World
asks = record is_up {
  browser = record is_up.browser {
    tasks = update is_up.browser.tasks 2 (some (auth_head dev_token "alice" ""));
    task_count = 3;
  };
}

asked : step (Event.used (account_button dev_token)) is_up ≡ asks
unfolding step is_offered press authenticate
asked = refl

abbrev accepted : World
accepted = record asks {
  browser = record asks.browser {
    tasks = update (update asks.browser.tasks 2 none) 3 (some (auth_body dev_token "alice" ""));
    task_count = 4;
  };
}

accepts : step (Event.settled 2 (responded 200)) asks ≡ accepted
unfolding step resume auth_responded ℕ_discrete
accepts = refl

abbrev pub alice : World
alice = record accepted {
  page = record accepted.page { token = token; authenticated_username = "alice" };
  refs = record accepted.refs { token = token; allow_reconnect = true };
  browser = record accepted.browser {
    storage = some "S1h1.1Q1Q0alice";
    tasks =
        update (update accepted.browser.tasks 3 none) 4
          (some (stats_head token (sign_in token "" none)));
    task_count = 5;
  };
}

signs_in : step (Event.settled 3 (access_token token)) accepted ≡ alice
unfolding step resume auth_parsed start_session refresh_stats ℕ_discrete auth_line
signs_in = refl

abbrev pub connects : World
connects = record alice {
  refs = record alice.refs { socket = some 0 };
  browser = record alice.browser {
    tasks = update alice.browser.tasks 4 none;
    sockets =
        update alice.browser.sockets 0
          (record { state = connecting; url_token = token; captured = ""; sent = [] });
    socket_count = 1;
  };
}

connected_to : step (Event.settled 4 (responded 500)) alice ≡ connects
unfolding step resume stats_responded stats_returned connect ℕ_discrete
connected_to = refl

abbrev pub story : List Event
story =
    Event.settled 0 (responded 200)
    ∷ Event.settled 1 (json healthy)
    ∷ Event.used (account_button dev_token)
    ∷ Event.settled 2 (responded 200)
    ∷ Event.settled 3 (access_token token)
    ∷ Event.settled 4 (responded 500)
    ∷ []

-- The dashboard after them.
pub story-connects : run story (start marked 1000 stamp none) ≡ connects
unfolding run
story-connects = rw (starts, answers, comes_up, asked, accepts, signs_in, connected_to) refl

live : is_live ((run story (start marked 1000 stamp none)).browser.sockets 0).state ≡ true
unfolding ℕ_discrete
live = rw story-connects refl

abbrev first_socket : ℕ
first_socket = 0

one_live_socket_example :
    let w = run story (start marked 1000 stamp none) in
    (first_socket ≡ first_socket)
    × (w.refs.socket ≡ some first_socket)
    × (w.refs.allow_reconnect ≡ true)
one_live_socket_example =
    Reached.one_live_socket marked 1000 stamp none story first_socket first_socket live live

page_follows_refs_example :
    let w = run story (start marked 1000 stamp none) in
    (w.page.token ≡ w.refs.token)
    × (w.page.active_channel ≡ w.refs.active_channel)
    × (w.page.connected ≡ true → w.refs.socket ≢ none)
page_follows_refs_example = Reached.page_follows_refs marked 1000 stamp none story

lists_and_attempts_bounded_example :
    let w = run story (start marked 1000 stamp none) in
    (length w.page.messages ≤ message_limit)
    × (length w.page.monitor_samples ≤ 30)
    × (task_attempt (w.browser.tasks 0) ≤ readiness_max_attempts)
    × (timer_attempt (w.browser.timers 0) ≤ readiness_max_attempts)
lists_and_attempts_bounded_example =
    Reached.lists_and_attempts_bounded marked 1000 stamp none story 0

-- The socket's close, its timer, and a figure that arrives late.
abbrev aftermath : List Event
aftermath =
    Event.closed_by_peer 0 ∷ Event.fired 1 ∷ Event.settled 5 (responded 200) ∷ Event.restored ∷ []

logout_final_example :
    let w = run aftermath (logout (run story (start marked 1000 stamp none))) in
    (is_live (w.browser.sockets 0).state ≡ false) × (w.refs.token ≡ "") × (w.browser.storage ≡ none)
logout_final_example = Reached.logout_final marked 1000 stamp none story aftermath refl 0
