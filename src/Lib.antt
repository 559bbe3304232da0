-- ===== src/Lib.antt =====
-- The dashboard of ChannelWire (frontend/src/main.tsx), a React page that signs a user in, keeps a
-- WebSocket to the gateway of the chat core, and shows messages, channels, participants and figures;
-- the chat core (core/src), the server of the messages, with its wire protocol; and the gateway service
-- between them (gateway/app), which turns the messages of a WebSocket into frames of the core and back,
-- and saves the messages in a database.
--
-- The page is a state machine. `World` is its state: `Page` has the `useState` values of `App`,
-- `Refs` the `useRef` values, `Browser` what the platform keeps for the page: sockets with what was
-- sent on each, timers, asynchronous functions that wait for a promise, abort controllers, and the
-- item in the local storage. A function of the source that changes state is an `Action`, a function
-- from states to states, and an asynchronous function is one action from each `await` to the next.
-- `Loop` has the events (a socket opens, closes or gets a frame, a timer fires, a promise is
-- settled, the user uses a control, an effect runs), and `step` does what the page does at one.
-- The orders of events are lists; the theorems of `Safety` hold for all of them.
--
-- The core is modelled apart from the page: `Core.Server.Server` is its state, a client is the index
-- of its slot, and `Core.Server.Runs.step` is what it does when a client connects, has bytes to read,
-- takes bytes of its queue or is lost. Its arrays are functions of the index, memory is taken to be
-- available, and a C string is its bytes before the zero.
--
-- The gateway service meets both: `Service.Requests` takes the commands of the page to the frames of
-- the core's wire protocol, `Service.Replies` takes the frames of the core to the events of the page,
-- and `Service.Socket` has the two loops of one connection as steps on what the connection holds.
-- `Service.Journey` and `Service.Letters` compose page, service and core for one message, and
-- `Service.Mismatches` shows where they do not fit together. `Service.Socket.Turns` is an account of a
-- connection that knows nothing of frames, as a queue of messages and a list of rows.
--
-- Which file models which part of frontend/src/main.tsx, unless another file is named:
-- - Session: `readStoredSession`, `clearStoredSession`; Json: the values that it inspects.
-- - Text: the string methods and regular expressions that the page uses.
-- - Types: the types at the head of the file; World, World/Setters: the state of `App`.
-- - Log: `pushLine`, `replaceMessages`, `clearMessages`, `showHelp`, `recordMonitorSample`.
-- - Errors: `responseError`, `friendlyGatewayError`, `friendlyGatewayMessage`.
-- - Connection: `startSession`, `connect` and its handlers, `logout`, `send`, `requestChannels`,
--   `requestUsers`.
-- - Stats: `refreshStats` and its callers; History: `loadHistory`, `loadDirectHistory`,
--   `refreshHealth`.
-- - Gateway: `handleGatewayEvent`; Commands: `joinChannel`, `sendChat`, `handleSlashCommand`,
--   `sendDirect`; Account: `createToken`, `authenticate`.
-- - Readiness: `clearReadinessTimers`, `cancelReadinessCheck`, `startReadinessCheck`.
-- - Loop: the events; Loop/Settle: what follows each `await`; Loop/Controls: which controls the
--   page offers and what they do; Loop/Start: the first render and the effects.
-- - Monitor: the memos `stats`, `monitoring`, `monitorSeries`, and the points of `Sparkline`.
-- - Decimal: `toFixed`; View: the tree that `App` returns, panel by panel, without class names, icons
--   and labels for assistive technology; Urls: the addresses that are asked, with
--   `encodeURIComponent`.
-- - Core/Protocol: the frames, strings and names of the core's wire protocol
--   (core/src/protocol.c), with what is common to them and to the page.
-- - Core/Server: the clients, channels and queues of core/src/server.c; Core/Server/Messages,
--   Core/Server/Handlers, Core/Server/Events: what it sends, and its handlers;
--   Core/Server/Input: how it reads from a client and cuts what it has received into frames;
--   Core/Server/Runs: the events that the poll loop meets, and runs of them;
--   Core/Server/Kept, Answers, Handled, Reached: what each change of the state keeps, a run keeps.
-- - Service/Text: the methods of `str` and `bytes` that the service uses; Service/Wire:
--   `string_payload`, `encode_frame`, `decode_strings` of tools/channelwire_client.py.
-- - Service/Requests: `core_payload_for_command` of gateway/app/main.py, with the messages that the
--   page sends; Service/Replies: `gateway_event`; Service/Socket: `websocket_endpoint`;
--   Service/Endpoints: `open_registered_core`, `/core-stats` and `/channels`.
-- - Service/Database: the tables and functions of gateway/app/db.py, with the sessions over them;
--   Service/Database/Table, Histories, Soundness, Commits, Recalled: keys, the order of rows, what
--   is kept of them, what is saved, and what is read again.
-- - Safety: the invariant of the page, each operation's part in it, and what follows from it.
-- - Prelude: tests on numbers, lists and maps; Examples: the theorems at concrete inputs.
--
-- Parameters: `Codec` stands for `JSON.parse`, `atob` and `JSON.stringify` of a session, with the
-- law that parsing a printed session gives its fields; `Engine` stands for the commit and the
-- statements of SQLAlchemy, with the laws that a commit adds rows with new keys and that a statement
-- gives the first rows that meet its condition, in its order and up to its limit; `now` and `stamp` are the clock
-- and the random source. Examples/Platform has a codec and Examples/Tables an engine that meet the
-- laws.
--
-- Conventions: a text is a sequence of code points; a percentage and an expiry are exact fractions,
-- where the source has doubles; a counter of the page has no upper bound. A setter takes effect at
-- once, so that React is taken to render before the next event; a function that a socket or a
-- request keeps has the `token` of its own render as an argument (`captured`). A message sent and
-- a frame received are values, not their JSON texts. A response body has the type that the source
-- gives it, or its promise is rejected. The button for developer sign-in is taken as there, but in
-- the view, where it depends on the build. The printing of the core's port, a number that the
-- gateway sends, is left to the platform. An address is the text that `fetch` is given; that a platform
-- resolves the segments "." and ".." of it is not modelled.
-- The page never loops, and a readiness check has six attempts. Five functions run on fuel: the
-- printing of a number, on the number and one more, which is enough since each round divides by ten;
-- the core's loop over what it has received, where each round takes five bytes or more; the service's
-- reading of strings and of code points, on the number of bytes, of which each round takes at least
-- one; and the core's reading from a client, a loop over the results of `recv` that goes on as long as
-- they are bytes or EINTR: the number of calls up to another result is enough.
-- A session of the database sees the committed rows only, since the sessions do not flush before a
-- query; whether a row with a key is there is read off the list of rows.
--
-- Not modelled: scrolling, which changes no state; the stubs of the tests
-- (frontend/src/test-setup.ts) and the settings of the build (frontend/vite.config.ts); of the
-- gateway service its tokens, password hashes and routes, which are calls of libraries, the times
-- of rows and the schema. Of the core: the calls of sockets, the log, the settings and the order in
-- which `poll` names the clients; a run has its events in any order. In `Loop`, the frames and
-- replies of the service are events with any content.
pub mod Prelude
pub mod Text
pub mod Json
pub mod Session
pub mod Types
pub mod Decimal
pub mod World
pub mod Log
pub mod Errors
pub mod Connection
pub mod Stats
pub mod Urls
pub mod Gateway
pub mod History
pub mod Commands
pub mod Account
pub mod Readiness
pub mod Loop
pub mod Monitor
pub mod View
pub mod Core
pub mod Service
pub mod Safety
mod Examples
