-- ===== src/Log.antt =====
-- The visible messages and the monitoring samples: `pushLine`, `replaceMessages`, `clearMessages`,
-- `showHelp`, `recordMonitorSample` and the message counts of frontend/src/main.tsx.
pub mod Bounds
pub mod Journal
use channel_wire.Prelude.{
  ℕ, ◌*◌, String, Option, none, some, List, [], ◌∷◌, ◌++◌, slice_last, leb, ltb, length, concat,
  if◌then◌else◌,
}
use channel_wire.Types.{
  ChatLine, Kind, chat, dm, system, status, error, Percent, MonitorSample, PlatformStats, CoreStats,
}
use channel_wire.World.Setters.{
  Action, ◌>>◌, ◌>>=◌, set_messages, set_error, set_monitor_samples, draw,
}

abbrev pub message_limit : ℕ
message_limit = 80

abbrev pub help_text : String
help_text = concat "Commands:\n/help — view commands\n/clear — clear visible messages\n" (
    concat "/join CHANNEL — join a channel\n/switch CHANNEL — switch channels\n" (
      concat "/leave CHANNEL — leave a channel\n/dm USER MESSAGE — send a direct message\n" (
        concat "/who — view channel participants\n/list — view channels\n"
          "/stats — update monitoring\n/history — load channel history\n/quit — sign out")))

-- `Omit<ChatLine, "id">`
pub record Line : Type 0 where
  pub kind : Kind
  pub channel : Option String
  pub sender : Option String
  pub text : String

abbrev pub plain : Kind → String → Line
plain k s = record { kind = k; channel = none; sender = none; text = s }

abbrev pub with_id : ℕ → Line → ChatLine
with_id n line = record {
  id = n;
  kind = line.kind;
  channel = line.channel;
  sender = line.sender;
  text = line.text;
}

unfoldable pub push_line : Line → Action
push_line line = do
  n ← λ w. w.browser.stamp w.browser.draws
  current ← λ w. w.page.messages
  draw
  set_messages (slice_last 79 current ++ with_id n line ∷ [])

unfoldable pub replace_messages : List ChatLine → Action
replace_messages next_messages = set_messages (slice_last message_limit next_messages)

unfoldable pub clear_messages : Action
clear_messages = do set_messages []; set_error ""

unfoldable pub show_help : Action
unfolding push_line
show_help = push_line (plain system help_text)

-- `Math.min(100, (part / whole) * 100)`, and 0 where `whole` is 0.
unfoldable pub percent : ℕ → ℕ → Percent
percent part whole =
    if ltb 0 whole
    then (if leb whole part
        then record { parts = 100; per = 1 }
        else record { parts = part * 100; per = whole })
    else record { parts = 0; per = 1 }

-- The sample of two responses, with an identifier.
unfoldable pub sample : ℕ → PlatformStats → CoreStats → MonitorSample
unfolding percent
sample n platform core = record {
  id = n;
  messages = platform.messages;
  queue_pressure = percent core.queue_disconnects core.total_connections;
  malformed_frames = core.malformed_frames;
}

unfoldable pub record_monitor_sample : PlatformStats → CoreStats → Action
unfolding sample
record_monitor_sample platform core = do
  n ← λ w. w.browser.stamp w.browser.draws
  current ← λ w. w.page.monitor_samples
  draw
  set_monitor_samples (slice_last 29 current ++ sample n platform core ∷ [])
