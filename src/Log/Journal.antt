-- ===== src/Log/Journal.antt =====
-- The message log and the monitoring samples of frontend/src/main.tsx against an abstract journal
-- that forgets nothing: the page shows the last 80 and 30 entries of it.
use channel_wire.Prelude.{
  ap, slice_last-nil, ℕ, suc, List, [], ◌∷◌, ◌++◌, slice_last, slice_last-append, ◌≡◌, arith,
}
use channel_wire.Types.{Kind, ChatLine, MonitorSample, PlatformStats, CoreStats}
use channel_wire.World.{World}
use channel_wire.World.Setters.{Action}
use channel_wire.Log.{
  Kind, Line, with_id, sample, push_line, replace_messages, clear_messages, show_help,
  record_monitor_sample, plain, help_text, message_limit,
}

-- What is done to the log and the samples.
pub data Entry : Type 0 where
  pushed : Line → Entry
  replaced : List ChatLine → Entry
  cleared helped : Entry
  sampled : PlatformStats → CoreStats → Entry

-- `drawn` counts the identifiers that were used.
pub record Journal : Type 0 where
  pub lines : List ChatLine
  pub samples : List MonitorSample
  pub drawn : ℕ

unfoldable pub note : (ℕ → ℕ) → Entry → Journal → Journal
note stamp (pushed line) j = record j {
  lines = j.lines ++ with_id (stamp j.drawn) line ∷ [];
  drawn = suc j.drawn;
}
note stamp (replaced lines) j = record j { lines = lines }
note stamp cleared j = record j { lines = [] }
note stamp helped j = record j {
  lines = j.lines ++ with_id (stamp j.drawn) (plain Kind.system help_text) ∷ [];
  drawn = suc j.drawn;
}
note stamp (sampled platform core) j = record j {
  samples = j.samples ++ sample (stamp j.drawn) platform core ∷ [];
  drawn = suc j.drawn;
}

unfoldable pub keep : (ℕ → ℕ) → List Entry → Journal → Journal
keep stamp [] j = j
keep stamp (e ∷ es) j = keep stamp es (note stamp e j)

-- What the code does.
unfoldable pub perform : Entry → Action
perform (pushed line) = push_line line
perform (replaced lines) = replace_messages lines
perform cleared = clear_messages
perform helped = show_help
perform (sampled platform core) = record_monitor_sample platform core

unfoldable pub perform_all : List Entry → Action
perform_all [] w = w
perform_all (e ∷ es) w = perform_all es (perform e w)

-- The page shows a window of the journal.
pub record Shows (stamp : ℕ → ℕ) (j : Journal) (w : World) : Type 0 where
  pub lines : w.page.messages ≡ slice_last message_limit j.lines
  pub samples : w.page.monitor_samples ≡ slice_last 30 j.samples
  pub drawn : w.browser.draws ≡ j.drawn
  pub clock : w.browser.stamp ≡ stamp

append-Shows :
    (stamp : ℕ → ℕ) (line : Line) (j : Journal) (w : World)
    → Shows stamp j w
    → Shows stamp (note stamp (pushed line) j) (push_line line w)
unfolding note push_line
append-Shows stamp line j w h = record {
  lines =
      rw (h.lines, h.clock, h.drawn) (slice_last-append 79 j.lines (with_id (stamp j.drawn) line));
  samples = h.samples;
  drawn = ap suc h.drawn;
  clock = h.clock;
}

sampled-Shows :
    (stamp : ℕ → ℕ) (platform : PlatformStats) (core : CoreStats) (j : Journal) (w : World)
    → Shows stamp j w
    → Shows stamp (note stamp (sampled platform core) j) (record_monitor_sample platform core w)
unfolding note record_monitor_sample
sampled-Shows stamp platform core j w h = record {
  lines = h.lines;
  samples =
      rw (h.samples, h.clock, h.drawn)
        (slice_last-append 29 j.samples (sample (stamp j.drawn) platform core));
  drawn = ap suc h.drawn;
  clock = h.clock;
}

perform-Shows :
    (stamp : ℕ → ℕ) (e : Entry) (j : Journal) (w : World)
    → Shows stamp j w
    → Shows stamp (note stamp e j) (perform e w)
unfolding perform note replace_messages clear_messages show_help
perform-Shows stamp (pushed line) j w h = append-Shows stamp line j w h
perform-Shows stamp (replaced lines) j w h = ground arith
perform-Shows stamp cleared j w h = ground (arith, slice_last-nil {A = ChatLine} 80)
perform-Shows stamp helped j w h = append-Shows stamp (plain Kind.system help_text) j w h
perform-Shows stamp (sampled platform core) j w h = sampled-Shows stamp platform core j w h

-- The log refines the journal: where the page shows the last 80 lines and 30 samples of a journal,
-- it does so after any pushes, replacements, clearings, help texts and samples, of which the journal
-- forgets none since the last replacement.
pub perform_all-Shows :
    (stamp : ℕ → ℕ) (es : List Entry) (j : Journal) (w : World)
    → Shows stamp j w
    → Shows stamp (keep stamp es j) (perform_all es w)
unfolding perform_all keep
perform_all-Shows stamp [] j w h = h
perform_all-Shows stamp (e ∷ es) j w h =
    perform_all-Shows stamp es (note stamp e j) (perform e w) (perform-Shows stamp e j w h)
