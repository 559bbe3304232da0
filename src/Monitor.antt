-- ===== src/Monitor.antt =====
-- The figures that frontend/src/main.tsx derives for its panels: the memos `stats`, `monitoring` and
-- `monitorSeries` of `App`, and the points that `Sparkline` plots.
pub mod Bounds
use channel_wire.Prelude.{
  ℕ, zero, suc, ◌+◌, ◌-◌, ◌*◌, Bool, true, false, Option, none, some, List, [], ◌∷◌, map, length,
  leb, nat_eq, if◌then◌else◌,
}
use channel_wire.Prelude.{String, concat}
use channel_wire.Text.{join_spaces}
use channel_wire.Decimal.{to_fixed_1}
use channel_wire.Types.{ChatLine, Kind, chat, dm, PlatformStats, CoreStats, MonitorSample, Percent}
use channel_wire.Log.{percent}

abbrev pub is_chat : Kind → Bool
is_chat chat = true
is_chat _ = false

abbrev pub is_dm : Kind → Bool
is_dm dm = true
is_dm _ = false

-- `messages.filter(...).length`
unfoldable pub count : (Kind → Bool) → List ChatLine → ℕ
count p [] = 0
count p (line ∷ lines) = if p line.kind then suc (count p lines) else count p lines

pub record Counts : Type 0 where
  pub messages : ℕ
  pub direct : ℕ
  pub events : ℕ

unfoldable pub stats : List ChatLine → Counts
stats lines = record {
  messages = count is_chat lines;
  direct = count is_dm lines;
  events = length lines;
}

pub record Monitoring : Type 0 where
  pub queue_pressure : Percent
  pub channel_share : Percent
  pub direct_share : Percent
  pub malformed_frames : ℕ
  pub total_connections : ℕ

-- `s?.f ?? 0`
abbrev or_zero : {A : Type 0} → (A → ℕ) → Option A → ℕ
or_zero f none = 0
or_zero f (some s) = f s

unfoldable pub monitoring : Option PlatformStats → Option CoreStats → Monitoring
unfolding percent
monitoring platform core = record {
  queue_pressure =
      percent (or_zero (λ c. c.queue_disconnects) core) (or_zero (λ c. c.total_connections) core);
  channel_share =
      percent (or_zero (λ p. p.channel_messages) platform) (or_zero (λ p. p.messages) platform);
  direct_share =
      percent (or_zero (λ p. p.direct_messages) platform) (or_zero (λ p. p.messages) platform);
  malformed_frames = or_zero (λ c. c.malformed_frames) core;
  total_connections = or_zero (λ c. c.total_connections) core;
}

abbrev pub whole : ℕ → Percent
whole n = record { parts = n; per = 1 }

pub record Series : Type 0 where
  pub messages : List Percent
  pub queue_pressure : List Percent
  pub malformed_frames : List Percent

unfoldable pub monitor_series : List MonitorSample → Series
monitor_series samples = record {
  messages = map (λ item. whole item.messages) samples;
  queue_pressure = map (λ item. item.queue_pressure) samples;
  malformed_frames = map (λ item. whole item.malformed_frames) samples;
}

unfoldable pub larger : Percent → Percent → Percent
larger v m = if leb (v.parts * m.per) (m.parts * v.per) then m else v

-- `Math.max(1, ...values)`
unfoldable pub greatest : List Percent → Percent
greatest [] = whole 1
greatest (v ∷ vs) = larger v (greatest vs)

pub record Point : Type 0 where
  pub x : Percent
  pub y : Percent

abbrev pub width : ℕ
width = 160

abbrev pub height : ℕ
height = 42

-- `(index / (n - 1)) * width`, or `width` for a single value.
unfoldable pub abscissa : ℕ → ℕ → Percent
abscissa n index = if nat_eq n 1 then whole width else record { parts = index * width; per = n - 1 }

-- `height - (value / max) * (height - 4) - 2`
unfoldable pub ordinate : Percent → Percent → Percent
ordinate m v = record {
  parts = height * (v.per * m.parts) - v.parts * m.per * (height - 4) - 2 * (v.per * m.parts);
  per = v.per * m.parts;
}

unfoldable pub draw_from : ℕ → ℕ → Percent → List Percent → List Point
draw_from n index m [] = []
draw_from n index m (v ∷ vs) =
    record { x = abscissa n index; y = ordinate m v } ∷ draw_from n (suc index) m vs

-- The points of `Sparkline`, before they are printed.
unfoldable pub sparkline : List Percent → List Point
sparkline values = draw_from (length values) 0 (greatest values) values

-- `${x.toFixed(1)},${y.toFixed(1)}`
unfoldable pub point_text : Point → String
unfolding to_fixed_1
point_text p = concat (to_fixed_1 p.x) (String.◌∷◌ "," (to_fixed_1 p.y))

-- The attribute `points` of `Sparkline`.
unfoldable pub sparkline_text : List Percent → String
unfolding sparkline point_text
sparkline_text values = join_spaces (map point_text (sparkline values))
