-- ===== src/Types.antt =====
-- The data of frontend/src/main.tsx: what the gateway sends, what the dashboard shows, and the
-- commands that it sends.
use channel_wire.Prelude.{ℕ, String, Option, List}
use channel_wire.Json.{Ratio}

pub data GatewayEvent : Type 0 where
  ready : String → GatewayEvent
  ok error system : String → GatewayEvent
  chat : String → String → String → GatewayEvent  -- channel, sender, text
  dm : String → String → GatewayEvent  -- sender, text
  who channels : List String → GatewayEvent

pub data Kind : Type 0 where
  chat dm system status error : Kind

-- An identifier is what the clock and the random source give, or a row's number.
pub record ChatLine : Type 0 where
  pub id : ℕ
  pub kind : Kind
  pub channel : Option String
  pub sender : Option String
  pub text : String

pub record Health : Type 0 where
  pub status : String
  pub core_host : String
  pub core_port : Ratio

pub data BackendReadiness : Type 0 where
  checking ready failed : BackendReadiness

pub record PlatformStats : Type 0 where
  pub users : ℕ
  pub channels : ℕ
  pub memberships : ℕ
  pub messages : ℕ
  pub channel_messages : ℕ
  pub direct_messages : ℕ

pub record CoreStats : Type 0 where
  pub current_connections : ℕ
  pub registered_clients : ℕ
  pub total_connections : ℕ
  pub channels : ℕ
  pub channel_messages : ℕ
  pub direct_messages : ℕ
  pub malformed_frames : ℕ
  pub queue_disconnects : ℕ
  pub max_queue_bytes : ℕ

pub record PersistedChannel : Type 0 where
  pub name : String
  pub created_at : String

-- A percentage as an exact fraction, where the source has a double.
pub record Percent : Type 0 where
  pub parts : ℕ
  pub per : ℕ

pub record MonitorSample : Type 0 where
  pub id : ℕ
  pub messages : ℕ
  pub queue_pressure : Percent
  pub malformed_frames : ℕ

-- A row of a history response.
pub record HistoryItem : Type 0 where
  pub id : ℕ
  pub sender : String
  pub text : String

-- The objects given to `send`.
pub data Command : Type 0 where
  list who quit : Command
  join switch leave : String → Command
  say : String → Command
  dm : String → String → Command  -- to, text
