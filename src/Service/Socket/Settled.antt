-- ===== src/Service/Socket/Settled.antt =====
-- A connection of the gateway service (gateway/app/main.py) against the account of it in `Turns`.
use mathlib.Core.Option
use channel_wire.Prelude.{List}
