-- ===== src/Core.antt =====
-- The chat core (core/src), the server that the gateway connects to for each user.
pub mod Protocol
pub mod Server
