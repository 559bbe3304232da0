-- ===== src/Service.antt =====
-- The gateway service (gateway/app, tools/channelwire_client.py) between the browsers and the chat core.
pub mod Text
pub mod Wire
pub mod Requests
pub mod Replies
pub mod Journey
pub mod Letters
pub mod Database
pub mod Socket
pub mod Endpoints
pub mod Mismatches
