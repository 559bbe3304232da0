-- ===== src/Safety.antt =====
-- What holds of the dashboard (frontend/src/main.tsx) whatever happens, in any order.
pub mod Invariant
pub mod Connections
pub mod Requests
pub mod Handlers
pub mod Checks
pub mod Resume
pub mod Steps
pub mod Reached
pub mod Leaks
