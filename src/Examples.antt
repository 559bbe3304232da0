-- ===== src/Examples.antt =====
-- The theorems about frontend/src/main.tsx at concrete inputs, and runs of the model.
mod Platform
mod Sessions
mod Runs
mod Pages
mod Views
mod Wire
mod Chat
mod Deliveries
mod Tables
mod Storage
