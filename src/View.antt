-- ===== src/View.antt =====
-- What `App` of frontend/src/main.tsx renders, panel by panel.
pub mod Node
pub mod Lists
pub mod Account
pub mod Workspace
pub mod App
pub mod Offers
pub mod Offered
pub mod Private
