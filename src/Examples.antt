-- ===== src/Examples.antt =====
-- Concrete inputs, and runs of the theorems on them.
pub mod Slots
pub mod Lists
pub mod Books
pub mod Views
pub mod Inputs
pub mod Matches
pub mod Clients
pub mod Listeners
pub mod Feeds
pub mod Environments
pub mod Loops
pub mod Files
pub mod Recoveries
