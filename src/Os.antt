-- ===== src/Os.antt =====
-- The border between the library and the code outside the repository.
pub mod Constants
pub mod Events
pub mod Platform
pub mod Calls
pub mod Outcome
pub mod After
pub mod Descriptors
pub mod Ends
pub mod Unseen
pub mod Always
pub mod Sample
