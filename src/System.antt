-- ===== src/System.antt =====
-- The programs together: what one of them sends is what another one receives.
pub mod Exchange
pub mod Entering
pub mod Replication
pub mod Typed
pub mod Upload
pub mod Replies
pub mod Copies
pub mod Leaving
