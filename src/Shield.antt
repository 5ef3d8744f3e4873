-- ===== src/Shield.antt =====
-- internal/shield.
pub mod Fields
pub mod Scripts
pub mod Calls
pub mod Pending
pub mod Traffic
pub mod World
pub mod Flush
pub mod DeadLetters
pub mod Reads
pub mod Batcher
pub mod Index
