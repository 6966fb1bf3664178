-- ===== src/Pide.antt =====
-- final/server.c, the pide shop.
pub mod Clients
pub mod Matrix
pub mod Message
pub mod Queue
pub mod Session
pub mod Shop
pub mod Signals
pub mod Statistics
pub mod Waits
mod Tests
