-- ===== src/Midterm.antt =====
-- midterm/server/server.c and midterm/client/client.c, a file server for a bounded number of clients.
pub mod Slots
pub mod Commands
pub mod Answers
pub mod Client
pub mod Requests
pub mod Exchange
mod Tests
