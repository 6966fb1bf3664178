-- ===== src/Mvcp.antt =====
-- hw5/src, the directory copier `MVCp`.
pub mod Buffer
pub mod Worker
pub mod Threads
pub mod Manager
pub mod Main
mod Tests
