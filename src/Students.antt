-- ===== src/Students.antt =====
-- hw1/gtuStudentManagemetSystem.c, the student grade files.
pub mod Lines
pub mod World
pub mod Add
pub mod Search
pub mod Show
pub mod Bubble
pub mod Names
pub mod Grades
pub mod Scan
pub mod Menu
mod Tests
