-- ===== src/Chapter1.antt =====
-- The programs of chapter_1.
pub mod Sorts
pub mod CopyFile
pub mod Perms
pub mod Tests
