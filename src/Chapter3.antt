-- ===== src/Chapter3.antt =====
-- The studies of chapter_3/thread in which threads share data.
pub mod Tests
pub mod BufferTests
pub mod Stack
pub mod Buffer
pub mod CondBuffer
pub mod PollBuffer
pub mod Tickets
pub mod RwLock
