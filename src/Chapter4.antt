-- ===== src/Chapter4.antt =====
-- The servers of chapter_4.
pub mod Tests
pub mod SelectTests
pub mod PollTests
pub mod ProcessTests
pub mod TcpServer
pub mod SelectServer
pub mod PollServer
pub mod EpollServer
