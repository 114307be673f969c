-- ===== src/Http.antt =====
-- webserver/http_conn.h and webserver/http_conn.cpp: the class http_conn, part by part.
pub mod Conn
pub mod Line
pub mod Request
pub mod Headers
pub mod Process
pub mod Whole
pub mod Tests
pub mod Read
pub mod Response
pub mod Write
pub mod Serve
