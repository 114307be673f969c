-- ===== src/Http/Whole.antt =====
-- A whole request of webserver/http_conn.cpp, from an empty read buffer to the answer of do_request.
pub mod Lines
pub mod Headers
pub mod First
pub mod Answer
pub mod Fresh
pub mod Response
