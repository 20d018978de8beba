-- ===== src/Server.antt =====
-- src/api/server.cpp: the HTTP server's own logic.
pub mod Stream
pub mod Handle
mod Replies
mod Utf8
mod Boundary
pub mod Completion
mod Streaming
mod Tests
