-- ===== src/SockServer.antt =====
-- The server of c/old_practice/work_srcs/socket/server: its table of clients and the way of a
-- message through it. System calls and sqlite3 are parameters.
pub mod Database
pub mod Queue
pub mod Handlers
pub mod Setup
mod Tests
