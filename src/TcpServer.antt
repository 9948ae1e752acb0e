-- ===== src/TcpServer.antt =====
-- The server of c/old_practice/work_srcs/socket_tcp/server, on its list of clients and its queue.
-- System calls are parameters.
pub mod LocalQueue
pub mod Handlers
pub mod Thread
mod Tests
