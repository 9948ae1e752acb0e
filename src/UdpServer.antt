-- ===== src/UdpServer.antt =====
-- The server of c/old_practice/work_srcs/socket_udp/server: its list of clients, its message queue,
-- and what it does with a datagram. System calls are arguments: what `recvfrom` gives is a value,
-- and what `sendto` is given is a list of effects that a handler returns.
pub mod Clients
pub mod Queue
pub mod Handlers
pub mod Setup
mod Tests
