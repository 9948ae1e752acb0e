-- ===== src/SockClient.antt =====
-- c/old_practice/work_srcs/socket/client: client_socket/client_socket.c, client_tcp.c and
-- client_udp.c, with the flag of client.c. System calls are parameters.
pub mod Link
pub mod Switch
pub mod Send
mod Tests
use practice_project.Prelude.{ℕ, Option, none, some, Bool, true, false}
use practice_project.SockServer.Handlers.{Message}

-- `socket_type_t`.
pub data SocketType : Type 0 where
  unset tcp_link udp_link : SocketType

-- Its values, which are also those of SAVE_CLI_INFO, TCP_DATA and UDP_DATA.
abbrev pub type_code : SocketType → ℕ
type_code unset = 0
type_code tcp_link = 1
type_code udp_link = 2

-- The static variables `socket_type`, `g_cli_tcpfd`, `g_cli_udpfd` and the flag `init_cli_info`, and
-- the client's end.
pub record Client : Type 0 where
  pub socket_type : SocketType
  pub cli_tcpfd : Option ℕ
  pub cli_udpfd : Option ℕ
  pub init_cli_info : Bool
  pub endid : ℕ

-- The static variables at the start.
abbrev pub started : ℕ → Client
started endid = record {
  socket_type = unset;
  cli_tcpfd = some 0;
  cli_udpfd = some 0;
  init_cli_info = false;
  endid = endid;
}

-- A call that leaves the client: `connect` to the server, `send` and `sendto`, `close`.
pub data Effect : Type 0 where
  connect : (fd : Option ℕ) → Effect
  send : (fd : Option ℕ) → Message → Effect
  sendto : (fd : Option ℕ) → Message → Effect
  close : (fd : Option ℕ) → Effect

-- A handler that the pool runs, with its argument.
pub data Task : Type 0 where
  send_msg_by_tcp send_msg_by_udp dispaly_msg_package : Message → Task
  complete_init_client_info : Task

-- What `recv` returns: a negative number, 0, or the buffer that it leaves.
pub data Received : Type 0 where
  failed : Received
  nothing : Received
  got : Message → Received
