-- ===== src/SockClient/Link.antt =====
-- client_tcp.c and client_udp.c: the two sockets.
use practice_project.Prelude.{
  ℕ, List, [], ◌∷◌, Option, some, Bool, true, false, ◌==◌, if◌then◌else◌,
}
use practice_project.SockServer.Handlers.{Message, save_cli_info}
use practice_project.Fd.{check_fd}
use practice_project.SockClient.{
  SocketType, unset, tcp_link, udp_link, Client, Effect, connect, send, sendto, close, Task,
  send_msg_by_tcp, send_msg_by_udp, dispaly_msg_package, complete_init_client_info, Received,
  failed, nothing, got,
}

-- `init_client_tcp`; `fd` is what `socket` returns. A `connect` that fails is only logged. The Boolean
-- says whether it returns 0.
unfoldable pub init_client_tcp : (fd : Option ℕ) → Client → Bool × List Effect × Client
init_client_tcp fd c =
    let s = record c { cli_tcpfd = fd } in
    if check_fd c.cli_tcpfd
    then (true, [], c)
    else if check_fd fd
    then (true, connect fd ∷ [], s)
    else (false, [], s)

-- `try_destroy_client_tcp`, which returns 0.
unfoldable pub try_destroy_client_tcp : Client → List Effect × Client
try_destroy_client_tcp c =
    if check_fd c.cli_tcpfd
    then (close c.cli_tcpfd ∷ [], record c { cli_tcpfd = some 0; init_cli_info = false })
    else ([], c)

-- `init_client_udp`.
unfoldable pub init_client_udp : (fd : Option ℕ) → Client → Bool × Client
init_client_udp fd c =
    let s = record c { cli_udpfd = fd } in
    if check_fd c.cli_udpfd then (true, c) else if check_fd fd then (true, s) else (false, s)

-- `try_destroy_client_udp`.
unfoldable pub try_destroy_client_udp : Client → List Effect × Client
try_destroy_client_udp c =
    if check_fd c.cli_udpfd
    then (close c.cli_udpfd ∷ [], record c { cli_udpfd = some 0; init_cli_info = false })
    else ([], c)

-- The task for a message of the server.
abbrev pub task_of : Message → Task
task_of m = if m.msg_type == save_cli_info then complete_init_client_info else dispaly_msg_package m

-- `recv_msg_by_tcp`; the Boolean is the pointer that it returns, false for NULL.
unfoldable pub recv_msg_by_tcp : Received → Client → Bool × List Task × List Effect × Client
recv_msg_by_tcp failed c = (false, [], [], c)
recv_msg_by_tcp nothing c = let (effects, s) = try_destroy_client_tcp c in (false, [], effects, s)
recv_msg_by_tcp (got m) c = (true, task_of m ∷ [], [], c)

-- `recv_msg_by_udp`.
unfoldable pub recv_msg_by_udp : Received → Client → Bool × List Task × List Effect × Client
recv_msg_by_udp failed c = (false, [], [], c)
recv_msg_by_udp nothing c = (false, [], [], c)
recv_msg_by_udp (got m) c = (true, task_of m ∷ [], [], c)

-- The `switch` of `recv_msg_by_socket`, on the type of the socket.
unfoldable pub recv_on : SocketType → Received → Client → List Task × List Effect × Client
recv_on unset rx c = ([], [], c)
recv_on tcp_link rx c = let (_, tasks, effects, s) = recv_msg_by_tcp rx c in (tasks, effects, s)
recv_on udp_link rx c = let (_, tasks, effects, s) = recv_msg_by_udp rx c in (tasks, effects, s)

-- `recv_msg_by_socket`.
unfoldable pub recv_msg_by_socket : Received → Client → List Task × List Effect × Client
recv_msg_by_socket rx c = recv_on c.socket_type rx c

-- What the pool does with a task. The sockets are those at the time when it runs.
unfoldable pub run_task : Task → Client → List Effect × Client
run_task (send_msg_by_tcp m) c = (send c.cli_tcpfd m ∷ [], c)
run_task (send_msg_by_udp m) c = (sendto c.cli_udpfd m ∷ [], c)
run_task (dispaly_msg_package m) c = ([], c)
run_task complete_init_client_info c = ([], record c { init_cli_info = true })
