-- ===== src/SockClient/Switch.antt =====
-- client_socket.c: the choice of the socket, and the registration with the server.
pub mod Invariant
pub mod Registration
use practice_project.Prelude.{
  ℕ, zero, suc, ◌+◌, List, [], ◌∷◌, ◌++◌, Option, none, some, Bool, true, false, if◌then◌else◌,
  replicate,
}
use practice_project.SockServer.Handlers.{Message, save_cli_info}
use practice_project.SockClient.{
  SocketType, unset, tcp_link, udp_link, Client, Effect, Task, send_msg_by_tcp, send_msg_by_udp,
}
use practice_project.SockClient.Link.{
  init_client_tcp, try_destroy_client_tcp, init_client_udp, try_destroy_client_udp,
}

-- `g_server_endid`.
abbrev pub server_endid : ℕ
server_endid = 0

-- `send_msg_by_socket`: the task that it adds.
unfoldable pub send_msg_by_socket : Message → SocketType → List Task
send_msg_by_socket m unset = []
send_msg_by_socket m tcp_link = send_msg_by_tcp m ∷ []
send_msg_by_socket m udp_link = send_msg_by_udp m ∷ []

-- The message of `init_client_info_to_server`.
abbrev pub registration : Client → Message
registration c = record {
  msg_type = save_cli_info;
  srcid = c.endid;
  destid = server_endid;
  msg_data = replicate 512 0;
}

-- `init_client_info_to_server`.
pub init_client_info_to_server : Client → List Task
init_client_info_to_server c = send_msg_by_socket (registration c) c.socket_type

-- The second loop of `init_client_info` from round `i` on. `others i` is what the other threads do to
-- the client before read number `i` of the flag.
pub wait_rounds : (rounds i : ℕ) → (others : ℕ → Client → Client) → Client → Bool × Client
wait_rounds zero i others c = (false, c)
wait_rounds (suc n) i others c =
    let d = others i c in
    let rest = wait_rounds n (i + 1) others d in if d.init_cli_info then (true, d) else rest

-- The first loop, and then the second one.
pub register_rounds :
    (rounds i : ℕ) → (others : ℕ → Client → Client) → Client → Bool × List Task × Client
register_rounds zero i others c = let (ok, d) = wait_rounds 2 i others c in (ok, [], d)
register_rounds (suc n) i others c =
    let d = others i c in
    let (ok, tasks, e) = register_rounds n (i + 1) others d in
    if d.init_cli_info then (true, [], d) else (ok, init_client_info_to_server d ++ tasks, e)

-- `init_client_info`: whether the pointer is not NULL, and the tasks that it adds.
pub init_client_info : (others : ℕ → Client → Client) → Client → Bool × List Task × Client
init_client_info others c = register_rounds 2 0 others c

-- `socket_type` after the first lines of `switch_socket_type`.
abbrev pub next_type : SocketType → SocketType
next_type unset = udp_link
next_type udp_link = tcp_link
next_type tcp_link = udp_link

-- The two calls in a case of the `switch` of `switch_socket_type`: the one that closes the other socket,
unfoldable pub close_other : SocketType → Client → List Effect × Client
close_other unset c = ([], c)
close_other tcp_link c = try_destroy_client_udp c
close_other udp_link c = try_destroy_client_tcp c

-- and the one that opens the socket of the type. `fd` is what `socket` returns, if it is called.
unfoldable pub open_new : SocketType → (fd : Option ℕ) → Client → List Effect × Client
open_new unset fd c = ([], c)
open_new tcp_link fd c = let (_, effects, d) = init_client_tcp fd c in (effects, d)
open_new udp_link fd c = let (_, d) = init_client_udp fd c in ([], d)

-- `switch_socket_type`, where the other threads run only between the reads of the flag.
pub switch_socket_type :
    (fd : Option ℕ) → (others : ℕ → Client → Client) → Client → List Task × List Effect × Client
switch_socket_type fd others c =
    let chosen = next_type c.socket_type in
    let (closed, d) = close_other chosen (record c { socket_type = chosen }) in
    let (opened, e) = open_new chosen fd d in
    let (_, tasks, f) = init_client_info others e in (tasks, closed ++ opened, f)

-- `destroy_socket`.
pub destroy_socket : Client → List Effect × Client
destroy_socket c =
    let (e, s) = try_destroy_client_udp c in let (e', t) = try_destroy_client_tcp s in (e ++ e', t)
