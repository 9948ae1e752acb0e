-- ===== src/SockServer/Setup.antt =====
-- How the server's descriptors are made and given back: server_socket/server_tcp.c and server_udp.c,
-- server_epoll/server_epoll.c, and the calls of server.c. What a system call returns is an argument; a
-- `setsockopt` that fails is only logged.
pub mod Life
use practice_project.Prelude.{
  ℕ, List, [], ◌∷◌, ◌++◌, Option, none, some, ◌>>=◌, Bool, true, false, if◌then◌else◌, ◌&&◌,
  replicate,
}
use practice_project.Fd.{check_fd}
use practice_project.Memory.{write_bytes}
use practice_project.ListApi.{ListApi}
use practice_project.SqlApi.{SqlApi}
use practice_project.SockServer.Handlers
use practice_project.SockServer.Handlers.{Message, Server, traverse_table_send_msg}

-- `g_epfd`, `g_srv_tcpfd` and `g_srv_udpfd`; `none` is -1.
pub record Sockets : Type 0 where
  pub epfd : Option ℕ
  pub tcpfd : Option ℕ
  pub udpfd : Option ℕ

-- Their values at the start.
abbrev pub no_sockets : Sockets
no_sockets = record { epfd = some 0; tcpfd = some 0; udpfd = some 0 }

-- EPOLL_CTL_ADD and EPOLL_CTL_DEL of a descriptor, and `close`.
pub data Effect : Type 0 where
  ctl_add : (epfd fd : Option ℕ) → Effect
  ctl_del : (epfd fd : Option ℕ) → Effect
  close : (fd : Option ℕ) → Effect

-- `init_server_epoll`: whether it returns 0. `created` is what `epoll_create1` returns. The call of
-- `add_fd_to_srv_epoll` finds that `g_epfd` is set, and only adds.
unfoldable pub init_server_epoll : (created : Option ℕ) → Sockets → Bool × List Effect × Sockets
init_server_epoll created s =
    let s' : Sockets = record s { epfd = created } in
    if check_fd s.epfd
    then (true, [], s)
    else if check_fd created
    then (true, ctl_add created (some 0) ∷ [], s')
    else (false, [], s')

-- `destroy_server_epoll`; `closed` says whether `close` returns 0.
unfoldable pub destroy_server_epoll : (closed : Bool) → Sockets → Bool × List Effect
destroy_server_epoll closed s = if check_fd s.epfd then (closed, close s.epfd ∷ []) else (true, [])

-- The `if` of the next two functions.
unfoldable pub ensure_epoll : (created : Option ℕ) → Sockets → List Effect × Sockets
ensure_epoll created s =
    let (_, effects, s') = init_server_epoll created s in
    if check_fd s.epfd then ([], s) else (effects, s')

-- `add_fd_to_srv_epoll`.
unfoldable pub add_fd_to_srv_epoll : (created fd : Option ℕ) → Sockets → List Effect × Sockets
add_fd_to_srv_epoll created fd s =
    let (effects, s') = ensure_epoll created s in (effects ++ ctl_add s'.epfd fd ∷ [], s')

-- `del_fd_from_srv_epoll`.
unfoldable pub del_fd_from_srv_epoll : (created fd : Option ℕ) → Sockets → List Effect × Sockets
del_fd_from_srv_epoll created fd s =
    let (effects, s') = ensure_epoll created s in (effects ++ ctl_del s'.epfd fd ∷ [], s')

-- `init_server_tcp`; `fd` is what `socket` returns, `bound` and `listens` say whether `bind` and `listen`
-- succeed.
unfoldable pub init_server_tcp :
    (created fd : Option ℕ) → (bound listens : Bool) → Sockets → Bool × List Effect × Sockets
init_server_tcp created fd bound listens s =
    let s' : Sockets = record s { tcpfd = fd } in
    let (effects, t) = add_fd_to_srv_epoll created fd s' in
    if check_fd s.tcpfd
    then (true, [], s)
    else if check_fd fd && bound && listens
    then (true, effects, t)
    else (false, [], s')

-- `destroy_server_tcp`.
unfoldable pub destroy_server_tcp :
    (created : Option ℕ) → (closed : Bool) → Sockets → Bool × List Effect × Sockets
destroy_server_tcp created closed s =
    let (effects, t) = del_fd_from_srv_epoll created s.tcpfd s in
    if check_fd s.tcpfd then (closed, effects ++ close s.tcpfd ∷ [], t) else (true, [], s)

-- `init_server_udp`.
unfoldable pub init_server_udp :
    (created fd : Option ℕ) → (bound : Bool) → Sockets → Bool × List Effect × Sockets
init_server_udp created fd bound s =
    let s' : Sockets = record s { udpfd = fd } in
    let (effects, t) = add_fd_to_srv_epoll created fd s' in
    if check_fd s.udpfd
    then (true, [], s)
    else if check_fd fd && bound
    then (true, effects, t)
    else (false, [], s')

-- `destroy_server_udp`.
unfoldable pub destroy_server_udp :
    (created : Option ℕ) → (closed : Bool) → Sockets → Bool × List Effect × Sockets
destroy_server_udp created closed s =
    let (effects, t) = del_fd_from_srv_epoll created s.udpfd s in
    if check_fd s.udpfd then (closed, effects ++ close s.udpfd ∷ [], t) else (true, [], s)

-- `process_accept_tcp_link`: whether the pointer is not NULL. `newfd` is what `accept` returns.
unfoldable pub process_accept : (created newfd : Option ℕ) → Sockets → Bool × List Effect × Sockets
process_accept created newfd s =
    let (effects, t) = add_fd_to_srv_epoll created newfd s in
    if check_fd newfd then (true, effects, t) else (false, [], s)

-- The calls of `init_all_srv_modules` that make descriptors.
unfoldable pub start_all :
    (ep tcp udp : Option ℕ) → (tcp_bound listens udp_bound : Bool) → Sockets → List Effect × Sockets
start_all ep tcp udp tcp_bound listens udp_bound s =
    let (_, e1, s1) = init_server_epoll ep s in
    let (_, e2, s2) = init_server_tcp ep tcp tcp_bound listens s1 in
    let (_, e3, s3) = init_server_udp ep udp udp_bound s2 in (e1 ++ e2 ++ e3, s3)

-- The calls of `release_all_srv_modules_resources` that give them back.
unfoldable pub release_all : (ep : Option ℕ) → Sockets → List Effect
release_all ep s =
    let (_, e1, s1) = destroy_server_udp ep true s in
    let (_, e2, s2) = destroy_server_tcp ep true s1 in
    let (_, e3) = destroy_server_epoll true s2 in e1 ++ e2 ++ e3

-- `SRV_BROADCAST`.
abbrev pub srv_broadcast : ℕ
srv_broadcast = 3

module _ (sql : SqlApi) (messages : ListApi Message) where
  -- `process_stdin_msg`: whether the pointer is not NULL. `rx` is what `read` gives, `none` for a
  -- negative number.
  unfoldable pub process_stdin :
      (rx : Option (List ℕ))
      → Server sql messages
      → Option (Bool × List Handlers.Effect × Server sql messages)
  process_stdin none s = some (false, [], s)
  process_stdin (some []) s = some (true, [], s)
  process_stdin (some (x ∷ xs)) s = do
    bytes ← write_bytes (replicate 512 0) 0 (x ∷ xs)
    (_, effects, s') ←
        traverse_table_send_msg sql messages
          (record { msg_type = srv_broadcast; srcid = s.endid; destid = 0; msg_data = bytes }) s
    some (true, effects, s')
