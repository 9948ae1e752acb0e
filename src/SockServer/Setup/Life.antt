-- ===== src/SockServer/Setup/Life.antt =====
-- What the start and the end of the server make and give back.
use practice_project.Prelude.{
  ℕ, ◌<◌, ◌≤◌, ◌≡◌, refl, List, [], ◌∷◌, Option, some, Bool, true, false, arith, ◌&&◌, lt→ltb,
  length, length-replicate, replicate, Returns-value,
}
use practice_project.Fd.{check_fd}
use practice_project.Memory.{write_bytes-Written, bytes_at}
use practice_project.ListApi.{ListApi}
use practice_project.SqlApi.{SqlApi}
use practice_project.SockServer.Database.{SocketHandle, create_cli_sql_database}
use practice_project.SockServer.Database.Table.{table}
use practice_project.SockServer.Handlers.{Message, Server}
use practice_project.SockServer.Handlers.Broadcast.{Links, to_each, traverse_table_send_msg-each}
use practice_project.SockServer.Setup.{
  Sockets, no_sockets, ctl_add, ctl_del, close, init_server_epoll, destroy_server_epoll,
  ensure_epoll, add_fd_to_srv_epoll, del_fd_from_srv_epoll, init_server_tcp, destroy_server_tcp,
  init_server_udp, destroy_server_udp, start_all, release_all, srv_broadcast, process_stdin,
}

init_server_epoll-step :
    (ep : Option ℕ) (s : Sockets)
    → check_fd s.epfd ≡ false
    → check_fd ep ≡ true
    → init_server_epoll ep s ≡ (true, ctl_add ep (some 0) ∷ [], record s { epfd = ep })
unfolding init_server_epoll
init_server_epoll-step ep s unused made = rw (unused, made) refl

-- With an epoll descriptor, a call adds or takes out one descriptor.
add_fd_to_srv_epoll-step :
    (created fd : Option ℕ) (s : Sockets)
    → check_fd s.epfd ≡ true
    → add_fd_to_srv_epoll created fd s ≡ (ctl_add s.epfd fd ∷ [], s)
unfolding add_fd_to_srv_epoll ensure_epoll
add_fd_to_srv_epoll-step created fd s made = rw made refl

del_fd_from_srv_epoll-step :
    (created fd : Option ℕ) (s : Sockets)
    → check_fd s.epfd ≡ true
    → del_fd_from_srv_epoll created fd s ≡ (ctl_del s.epfd fd ∷ [], s)
unfolding del_fd_from_srv_epoll ensure_epoll
del_fd_from_srv_epoll-step created fd s made = rw made refl

init_server_tcp-step :
    (created fd : Option ℕ) (s : Sockets)
    → check_fd s.epfd ≡ true
    → check_fd s.tcpfd ≡ false
    → check_fd fd ≡ true
    → init_server_tcp created fd true true s
      ≡ (true, ctl_add s.epfd fd ∷ [], record s { tcpfd = fd })
unfolding init_server_tcp
init_server_tcp-step created fd s made unused opened =
    rw (unused, opened, add_fd_to_srv_epoll-step created fd (record s { tcpfd = fd }) made) refl

init_server_udp-step :
    (created fd : Option ℕ) (s : Sockets)
    → check_fd s.epfd ≡ true
    → check_fd s.udpfd ≡ false
    → check_fd fd ≡ true
    → init_server_udp created fd true s ≡ (true, ctl_add s.epfd fd ∷ [], record s { udpfd = fd })
unfolding init_server_udp
init_server_udp-step created fd s made unused opened =
    rw (unused, opened, add_fd_to_srv_epoll-step created fd (record s { udpfd = fd }) made) refl

start_all-step :
    (ep tcp udp : Option ℕ) (s : Sockets)
    → check_fd s.epfd ≡ false
    → check_fd s.tcpfd ≡ false
    → check_fd s.udpfd ≡ false
    → check_fd ep ≡ true
    → check_fd tcp ≡ true
    → check_fd udp ≡ true
    → start_all ep tcp udp true true true s ≡ (
      ctl_add ep (some 0) ∷ ctl_add ep tcp ∷ ctl_add ep udp ∷ [],
      record { epfd = ep; tcpfd = tcp; udpfd = udp },
    )
unfolding start_all
start_all-step ep tcp udp s no_ep no_tcp no_udp made tcp_made udp_made =
    rw
      (
        init_server_epoll-step ep s no_ep made,
        init_server_tcp-step ep tcp (record s { epfd = ep }) made no_tcp tcp_made,
        init_server_udp-step ep udp (record s { epfd = ep; tcpfd = tcp }) made no_udp udp_made,
      )
      refl

release_all-step :
    (ep : Option ℕ) (s : Sockets)
    → check_fd s.epfd ≡ true
    → check_fd s.tcpfd ≡ true
    → check_fd s.udpfd ≡ true
    → release_all ep s
      ≡ ctl_del s.epfd s.udpfd
        ∷ close s.udpfd
        ∷ ctl_del s.epfd s.tcpfd
        ∷ close s.tcpfd
        ∷ close s.epfd
        ∷ []
unfolding release_all destroy_server_epoll destroy_server_udp destroy_server_tcp
release_all-step ep s made tcp_made udp_made =
    rw
      (
        del_fd_from_srv_epoll-step ep s.udpfd s made,
        udp_made,
        del_fd_from_srv_epoll-step ep s.tcpfd s made,
        tcp_made,
        made,
      )
      refl

-- If every call succeeds, the start makes the three descriptors and adds to epoll standard input, the TCP
-- socket and the UDP socket, each once; the end takes both sockets out and closes all three
-- descriptors, each once, and the epoll descriptor last.
pub release_all-start_all :
    (ep tcp udp : ℕ)
    → 2 < ep
    → 2 < tcp
    → 2 < udp
    → (s : Sockets) × (start_all (some ep) (some tcp) (some udp) true true true no_sockets ≡ (
      ctl_add (some ep) (some 0) ∷ ctl_add (some ep) (some tcp) ∷ ctl_add (some ep) (some udp) ∷ [],
      s,
    ))
      × (release_all (some ep) s
          ≡ ctl_del (some ep) (some udp)
            ∷ close (some udp)
            ∷ ctl_del (some ep) (some tcp)
            ∷ close (some tcp)
            ∷ close (some ep)
            ∷ [])
release_all-start_all ep tcp udp he ht hu =
    let made = lt→ltb 2 ep he in
    let tcp_made = lt→ltb 2 tcp ht in
    let udp_made = lt→ltb 2 udp hu in
    let s : Sockets = record { epfd = some ep; tcpfd = some tcp; udpfd = some udp } in
    (
      s,
      start_all-step (some ep) (some tcp) (some udp) no_sockets refl refl refl made tcp_made
          udp_made,
      release_all-step (some ep) s made tcp_made udp_made,
    )

-- If `socket` gives a descriptor but `bind` or `listen` fails, `init_server_tcp` returns -1 and nothing
-- is added to epoll; yet every later call returns 0 and does nothing, so that the server never
-- listens.
pub init_server_tcp-never_listens :
    (created : Option ℕ) (fd : ℕ) (bound listens : Bool) (s : Sockets)
    → check_fd s.tcpfd ≡ false
    → 2 < fd
    → bound && listens ≡ false
    → (s' : Sockets) × (init_server_tcp created (some fd) bound listens s ≡ (false, [], s'))
      × ((created' fd' : Option ℕ) (bound' listens' : Bool)
          → init_server_tcp created' fd' bound' listens' s' ≡ (true, [], s'))
unfolding init_server_tcp
init_server_tcp-never_listens created fd bound listens s unused made fails =
    let open_fd = lt→ltb 2 fd made in
    (
      record s { tcpfd = some fd },
      rw (unused, open_fd, fails) refl,
      λ created' fd' bound' listens'. rw open_fd refl,
    )

module _ (sql : SqlApi) (messages : ListApi Message) where
  -- If every row's columns can be read, a line of 1 to 512 bytes that the server's user writes goes to
  -- every end of the table that has a link, in the order of the rows, as an SRV_BROADCAST from the
  -- server to that end whose data start with the line.
  pub process_stdin-each :
      (x : ℕ) (xs : List ℕ) (s : Server sql messages) (ls : List (ℕ × SocketHandle))
      → length (x ∷ xs) ≤ 512
      → Links (table sql s.db) ls
      → (m : Message) × (process_stdin sql messages (some (x ∷ xs)) s
          ≡ some (true, to_each m ls, record s { db = some (create_cli_sql_database sql s.db) }))
        × (m.msg_type ≡ srv_broadcast)
        × (m.srcid ≡ s.endid)
        × (bytes_at m.msg_data 0 (length (x ∷ xs)) ≡ x ∷ xs)
  unfolding process_stdin
  process_stdin-each x xs s ls short v =
      let (bytes, e, w) = Returns-value (
        write_bytes-Written (x ∷ xs) (replicate 512 0) 0
          (omega (arith, length-replicate {A = ℕ} 512 0))) in
      let m : Message = record {
        msg_type = srv_broadcast;
        srcid = s.endid;
        destid = 0;
        msg_data = bytes;
      } in
      let (last, sent) = traverse_table_send_msg-each sql messages m s ls v in
      (m, rw (e, sent) refl, refl, refl, w.there)
