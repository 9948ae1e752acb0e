-- ===== src/SockClient/Switch/Registration.antt =====
-- Registering with the server of SockServer.
use practice_project.Prelude.{ℕ, zero, suc, ◌^◌, ◌<◌, ◌≡◌, refl, [], ◌∷◌, some, true, false, lt→ltb}
use practice_project.ListApi.{ListApi}
use practice_project.SqlApi.{SqlApi}
use practice_project.SockServer.Handlers
use practice_project.SockServer.Handlers.{
  Message, save_cli_info, answer_msg, Server, recv_tcp_cli_msg,
}
use practice_project.SockServer.Handlers.Delivery.{tcp_registration_then_forward}
use practice_project.Fd.{check_fd}
use practice_project.SockClient.{
  tcp_link, udp_link, Client, connect, send, close, send_msg_by_tcp, complete_init_client_info, got,
}
use practice_project.SockClient.Link.{
  init_client_tcp, try_destroy_client_udp, recv_msg_by_tcp, recv_on, recv_msg_by_socket, run_task,
}
use practice_project.SockClient.Switch.{
  close_other, open_new, send_msg_by_socket, registration, init_client_info_to_server, wait_rounds,
  register_rounds, init_client_info, switch_socket_type,
}

-- The other threads answer: before its first read of the flag nothing happens, and before any later
-- read the pool has run `complete_init_client_info`.
abbrev pub answered : ℕ → Client → Client
answered zero c = c
answered (suc i) c = (run_task complete_init_client_info c).1

-- A switch from an open UDP socket to TCP, when `socket` returns a descriptor.
to_tcp :
    (c : Client) (fd : ℕ)
    → check_fd c.cli_udpfd ≡ true
    → check_fd c.cli_tcpfd ≡ false
    → 2 < fd
    → (close_other tcp_link c
        ≡ (close c.cli_udpfd ∷ [], record c { cli_udpfd = some 0; init_cli_info = false }))
      × (open_new tcp_link (some fd) (record c { cli_udpfd = some 0; init_cli_info = false }) ≡ (
        connect (some fd) ∷ [],
        record c { cli_udpfd = some 0; init_cli_info = false; cli_tcpfd = some fd },
      ))
unfolding close_other open_new init_client_tcp try_destroy_client_udp
to_tcp c fd udp_open tcp_closed opened =
    (rw udp_open refl, rw (tcp_closed, lt→ltb 2 fd opened) refl)

registers_once :
    (c : Client)
    → c.socket_type ≡ tcp_link
    → c.init_cli_info ≡ false
    → init_client_info answered c
      ≡ (true, send_msg_by_tcp (registration c) ∷ [], record c { init_cli_info = true })
unfolding init_client_info register_rounds wait_rounds init_client_info_to_server send_msg_by_socket
    run_task
registers_once c on_tcp unset_flag = rw (unset_flag, on_tcp) refl

module _ (sql : SqlApi) (messages : ListApi Message) where
  -- A client whose UDP socket is open, and whose TCP socket is not, switches to TCP, whether or not its flag was set, and `socket`
  -- returns a descriptor; other threads run only between the reads of the flag, and the server's answer
  -- is there before the second read. Then the switch closes the UDP socket, resets the flag, opens
  -- the TCP socket, and adds just one registration, which the pool sends on the new socket. The
  -- server that receives it, on its own descriptor for the connection, which is an `int`, sends from
  -- then on a message for the client's end there, and its answer is what sets the flag again.
  pub switch_then_registered :
      (c : Client) (fd srv_fd : ℕ) (s : Server sql messages) (m : Message)
      → c.socket_type ≡ udp_link
      → check_fd c.cli_udpfd ≡ true
      → check_fd c.cli_tcpfd ≡ false
      → 2 < fd
      → srv_fd < 2 ^ 31
      → m.destid ≡ c.endid
      → (d : Client) × (s1 s2 : Server sql messages) × (answer : Message) × (switch_socket_type
            (some fd)
            answered
            c
          ≡ (
            send_msg_by_tcp (registration c) ∷ [],
            close c.cli_udpfd ∷ connect (some fd) ∷ [],
            record d { init_cli_info = true },
          ))
        × (d.init_cli_info ≡ false)
        × (run_task (send_msg_by_tcp (registration c)) d
            ≡ (send (some fd) (registration c) ∷ [], d))
        × (recv_tcp_cli_msg sql messages true srv_fd (Handlers.got (registration c)) s
            ≡ some (true, Handlers.send srv_fd answer ∷ [], s1))
        × (Handlers.run_task sql messages (Handlers.forward_msg_clients m) s1
            ≡ some (Handlers.send srv_fd m ∷ [], s2))
        × (recv_msg_by_socket (got answer) d ≡ (complete_init_client_info ∷ [], [], d))
        × (run_task complete_init_client_info d ≡ ([], record d { init_cli_info = true }))
  unfolding switch_socket_type recv_msg_by_socket recv_on recv_msg_by_tcp run_task
  switch_then_registered c fd srv_fd s m on_udp udp_open tcp_closed opened small to =
      let chosen : Client = record c { socket_type = tcp_link } in
      let d : Client = record chosen {
        cli_udpfd = some 0;
        init_cli_info = false;
        cli_tcpfd = some fd;
      } in
      let (closes, opens) = to_tcp chosen fd udp_open tcp_closed opened in
      let (s1, s2, answer_sent, forwarded) =
        tcp_registration_then_forward sql messages s srv_fd (registration c) m refl small to in
      (
        d,
        s1,
        s2,
        _,
        rw (on_udp, closes, opens, registers_once d refl refl) refl,
        refl,
        refl,
        answer_sent,
        forwarded,
        refl,
        refl,
      )
