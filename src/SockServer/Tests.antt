-- ===== src/SockServer/Tests.antt =====
-- A database that is its rows; end 7 has a TCP link with descriptor 5, end 9 a UDP link.
use practice_project.Prelude.{
  ℕ, ◌≡◌, refl, List, [], ◌∷◌, Option, none, some, Bool, true, false, arith,
}
use practice_project.ListApi.{ListApi, plain_lists}
use practice_project.SqlApi.{Row}
use practice_project.SqlApi.RowsOnly.{rows_only}
use practice_project.SockServer.Database.{tcp_link, udp_link}
use practice_project.SockServer.Handlers.{
  Message, answer_msg, send, sendto, got, forward_msg_clients, Server, recv_tcp_cli_msg,
  recv_udp_cli_msg, run_task, socket_msg_process_round,
}
use practice_project.SockServer.Handlers.Delivery.{
  running, arrival_to_task, tcp_registration_then_forward, udp_registration_then_forward,
  udp_registration_lost,
}
use practice_project.Memory.{bytes_at}
use practice_project.SockServer.Setup.{
  Sockets, no_sockets, init_server_tcp, srv_broadcast, process_stdin,
}
use practice_project.SockServer.Setup.Life.{init_server_tcp-never_listens, process_stdin-each}
use practice_project.SockServer.Handlers.Broadcast.{to_each}

abbrev messages : ListApi Message
messages = plain_lists Message

abbrev tcp_row : Row
tcp_row = record { endid = 7; fd = some 5; ipaddr = none; port = none }

abbrev udp_row : Row
udp_row = record { endid = 9; fd = none; ipaddr = some 90; port = some 91 }

abbrev two_rows : List Row
two_rows = tcp_row ∷ udp_row ∷ []

abbrev server : Server rows_only messages
server = record {
  db = some two_rows;
  queue = record { queue = none; mutex_ = true };
  endid = 0;
  srv_tcpfd = 3;
  srv_udpfd = 4;
}

abbrev message : (msg_type srcid destid : ℕ) → Message
message t src dest = record { msg_type = t; srcid = src; destid = dest; msg_data = [] }

tcp_registration_then_forward_example :
    (s1 s2 : Server rows_only messages) × (recv_tcp_cli_msg rows_only messages true 6
        (got (message 0 9 0))
        server
      ≡ some (true, send 6 (answer_msg 0 9) ∷ [], s1))
    × (run_task rows_only messages (forward_msg_clients (message 1 7 9)) s1
        ≡ some (send 6 (message 1 7 9) ∷ [], s2))
tcp_registration_then_forward_example =
    tcp_registration_then_forward rows_only messages server 6 (message 0 9 0) (message 1 7 9) refl
      (omega arith) refl

-- Another message waits.
abbrev one_waits : Option (List Message)
one_waits = some (message 2 8 9 ∷ [])

arrival_to_task_example :
    (q1 q2 : messages.Head) × (recv_tcp_cli_msg rows_only messages true 5
        (got (message 1 7 9))
        (running rows_only messages one_waits server)
      ≡ some (true, [], running rows_only messages (some q1) server))
    × (socket_msg_process_round rows_only messages true
          (message 0 0 0)
          (running rows_only messages (some q1) server)
        ≡ some (
          some (forward_msg_clients (message 1 7 9)),
          running rows_only messages (some q2) server,
        ))
    × (messages.entries q2 ≡ message 2 8 9 ∷ [])
arrival_to_task_example =
    arrival_to_task rows_only messages server one_waits 5 (message 1 7 9) (message 0 0 0)
      (λ e. absurd (ground arith))

udp_registration_then_forward_example :
    (s1 s2 : Server rows_only messages) × (recv_udp_cli_msg rows_only messages true 80 81
        (got (message 0 8 0))
        server
      ≡ some (true, sendto 80 81 (answer_msg 0 8) ∷ [], s1))
    × (run_task rows_only messages (forward_msg_clients (message 1 7 8)) s1
        ≡ some (sendto 80 81 (message 1 7 8) ∷ [], s2))
udp_registration_then_forward_example =
    udp_registration_then_forward rows_only messages server 80 81 (message 0 8 0) (message 1 7 8)
      refl refl (omega arith) (omega arith) refl

udp_registration_lost_example :
    (s1 s2 : Server rows_only messages) × (recv_udp_cli_msg rows_only messages true 80 81
        (got (message 0 7 0))
        server
      ≡ some (true, sendto 80 81 (answer_msg 0 7) ∷ [], s1))
    × (run_task rows_only messages (forward_msg_clients (message 1 9 7)) s1
        ≡ some (send 5 (message 1 9 7) ∷ [], s2))
udp_registration_lost_example =
    udp_registration_lost rows_only messages server 80 81 (message 0 7 0) (message 1 9 7) tcp_row
      (tcp_link 5) refl refl refl (λ e. absurd (ground arith)) refl

init_server_tcp-never_listens_example :
    (s' : Sockets) × (init_server_tcp (some 3) (some 4) true false no_sockets ≡ (false, [], s'))
    × ((created' fd' : Option ℕ) (bound' listens' : Bool)
        → init_server_tcp created' fd' bound' listens' s' ≡ (true, [], s'))
init_server_tcp-never_listens_example =
    init_server_tcp-never_listens (some 3) 4 true false no_sockets refl (omega arith) refl

process_stdin-each_example :
    (m : Message) × (process_stdin rows_only messages (some (65 ∷ 66 ∷ [])) server
      ≡ some (true, to_each m ((7, tcp_link 5) ∷ (9, udp_link 90 91) ∷ []), server))
    × (m.msg_type ≡ srv_broadcast)
    × (m.srcid ≡ 0)
    × (bytes_at m.msg_data 0 2 ≡ 65 ∷ 66 ∷ [])
process_stdin-each_example =
    process_stdin-each rows_only messages 65 (66 ∷ []) server
      ((7, tcp_link 5) ∷ (9, udp_link 90 91) ∷ []) (omega arith) (refl, refl, (refl, refl, tt))
