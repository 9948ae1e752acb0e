-- ===== src/SockClient/Tests.antt =====
-- End 9 starts, and switches to UDP and then to TCP; end 7 is known to the server.
use practice_project.Prelude.{
  ℕ, ◌≡◌, refl, List, [], ◌∷◌, Option, none, some, Bool, true, false, arith, ap, ◌==◌, ◌⊎◌,
}
use practice_project.Array.{get! }
use practice_project.ListApi.{ListApi, plain_lists}
use practice_project.SqlApi.RowsOnly.{rows_only}
use practice_project.SockServer.Handlers
use practice_project.SockServer.Handlers.{
  Message, Server, recv_tcp_cli_msg, socket_msg_process_round,
}
use practice_project.SockServer.Handlers.Delivery.{running}
use practice_project.Fd.{check_fd}
use practice_project.SockClient.{
  tcp_link, udp_link, Client, started, send, close, connect, send_msg_by_tcp,
  complete_init_client_info, got,
}
use practice_project.SockClient.Link.{
  try_destroy_client_tcp, init_client_udp, recv_msg_by_socket, run_task,
}
use practice_project.SockClient.Switch.{registration, close_other, open_new, switch_socket_type}
use practice_project.SockClient.Switch.Invariant.{
  outside, chosen, receiving, State, Reach, start, later, choose, close_first, open_then,
  Reach-one_socket,
}
use practice_project.SockClient.Switch.Registration.{answered, switch_then_registered}
use practice_project.SockClient.Send.{send_msg_to_other_cli}
use practice_project.SockClient.Send.Forward.{Padded, line_to_forward}

abbrev messages : ListApi Message
messages = plain_lists Message

abbrev server : Server rows_only messages
server = record {
  db = none;
  queue = record { queue = none; mutex_ = true };
  endid = 0;
  srv_tcpfd = 3;
  srv_udpfd = 4;
}

abbrev on_udp : Client
on_udp = record {
  socket_type = udp_link;
  cli_tcpfd = some 0;
  cli_udpfd = some 5;
  init_cli_info = true;
  endid = 9;
}

abbrev on_tcp : Client
on_tcp = record on_udp { socket_type = tcp_link; cli_tcpfd = some 6; cli_udpfd = some 0 }

abbrev to_nine : Message
to_nine = record { msg_type = 1; srcid = 7; destid = 9; msg_data = [] }

-- A switch to UDP from the start.
abbrev switched : State
switched = record {
  client = record (started 9) { socket_type = udp_link; cli_udpfd = some 5 };
  pc = outside;
  rx_pc = receiving;
}

switched-Reach : Reach 9 switched
unfolding close_other open_new try_destroy_client_tcp init_client_udp
switched-Reach =
    later (later (later start (choose refl)) (close_first refl)) (open_then (some 5) refl)

Reach-one_socket_example :
    ((check_fd (some 0) ≡ false) ⊎ (check_fd (some 5) ≡ false))
    × ((outside ≡ chosen)
        ⊎ ((check_fd (some 0) ≡ false) ⊎ (udp_link ≡ tcp_link))
          × ((check_fd (some 5) ≡ false) ⊎ (udp_link ≡ udp_link)))
Reach-one_socket_example = Reach-one_socket {endid = 9} {s = switched} switched-Reach

switch_then_registered_example :
    (d : Client) × (s1 s2 : Server rows_only messages) × (answer : Message) × (switch_socket_type
        (some 6)
        answered
        on_udp
      ≡ (
        send_msg_by_tcp (registration on_udp) ∷ [],
        close (some 5) ∷ connect (some 6) ∷ [],
        record d { init_cli_info = true },
      ))
    × (d.init_cli_info ≡ false)
    × (run_task (send_msg_by_tcp (registration on_udp)) d
        ≡ (send (some 6) (registration on_udp) ∷ [], d))
    × (recv_tcp_cli_msg rows_only messages true 8 (Handlers.got (registration on_udp)) server
        ≡ some (true, Handlers.send 8 answer ∷ [], s1))
    × (Handlers.run_task rows_only messages (Handlers.forward_msg_clients to_nine) s1
        ≡ some (Handlers.send 8 to_nine ∷ [], s2))
    × (recv_msg_by_socket (got answer) d ≡ (complete_init_client_info ∷ [], [], d))
    × (run_task complete_init_client_info d ≡ ([], record d { init_cli_info = true }))
switch_then_registered_example =
    switch_then_registered rows_only messages on_udp 6 8 server to_nine refl refl refl (omega arith)
      (omega arith) refl

-- A word that quits is found at the start of the data only, and starts with 122.
abbrev quits : List ℕ → Bool
quits m = get! m 0 == 122

stays : (m : List ℕ) → Padded (65 ∷ 66 ∷ []) m → quits m ≡ false
unfolding get!
stays m p = let e : get! m 0 ≡ 65 = ap (λ l. get! l 0) p.starts in ground arith

-- A read that fails, and a line of two bytes.
abbrev two_reads : List (Option (List ℕ))
two_reads = none ∷ some (65 ∷ 66 ∷ []) ∷ []

line_to_forward_example :
    (m : Message) × (q1 q2 : List Message) × (send_msg_to_other_cli quits 7
        (some (65 ∷ 66 ∷ []) ∷ [])
        on_tcp
      ≡ some (send_msg_by_tcp m ∷ []))
    × (run_task (send_msg_by_tcp m) on_tcp ≡ (send (some 6) m ∷ [], on_tcp))
    × (recv_tcp_cli_msg rows_only messages true 8
          (Handlers.got m)
          (running rows_only messages none server)
        ≡ some (true, [], running rows_only messages (some q1) server))
    × (socket_msg_process_round rows_only messages true to_nine
          (running rows_only messages (some q1) server)
        ≡ some (some (Handlers.forward_msg_clients m), running rows_only messages (some q2) server))
    × (messages.entries q2 ≡ [])
    × (m.srcid ≡ 9)
    × (m.destid ≡ 7)
    × Padded (65 ∷ 66 ∷ []) m.msg_data
line_to_forward_example =
    line_to_forward rows_only messages quits 7 65 (66 ∷ []) on_tcp server none 8 to_nine
      (omega arith) stays refl (λ e. absurd (ground arith))
