-- ===== src/TcpClient/Tests.antt =====
-- Client 9 writes a line of two bytes to client 7.
use practice_project.Prelude.{
  ℕ, ◌≡◌, refl, List, [], ◌∷◌, none, some, Bool, true, false, ap, ◌==◌, arith, replicate,
  length-replicate,
}
use practice_project.Array.{get! }
use practice_project.ListApi.{ListApi, plain_lists}
use practice_project.LinkQueue.{Heap, Mallocs, link_node, update}
use practice_project.LinkQueue.Insert.{FreshMallocs}
use practice_project.ClientInfo.{CliInfoNode, done}
use practice_project.TcpServer.LocalQueue.{msg_buf_size}
use practice_project.TcpServer.Handlers
use practice_project.TcpServer.Handlers.{
  process_msg_type, add_epoll, Server, accept_new_client, process_events_by_fd, process_msg,
}
use practice_project.TcpClient.{
  Client, send, shown, sent, tx_to_other_cli_round, rx_from_server, process_from_msg_queue,
  init_cli_info_to_server,
}
use practice_project.TcpClient.Lines.{Sized, Padded}
use practice_project.TcpClient.Forward.{line_is_shown}

abbrev clients : ListApi CliInfoNode
clients = plain_lists CliInfoNode

abbrev zeros : List ℕ
zeros = replicate msg_buf_size 0

abbrev no_heap : Heap
no_heap = record { nodes = λ a. none; blocks = λ d. none }

abbrev first_node : Mallocs
first_node = record { node = 1; block = 0; junk = [] }

abbrev next_node : Mallocs
next_node = record { node = 2; block = 1; junk = zeros }

next_node-FreshMallocs :
    FreshMallocs
      (record no_heap { nodes = update no_heap.nodes 1 (some (link_node 0 0)) })
      msg_buf_size
      next_node
next_node-FreshMallocs = record {
  node_ok = omega arith;
  block_ok = omega arith;
  node_free = refl;
  block_free = refl;
  junk_size = length-replicate {A = ℕ} msg_buf_size 0;
}

abbrev server : Server clients
server = record {
  clients = some (record { fd = 6; cli_endid = 9; addr = 60 } ∷ []);
  link_queue = none;
  heap = no_heap;
  rx_buf = zeros;
  tx_buf = zeros;
  end_id = 0;
  server_fd = 3;
}

abbrev client_at : ℕ → Client
client_at e = record {
  client_fd = some 3;
  init_cli_info = false;
  end_id = e;
  rx_buf = zeros;
  tx_buf = zeros;
  link_queue = none;
  heap = no_heap;
}

nine-Sized : Sized (client_at 9)
nine-Sized = record {
  rx_size = length-replicate {A = ℕ} msg_buf_size 0;
  tx_size = length-replicate {A = ℕ} msg_buf_size 0;
  end_int = omega arith;
}

seven-Sized : Sized (client_at 7)
seven-Sized = record {
  rx_size = length-replicate {A = ℕ} msg_buf_size 0;
  tx_size = length-replicate {A = ℕ} msg_buf_size 0;
  end_int = omega arith;
}

abbrev line : List ℕ
line = 65 ∷ 66 ∷ []

-- A word that quits is found at the start of the data only, and starts with 33.
abbrev quits : List ℕ → Bool
quits m = get! m 12 == 33

stays : (m : List ℕ) → Padded line m → quits m ≡ false
unfolding get!
stays m p = let e : get! m 12 ≡ 65 = ap (λ l. get! l 0) p.starts in ground arith

line_is_shown_example :
    (reg answer m : List ℕ) × (a' b1 b2 b3 b4 : Client) × (s1 s2 s3 : Server clients)
    × (accept_new_client clients (some (5, 50)) server ≡ some (done, add_epoll 5 ∷ [], s1))
    × (init_cli_info_to_server true (client_at 7) ≡ some (true, send (some 3) reg ∷ [], b1))
    × (process_events_by_fd clients
          (record {
            sent = λ k. true;
            accepted = none;
            received = Handlers.got reg;
            made = first_node;
            mallocs = next_node;
          })
          5
          s1
        ≡ some (done, Handlers.send 5 answer ∷ [], s2))
    × (rx_from_server first_node next_node (Handlers.got answer) b1 ≡ some (true, b2))
    × (tx_to_other_cli_round quits 7 (some line) (client_at 9)
        ≡ some (sent (send (some 3) m ∷ []), a'))
    × (process_msg clients (λ k. true) m s2 ≡ some (done, Handlers.send 5 m ∷ [], s3))
    × (rx_from_server first_node next_node (Handlers.got m) b2 ≡ some (true, b3))
    × (process_from_msg_queue first_node b3 ≡ some (true, shown m ∷ [], b4))
    × Padded line m
line_is_shown_example =
    line_is_shown clients quits line (client_at 9) (client_at 7) server 5 50 first_node next_node
      nine-Sized seven-Sized refl (omega arith) next_node-FreshMallocs (omega arith) stays
      (length-replicate {A = ℕ} msg_buf_size 0) (length-replicate {A = ℕ} msg_buf_size 0)
      (omega arith) (omega arith) (omega arith) (record { fd = 6; cli_endid = 9; addr = 60 }, refl)
