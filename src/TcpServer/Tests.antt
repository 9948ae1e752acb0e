-- ===== src/TcpServer/Tests.antt =====
-- A server whose clients and queue were not used before.
use practice_project.Prelude.{
  ℕ, ◌≡◌, refl, List, [], ◌∷◌, none, some, true, arith, set, replicate, length-replicate, length,
  ◌==◌,
}
use practice_project.Array.{get! }
use practice_project.Memory.{write_bytes, bytes_at, Written}
use practice_project.ListApi.{ListApi, plain_lists}
use practice_project.LcMsg.Fields.{read_int}
use practice_project.LcMsg.Heads.{HasHead}
use practice_project.LinkQueue.{Heap, LinkQueue, Mallocs, success, link_node, update}
use practice_project.LinkQueue.Chain.{Holds}
use practice_project.LinkQueue.Insert.{FreshMallocs}
use practice_project.ClientInfo.{CliInfoNode, done, failed}
use practice_project.TcpServer.LocalQueue.{
  msg_buf_size, en_msg_link_queue, de_msg_link_queue, de_msg_link_queue-en_msg_link_queue,
}
use practice_project.TcpServer.Handlers.{
  process_msg_type, save_cli_info, server_end_id, Effect, send, add_epoll, got, Server,
  accept_new_client, process_events_by_fd, process_msg, broadcast_all_client, client_msg_en_queue,
}
use practice_project.TcpServer.Handlers.Delivery.{connection_then_message}
use practice_project.TcpServer.Thread.{process_cli_msg_round, queued_then_sent}
use practice_project.TcpServer.Handlers.Broadcast.{SentTo, broadcast_all_client-SentTo}

abbrev clients : ListApi CliInfoNode
clients = plain_lists CliInfoNode

abbrev zeros : List ℕ
zeros = replicate msg_buf_size 0

abbrev no_heap : Heap
no_heap = record { nodes = λ a. none; blocks = λ d. none }

abbrev first_node : Mallocs
first_node = record { node = 1; block = 0; junk = [] }

abbrev next_node : Mallocs
next_node = record { node = 2; block = 1; junk = zeros }

next_node-FreshMallocs :
    FreshMallocs
      (record no_heap { nodes = update no_heap.nodes 1 (some (link_node 0 0)) })
      msg_buf_size
      next_node
next_node-FreshMallocs = record {
  node_ok = omega arith;
  block_ok = omega arith;
  node_free = refl;
  block_free = refl;
  junk_size = length-replicate {A = ℕ} msg_buf_size 0;
}

abbrev server : Server clients
server = record {
  clients = none;
  link_queue = none;
  heap = no_heap;
  rx_buf = zeros;
  tx_buf = zeros;
  end_id = 0;
  server_fd = 3;
}

-- End 9 is registered, end 7 registers, and 9 writes to it.
abbrev nine : List CliInfoNode
nine = record { fd = 6; cli_endid = 9; addr = 60 } ∷ []

abbrev with_nine : Server clients
with_nine = record server { clients = some nine }

abbrev reg : List ℕ
reg = set (set zeros 0 1) 4 7

abbrev reg_bytes : List ℕ
reg_bytes = 1 ∷ 0 ∷ 0 ∷ 0 ∷ 7 ∷ []

abbrev message : List ℕ
message = set (set zeros 4 9) 8 7

reg-written : write_bytes zeros 0 reg_bytes ≡ some reg
unfolding write_bytes
reg-written = refl

reg-type : read_int reg 0 ≡ save_cli_info
unfolding get!
reg-type = refl

reg-src : read_int reg 4 ≡ 7
unfolding get!
reg-src = refl

message-HasHead : HasHead process_msg_type 9 7 message
unfolding get!
message-HasHead = record { type_at = refl; src_at = refl; dest_at = refl }

connection_then_message_example :
    (s1 s2 s3 : Server clients) × (tx : List ℕ) × (accept_new_client clients
        (some (5, 50))
        with_nine
      ≡ some (done, add_epoll 5 ∷ [], s1))
    × (process_events_by_fd clients
          (record {
            sent = λ k. true;
            accepted = none;
            received = got reg_bytes;
            made = first_node;
            mallocs = next_node;
          })
          5
          s1
        ≡ some (done, send 5 tx ∷ [], s2))
    × HasHead save_cli_info server_end_id 7 tx
    × (length tx ≡ length with_nine.tx_buf)
    × (process_msg clients (λ k. true) message s2 ≡ some (done, send 5 message ∷ [], s3))
connection_then_message_example =
    connection_then_message clients with_nine 5 50 7 9 first_node next_node reg_bytes reg message
      (omega arith) (omega arith) reg-written reg-type reg-src (omega arith) (omega arith)
      (omega arith) (record { fd = 6; cli_endid = 9; addr = 60 }, refl) message-HasHead

-- Of two clients the first one's connection does not take all bytes.
abbrev two : List CliInfoNode
two = record { fd = 5; cli_endid = 7; addr = 50 } ∷ record { fd = 6; cli_endid = 9; addr = 60 } ∷ []

broadcast_all_client-SentTo_example :
    (effects : List Effect) × (s' : Server clients) × (buf : List ℕ) × (broadcast_all_client clients
        (λ fd. fd == 6)
        (got (4 ∷ 2 ∷ []))
        (record server { clients = some two })
      ≡ some (failed, effects, s'))
    × SentTo buf two effects
    × (bytes_at buf 12 2 ≡ 4 ∷ 2 ∷ [])
broadcast_all_client-SentTo_example =
    broadcast_all_client-SentTo clients (λ fd. fd == 6) (4 ∷ 2 ∷ [])
      (record server { clients = some two }) two refl (omega arith, (omega arith, tt))
      (length-replicate {A = ℕ} msg_buf_size 0) (length-replicate {A = ℕ} msg_buf_size 0)
      (omega arith)

-- A message of end 9, on descriptor 6, to end 7.
abbrev one : List CliInfoNode
one = record { fd = 5; cli_endid = 7; addr = 50 } ∷ nine

abbrev with_one : Server clients
with_one = record server { clients = some one }

queued_then_sent_example :
    (s1 s2 : Server clients) × (q : LinkQueue) × (client_msg_en_queue clients
        (λ k. true)
        first_node
        next_node
        6
        (got message)
        with_one
      ≡ some (done, [], s1))
    × (process_cli_msg_round clients (λ k. true) first_node zeros s1
        ≡ some (done, send 5 message ∷ [], s2))
    × (s2.link_queue ≡ some q)
    × Holds s2.heap q []
queued_then_sent_example =
    queued_then_sent clients with_one one (record { fd = 5; cli_endid = 7; addr = 50 }) nine 6 9
      first_node next_node message zeros (record { items = refl }) refl refl (omega arith)
      next_node-FreshMallocs refl (length-replicate {A = ℕ} msg_buf_size 0)
      (length-replicate {A = ℕ} msg_buf_size 0) (record { fd = 6; cli_endid = 9; addr = 60 }, refl)
      message-HasHead (omega arith)

de_msg_link_queue-en_msg_link_queue_example :
    (h1 h2 : Heap) × (q1 q2 : LinkQueue) × (o : List ℕ) × (en_msg_link_queue true first_node
        (set zeros 0 9)
        next_node
        none
        no_heap
      ≡ some ((success, some q1), h1))
    × (de_msg_link_queue true first_node (some zeros) (some q1) h1
        ≡ some ((success, some o, some q2), h2))
    × Written zeros 0 (set zeros 0 9) o
    × Holds h2 q2 []
de_msg_link_queue-en_msg_link_queue_example =
    de_msg_link_queue-en_msg_link_queue no_heap first_node next_node (set zeros 0 9) zeros
      (omega arith) next_node-FreshMallocs refl (omega arith)
