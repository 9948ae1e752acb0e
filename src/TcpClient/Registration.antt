-- ===== src/TcpClient/Registration.antt =====
-- A client that registers with the server of TcpServer.
use practice_project.Prelude.{
  ℕ, ◌≡◌, ◌≢◌, ◌∙◌, sym, refl, List, [], ◌∷◌, Option, none, some, Bool, true, false, arith, length,
  replicate, length-replicate, Returns-value,
}
use practice_project.Memory.{write_bytes, write_bytes-Written, write_bytes_whole}
use practice_project.ListApi.{ListApi}
use practice_project.LcMsg.Fields.{read_int}
use practice_project.LcMsg.Heads.{HasHead, set_head, set_head-HasHead}
use practice_project.LinkQueue.{Mallocs}
use practice_project.ClientInfo.{CliInfoNode, done}
use practice_project.TcpServer.LocalQueue.{msg_buf_size}
use practice_project.TcpServer.Handlers
use practice_project.TcpServer.Handlers.{
  max_msg_len, process_msg_type, save_cli_info, server_end_id, add_epoll, Server, accept_new_client,
  process_events_by_fd, process_msg,
}
use practice_project.TcpServer.Handlers.Delivery.{HasEnd, clients_of, connection_then_message}
use practice_project.TcpClient.{
  Client, send, connect, init_client_sock, init_cli_info_to_server, rx_from_server,
}
use practice_project.TcpClient.Lines.{Sized}

-- Once `socket` has returned a descriptor, whether or not the connection was made, no later call of
-- `InitClientSock` succeeds or changes the client.
pub init_client_sock-once :
    (k : ℕ) (linked linked' : Bool) (fd : Option ℕ) (c : Client)
    → c.client_fd ≡ none
    → (c' : Client) × (init_client_sock (some k) linked c ≡ (linked, connect k ∷ [], c'))
      × (init_client_sock fd linked' c' ≡ (false, [], c'))
unfolding init_client_sock
init_client_sock-once k linked linked' fd c unused =
    (record c { client_fd = some k }, rw unused refl, refl)

-- A whole message fills the buffer.
pub received_whole :
    (rx m : List ℕ)
    → length rx ≡ msg_buf_size
    → length m ≡ msg_buf_size
    → (cleared : List ℕ) × (write_bytes rx 12 (replicate max_msg_len 0) ≡ some cleared)
      × (write_bytes cleared 0 m ≡ some m)
received_whole rx m rx_size size =
    let zeros : List ℕ = replicate max_msg_len 0 in
    let len : length zeros ≡ max_msg_len = length-replicate {A = ℕ} max_msg_len 0 in
    let (cleared, e, v) = Returns-value (write_bytes-Written zeros rx 12 (omega arith)) in
    (cleared, e, write_bytes_whole m cleared (size ∙ sym (v.same_length ∙ rx_size)))

rx_from_server-step :
    (made mallocs : Mallocs) (m cleared : List ℕ) (c : Client)
    → write_bytes c.rx_buf 12 (replicate max_msg_len 0) ≡ some cleared
    → write_bytes cleared 0 m ≡ some m
    → read_int m 0 ≡ save_cli_info
    → rx_from_server made mallocs (Handlers.got m) c
      ≡ some (true, record c { rx_buf = m; init_cli_info = true })
unfolding rx_from_server
rx_from_server-step made mallocs m cleared c e e' is_save = rw (e, e', is_save) refl

init_cli_info_to_server-step :
    (c : Client) (tx : List ℕ)
    → set_head save_cli_info c.end_id server_end_id c.tx_buf ≡ some tx
    → init_cli_info_to_server true c
      ≡ some (true, send c.client_fd tx ∷ [], record c { tx_buf = tx })
unfolding init_cli_info_to_server
init_cli_info_to_server-step c tx e = rw e refl

module _ (api : ListApi CliInfoNode) where
  -- With memory and complete sends, from buffers of `sizeof(MsgBuf)` bytes: once the server has accepted
  -- the connection of a client whose end is an `int` and not the server's, what `InitCliInfoToServer`
  -- sends makes the server answer on this connection, the answer sets the client's flag and leaves
  -- its buffers their size, and a
  -- PROCESS_MSG for the client's end, from an end that a client has already, is sent, unchanged, on the connection. The connection is neither
  -- the server's socket nor standard input.
  pub client_registers :
      (s : Server api) (fd addr src : ℕ) (c : Client) (made mallocs : Mallocs) (m : List ℕ)
      → Sized c
      → length s.rx_buf ≡ msg_buf_size
      → length s.tx_buf ≡ msg_buf_size
      → fd ≢ s.server_fd
      → fd ≢ 0
      → c.end_id ≢ s.end_id
      → HasEnd src (clients_of api s.clients)
      → HasHead process_msg_type src c.end_id m
      → (tx answer : List ℕ) × (s1 s2 s3 : Server api) × (init_cli_info_to_server true c
          ≡ some (true, send c.client_fd tx ∷ [], record c { tx_buf = tx }))
        × (accept_new_client api (some (fd, addr)) s ≡ some (done, add_epoll fd ∷ [], s1))
        × (process_events_by_fd api
              (record {
                sent = λ k. true;
                accepted = none;
                received = Handlers.got tx;
                made = made;
                mallocs = mallocs;
              })
              fd
              s1
            ≡ some (done, Handlers.send fd answer ∷ [], s2))
        × (rx_from_server made mallocs (Handlers.got answer) (record c { tx_buf = tx })
            ≡ some (true, record c { tx_buf = tx; rx_buf = answer; init_cli_info = true }))
        × Sized (record c { tx_buf = tx; rx_buf = answer; init_cli_info = true })
        × (process_msg api (λ k. true) m s2 ≡ some (done, Handlers.send fd m ∷ [], s3))
  client_registers s fd addr src c made mallocs m v rx_size tx_size not_server not_stdin other known
        head =
      let (tx, written, (tx_head, same)) = Returns-value (
        set_head-HasHead save_cli_info c.end_id server_end_id c.tx_buf (omega arith) v.end_int
          (omega arith) (omega (arith, v.tx_size))) in
      let filled : write_bytes s.rx_buf 0 tx ≡ some tx =
        write_bytes_whole tx s.rx_buf (same ∙ v.tx_size ∙ sym rx_size) in
      let (s1, s2, s3, answer, accepted, registered, a_head, a_size, delivered) =
        connection_then_message api s fd addr c.end_id src made mallocs tx tx m not_server not_stdin
          filled tx_head.type_at tx_head.src_at v.end_int other (omega arith) known head in
      let (cleared, e, e') = received_whole c.rx_buf answer v.rx_size (a_size ∙ tx_size) in
      (
        tx,
        answer,
        s1,
        s2,
        s3,
        init_cli_info_to_server-step c tx written,
        accepted,
        registered,
        rx_from_server-step made mallocs answer cleared (record c { tx_buf = tx }) e e'
            a_head.type_at,
        record { rx_size = a_size ∙ tx_size; tx_size = same ∙ v.tx_size; end_int = v.end_int },
        delivered,
      )
