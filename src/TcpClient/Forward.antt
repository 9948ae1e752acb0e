-- ===== src/TcpClient/Forward.antt =====
-- A line that one client writes, until the screen of another client.
use practice_project.Prelude.{
  ℕ, ◌≤◌, ◌≡◌, ◌≢◌, List, [], ◌∷◌, none, some, Bool, true, false, arith, length,
}
use practice_project.ListApi.{ListApi}
use practice_project.LcMsg.Fields.{read_int}
use practice_project.LinkQueue.{Mallocs, link_node, update}
use practice_project.LinkQueue.Insert.{FreshMallocs}
use practice_project.ClientInfo.{CliInfoNode, done}
use practice_project.TcpServer.LocalQueue.{msg_buf_size}
use practice_project.TcpServer.Handlers
use practice_project.TcpServer.Handlers.{
  max_msg_len, save_cli_info, add_epoll, Server, accept_new_client, process_events_by_fd,
  process_msg,
}
use practice_project.TcpServer.Handlers.Delivery.{HasEnd, clients_of}
use practice_project.TcpClient.{
  Client, send, shown, sent, tx_to_other_cli_round, rx_from_server, process_from_msg_queue,
  init_cli_info_to_server,
}
use practice_project.TcpClient.Lines.{Sized, Padded, tx_to_other_cli_round-sent}
use practice_project.TcpClient.Registration.{client_registers}
use practice_project.TcpClient.Receive.{process_from_msg_queue-rx_from_server}

module _ (api : ListApi CliInfoNode) where
  -- With memory and complete sends, from buffers of `sizeof(MsgBuf)` bytes: a client b, whose end is an
  -- `int` and not the server's and whose queue was not used before, registers over its connection. Then
  -- a line of at most MAX_MSG_LEN bytes, for which the search finds no word to quit in data of this line
  -- and zeros, and which the user of a client a, whose end the server knew before, writes for b's
  -- end, is one message, which `ProcessMsg` sends unchanged on b's connection, which b takes, and
  -- which b's next `ProcessFromMsgQueue` shows; its data are the line and zeros after it.
  pub line_is_shown :
      (quits : List ℕ → Bool) (line : List ℕ) (a b : Client) (s : Server api) (fd addr : ℕ)
      (made mallocs : Mallocs)
      → Sized a
      → Sized b
      → b.link_queue ≡ none
      → made.node ≢ 0
      → FreshMallocs
          (record b.heap { nodes = update b.heap.nodes made.node (some (link_node 0 0)) })
          msg_buf_size
          mallocs
      → length line ≤ max_msg_len
      → ((bytes : List ℕ) → Padded line bytes → quits bytes ≡ false)
      → length s.rx_buf ≡ msg_buf_size
      → length s.tx_buf ≡ msg_buf_size
      → fd ≢ s.server_fd
      → fd ≢ 0
      → b.end_id ≢ s.end_id
      → HasEnd a.end_id (clients_of api s.clients)
      → (reg answer m : List ℕ) × (a' b1 b2 b3 b4 : Client) × (s1 s2 s3 : Server api)
        × (accept_new_client api (some (fd, addr)) s ≡ some (done, add_epoll fd ∷ [], s1))
        × (init_cli_info_to_server true b ≡ some (true, send b.client_fd reg ∷ [], b1))
        × (process_events_by_fd api
              (record {
                sent = λ k. true;
                accepted = none;
                received = Handlers.got reg;
                made = made;
                mallocs = mallocs;
              })
              fd
              s1
            ≡ some (done, Handlers.send fd answer ∷ [], s2))
        × (rx_from_server made mallocs (Handlers.got answer) b1 ≡ some (true, b2))
        × (tx_to_other_cli_round quits b.end_id (some line) a
            ≡ some (sent (send a.client_fd m ∷ []), a'))
        × (process_msg api (λ k. true) m s2 ≡ some (done, Handlers.send fd m ∷ [], s3))
        × (rx_from_server made mallocs (Handlers.got m) b2 ≡ some (true, b3))
        × (process_from_msg_queue made b3 ≡ some (true, shown m ∷ [], b4))
        × Padded line m
  line_is_shown quits line a b s fd addr made mallocs va vb unused node fresh few goes_on rx_size
        tx_size not_server not_stdin other known =
      let (m, rx, written, head, padded, sized) =
        tx_to_other_cli_round-sent quits b.end_id line a va vb.end_int few goes_on in
      let (reg, answer, s1, s2, s3, registers, accepted, registered, answered, vb2, delivered) =
        client_registers api s fd addr a.end_id b made mallocs m vb rx_size tx_size not_server
          not_stdin other known head in
      let b2 : Client = record b { tx_buf = reg; rx_buf = answer; init_cli_info = true } in
      let not_save : read_int m 0 ≢ save_cli_info = λ e. absurd (omega (arith, e, head.type_at)) in
      let (b3, b4, q, taken, displayed, _, _) =
        process_from_msg_queue-rx_from_server b2 made mallocs m vb2 unused node fresh sized.tx_size
          not_save in
      (
        reg,
        answer,
        m,
        record a { rx_buf = rx; tx_buf = m },
        record b { tx_buf = reg },
        b2,
        b3,
        b4,
        s1,
        s2,
        s3,
        accepted,
        registers,
        registered,
        answered,
        written,
        delivered,
        taken,
        displayed,
        padded,
      )
