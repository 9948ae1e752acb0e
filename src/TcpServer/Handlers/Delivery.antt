-- ===== src/TcpServer/Handlers/Delivery.antt =====
-- A client that connects and registers, and a message to it.
use practice_project.Prelude.{
  ℕ, ◌^◌, ◌≤◌, ◌<◌, ◌≡◌, ◌≢◌, refl, List, [], ◌∷◌, Option, none, some, true, false, arith, ◌==◌,
  length, Returns-value, ◌∙◌,
}
use practice_project.Memory.{write_bytes}
use practice_project.ListApi.{ListApi}
use practice_project.LcMsg.Fields.{read_int}
use practice_project.LcMsg.Heads.{HasHead, set_head-HasHead}
use practice_project.LinkQueue.{Mallocs}
use native.Mathlib.Decide.{ℕ_discrete}
use practice_project.ClientInfo.Lookup.{find_end, find_end-index_by_end_id}
use practice_project.ClientInfo.{
  CliInfoNode, CliRet, done, init_cli_info_manager, get_cli_info_manager, add_to_cli_info,
  get_one_cli_info_by_fd, get_one_cli_info_by_end_id, save_one_cli_info_by_fd, save_index,
}
use practice_project.TcpServer.Handlers.{
  process_msg_type, save_cli_info, server_end_id, Effect, send, add_epoll, got, Server,
  send_init_info, send_init_info_to_cli_by_fd, accept_new_client, client_msg_en_queue,
  display_msg_buf, pass_msg, process_msg, Outside, process_events_by_fd,
}

-- A client of the list has the end.
abbrev pub HasEnd : ℕ → List CliInfoNode → Type 0
HasEnd n cs = (c : CliInfoNode) × (find_end n cs ≡ some c)

HasEnd-cons : (n : ℕ) (c : CliInfoNode) (cs : List CliInfoNode) → HasEnd n cs → HasEnd n (c ∷ cs)
HasEnd-cons n c cs (x, e) = elim (ℕ_discrete c.cli_endid n) [
  | yes same ↦ (c, ground arith)
  | no other ↦ (x, ground arith)
]

module _ (api : ListApi CliInfoNode) where
  -- The clients of the server, also before the list is made.
  abbrev pub clients_of : Option api.Head → List CliInfoNode
  clients_of none = api.entries api.init
  clients_of (some h) = api.entries h

  -- The list with the clients, the first one apart.
  pub record Listed (c : CliInfoNode) (rest : List CliInfoNode) (h : api.Head) : Type 0 where
    pub items : api.entries h ≡ c ∷ rest

  add_to_cli_info-first :
      (c : CliInfoNode) (m : Option api.Head)
      → (h : api.Head) × (add_to_cli_info api true true (some c) m ≡ some (done, some h))
        × (api.entries h ≡ record c { cli_endid = 0 } ∷ clients_of m)
  unfolding add_to_cli_info get_cli_info_manager init_cli_info_manager
  add_to_cli_info-first c none =
      let new : CliInfoNode = record c { cli_endid = 0 } in
      (api.add new api.init, refl, api.entries-add new api.init)
  add_to_cli_info-first c (some h) =
      let new : CliInfoNode = record c { cli_endid = 0 } in
      (api.add new h, refl, api.entries-add new h)

  accept_new_client-Listed :
      (s : Server api) (fd addr : ℕ)
      → (h : api.Head) × (accept_new_client api (some (fd, addr)) s
          ≡ some (done, add_epoll fd ∷ [], record s { clients = some h }))
        × Listed (record { fd = fd; cli_endid = 0; addr = addr }) (clients_of s.clients) h
  unfolding accept_new_client
  accept_new_client-Listed s fd addr =
      let c : CliInfoNode = record { fd = fd; cli_endid = 0; addr = addr } in
      let (h, e, items) = add_to_cli_info-first c s.clients in
      (h, rw e refl, record { items = items })

  client_msg_en_queue-Listed :
      (s : Server api) (h : api.Head) (c : CliInfoNode) (rest : List CliInfoNode) (e : ℕ)
      (made m : Mallocs) (bytes rx : List ℕ)
      → Listed c rest h
      → write_bytes s.rx_buf 0 bytes ≡ some rx
      → read_int rx 0 ≡ save_cli_info
      → read_int rx 4 ≡ e
      → e < 2 ^ 32
      → 12 ≤ length s.tx_buf
      → (h' : api.Head) × (tx : List ℕ) × (client_msg_en_queue api
            (λ k. true)
            made
            m
            c.fd
            (got bytes)
            (record s { clients = some h })
          ≡ some
              (done, send c.fd tx ∷ [], record s { clients = some h'; rx_buf = rx; tx_buf = tx }))
        × HasHead save_cli_info server_end_id e tx
        × (length tx ≡ length s.tx_buf)
        × Listed (record c { cli_endid = e }) rest h'
  unfolding client_msg_en_queue save_one_cli_info_by_fd save_index send_init_info_to_cli_by_fd
      send_init_info get_cli_info_manager
  client_msg_en_queue-Listed s h c rest e made m bytes rx l filled is_save src small room =
      let new : CliInfoNode = record c { cli_endid = e } in
      let h' = api.put 0 new h in
      let items : api.entries h' ≡ new ∷ rest = rw (api.entries-put 0 new h, l.items) refl in
      let (tx, written, (head, same)) = Returns-value (
        set_head-HasHead save_cli_info server_end_id e s.tx_buf (omega arith) (omega arith) small
          room) in
      let first : (c.fd == c.fd) ≡ true = ground arith in
      (
        h',
        tx,
        rw (filled, is_save, src, l.items, first, l.items, items, first, written) refl,
        head,
        same,
        record { items = items },
      )

  display_msg_buf-Listed :
      (s : Server api) (h : api.Head) (c : CliInfoNode) (rest : List CliInfoNode) (src : ℕ)
      (m : List ℕ)
      → Listed c rest h
      → HasEnd src (c ∷ rest)
      → HasHead process_msg_type src c.cli_endid m
      → c.cli_endid ≢ s.end_id
      → display_msg_buf api m (record s { clients = some h }) ≡ some (record s { clients = some h })
  unfolding display_msg_buf get_one_cli_info_by_end_id get_cli_info_manager
  display_msg_buf-Listed s h c rest src m l (x, known) head other =
      let not_server : (c.cli_endid == s.end_id) ≡ false = ground arith in
      let first : (c.cli_endid == c.cli_endid) ≡ true = ground arith in
      let found_src = find_end-index_by_end_id src (c ∷ rest) ∙ known in
      rw (head.dest_at, not_server, head.src_at, l.items, found_src, first) refl

  pass_msg-Listed :
      (s : Server api) (h : api.Head) (c : CliInfoNode) (rest : List CliInfoNode) (src : ℕ)
      (m : List ℕ)
      → Listed c rest h
      → HasHead process_msg_type src c.cli_endid m
      → c.cli_endid ≢ s.end_id
      → pass_msg api (λ k. true) m (record s { clients = some h })
        ≡ some (done, send c.fd m ∷ [], record s { clients = some h })
  unfolding pass_msg get_one_cli_info_by_end_id get_cli_info_manager
  pass_msg-Listed s h c rest src m l head other =
      let not_server : (c.cli_endid == s.end_id) ≡ false = ground arith in
      let first : (c.cli_endid == c.cli_endid) ≡ true = ground arith in
      rw (head.dest_at, not_server, l.items, first) refl

  pub process_msg-Listed :
      (s : Server api) (h : api.Head) (c : CliInfoNode) (rest : List CliInfoNode) (src : ℕ)
      (m : List ℕ)
      → Listed c rest h
      → HasEnd src (c ∷ rest)
      → HasHead process_msg_type src c.cli_endid m
      → c.cli_endid ≢ s.end_id
      → process_msg api (λ k. true) m (record s { clients = some h })
        ≡ some (done, send c.fd m ∷ [], record s { clients = some h })
  unfolding process_msg
  process_msg-Listed s h c rest src m l known head other =
      rw
        (
          head.type_at,
          display_msg_buf-Listed s h c rest src m l known head other,
          pass_msg-Listed s h c rest src m l head other,
        )
        refl

  -- An event of the descriptor of the first client of the list.
  process_events_by_fd-Listed :
      (s : Server api) (h : api.Head) (c : CliInfoNode) (rest : List CliInfoNode) (o : Outside api)
      (ret : CliRet) (effects : List Effect) (s' : Server api)
      → Listed c rest h
      → c.fd ≢ s.server_fd
      → c.fd ≢ 0
      → client_msg_en_queue api o.sent o.made o.mallocs c.fd o.received
          (record s { clients = some h })
        ≡ some (ret, effects, s')
      → process_events_by_fd api o c.fd (record s { clients = some h }) ≡ some (done, effects, s')
  unfolding process_events_by_fd get_one_cli_info_by_fd get_cli_info_manager
  process_events_by_fd-Listed s h c rest o ret effects s' l not_server not_stdin e =
      let no_accept : (c.fd == s.server_fd) ≡ false = ground arith in
      let no_read : (c.fd == 0) ≡ false = ground arith in
      let first : (c.fd == c.fd) ≡ true = ground arith in
      rw (no_accept, no_read, l.items, first, e) refl

  -- With memory and complete sends, after a client has been accepted and, on its connection, has
  -- registered with an end that is an `int` and not the server's, it has got SAVE_CLI_INFO with that
  -- end, of the size of the server's buffer, and a PROCESS_MSG for the end, from
  -- an end that a client has already, is sent, unchanged, on this connection, also if an earlier
  -- client had the same end. The connection is neither the server's socket nor standard input.
  pub connection_then_message :
      (s : Server api) (fd addr e src : ℕ) (made mallocs : Mallocs) (bytes rx m : List ℕ)
      → fd ≢ s.server_fd
      → fd ≢ 0
      → write_bytes s.rx_buf 0 bytes ≡ some rx
      → read_int rx 0 ≡ save_cli_info
      → read_int rx 4 ≡ e
      → e < 2 ^ 32
      → e ≢ s.end_id
      → 12 ≤ length s.tx_buf
      → HasEnd src (clients_of s.clients)
      → HasHead process_msg_type src e m
      → (s1 s2 s3 : Server api) × (tx : List ℕ) × (accept_new_client api (some (fd, addr)) s
          ≡ some (done, add_epoll fd ∷ [], s1))
        × (process_events_by_fd api
              (record {
                sent = λ k. true;
                accepted = none;
                received = got bytes;
                made = made;
                mallocs = mallocs;
              })
              fd
              s1
            ≡ some (done, send fd tx ∷ [], s2))
        × HasHead save_cli_info server_end_id e tx
        × (length tx ≡ length s.tx_buf)
        × (process_msg api (λ k. true) m s2 ≡ some (done, send fd m ∷ [], s3))
  connection_then_message s fd addr e src made mallocs bytes rx m not_server not_stdin filled
        is_save at small other room known head =
      let o : Outside api = record {
        sent = λ k. true;
        accepted = none;
        received = got bytes;
        made = made;
        mallocs = mallocs;
      } in
      let c : CliInfoNode = record { fd = fd; cli_endid = 0; addr = addr } in
      let c' : CliInfoNode = record c { cli_endid = e } in
      let rest = clients_of s.clients in
      let (h, accepted, l) = accept_new_client-Listed s fd addr in
      let (h', tx, registered, answer, same, l') =
        client_msg_en_queue-Listed s h c rest e made mallocs bytes rx l filled is_save at small
          room in
      let s2 : Server api = record s { clients = some h'; rx_buf = rx; tx_buf = tx } in
      (
        record s { clients = some h },
        s2,
        s2,
        tx,
        accepted,
        process_events_by_fd-Listed s h c rest o done (send fd tx ∷ []) s2 l not_server not_stdin
            registered,
        answer,
        same,
        process_msg-Listed s2 h' c' rest src m l' (HasEnd-cons src c' rest known) head other,
      )
