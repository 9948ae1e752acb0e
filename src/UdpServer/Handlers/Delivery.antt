-- ===== src/UdpServer/Handlers/Delivery.antt =====
-- A message from one client to another, from its arrival to its departure.
use practice_project.Prelude.{
  ℕ, ◌^◌, ◌<◌, ◌≡◌, ◌≢◌, List, [], ◌∷◌, ◌++◌, some, true, false, arith, ◌==◌, if◌then◌else◌, length,
  length-replicate, Returns-value,
}
use practice_project.Memory.{write_bytes}
use practice_project.ListApi.{ListApi}
use practice_project.Statics.{Static, live, freed}
use practice_project.LcMsg.{lc_msg_size, save_cli_info, data_msg, code}
use practice_project.LcMsg.Fields.{read_int}
use practice_project.LcMsg.Heads.{HasHead, set_head-HasHead}
use practice_project.UdpServer.Clients.{ClisInfoListNode}
use practice_project.UdpServer.Clients.Lookup.{
  IsUsable, lookup_id, add_node_to_cli_info_list-lookup, get_cli_info_node_by_cli_id-lookup,
}
use practice_project.UdpServer.Queue.{waiting, en_srv_msg_queue-waiting, de_srv_msg_queue-waiting}
use practice_project.UdpServer.Handlers.{
  Effect, sent, server_end_id, zero_msg, Server, porcess_udp_msg, srv_msg_process_task,
  srv_msg_process_round,
}

module _ (clients : ListApi ClisInfoListNode) (messages : ListApi (List ℕ)) where
  -- The static pointers lead to nothing that has been freed.
  abbrev pub IsRunning : Server clients messages → Type 0
  IsRunning s = IsUsable clients s.infos × (s.queue ≢ freed)

  -- A registration for this server, with memory, by an end that is an `int`: the handler answers
  -- the sender with SaveCliInfo from the server to that end, and from then on the end's address is
  -- the sender's, while the other ends and the queue are as before.
  pub porcess_udp_msg-registers :
      (s : Server clients messages) (x : ℕ) (xs rx : List ℕ) (end addr : ℕ)
      → IsRunning s
      → write_bytes zero_msg 0 (x ∷ xs) ≡ some rx
      → HasHead (code save_cli_info) end s.lc_end_id rx
      → end < 2 ^ 32
      → s.lc_end_id < 2 ^ 32
      → (tx : List ℕ) × (infos : Static clients.Head) × (porcess_udp_msg clients messages true
            (some (x ∷ xs, addr))
            s
          ≡ some (true, sent s.udp_fd tx addr ∷ [], record s { infos = infos }))
        × HasHead (code save_cli_info) s.lc_end_id end tx
        × IsUsable clients infos
        × ((k : ℕ)
            → lookup_id clients k infos ≡ (
                if end == k
                then some (record { cli_id = end; addr = addr })
                else lookup_id clients k s.infos))
  unfolding porcess_udp_msg
  porcess_udp_msg-registers s x xs rx end addr (ok, _) got head small small' =
      let (infos, made, usable, found) =
        add_node_to_cli_info_list-lookup clients end addr s.infos ok in
      let zeros : length zero_msg ≡ lc_msg_size = length-replicate {A = ℕ} lc_msg_size 0 in
      let (tx, written, (tx_head, _)) = Returns-value (
        set_head-HasHead (code save_cli_info) s.lc_end_id end zero_msg (omega arith) small' small
          (omega (arith, zeros))) in
      let mine : (read_int rx 8 == s.lc_end_id) ≡ true = ground (arith, head.dest_at) in
      (tx, infos, rw (got, head.type_at, mine, head.src_at, made, written), tx_head, usable, found)

  -- A DataMsg, with memory: the handler answers nothing and puts the message behind those that wait.
  pub porcess_udp_msg-keeps :
      (s : Server clients messages) (x : ℕ) (xs rx : List ℕ) (src dest addr : ℕ)
      → IsRunning s
      → write_bytes zero_msg 0 (x ∷ xs) ≡ some rx
      → HasHead (code data_msg) src dest rx
      → (q : messages.Head) × (porcess_udp_msg clients messages true (some (x ∷ xs, addr)) s
          ≡ some (true, [], record s { queue = live q }))
        × (messages.entries q ≡ waiting messages s.queue ++ rx ∷ [])
  unfolding porcess_udp_msg
  porcess_udp_msg-keeps s x xs rx src dest addr (_, ok) got head =
      let (q, put, items) = en_srv_msg_queue-waiting messages rx rx s.queue ok in
      (q, rw (got, head.type_at, put), items)

  -- From a server whose queue is empty: once an end has registered from an address, a DataMsg to
  -- it, whoever sends it and from wherever, passes the queue and is sent, unchanged, to the address
  -- of the registration. (With memory; the end is an `int` and not the server's.)
  pub registration_then_message :
      (s : Server clients messages) (x y : ℕ) (xs ys reg rx buf : List ℕ) (end src addr from : ℕ)
      → IsRunning s
      → waiting messages s.queue ≡ []
      → write_bytes zero_msg 0 (x ∷ xs) ≡ some reg
      → HasHead (code save_cli_info) end s.lc_end_id reg
      → end < 2 ^ 32
      → s.lc_end_id < 2 ^ 32
      → end ≢ server_end_id
      → write_bytes zero_msg 0 (y ∷ ys) ≡ some rx
      → HasHead (code data_msg) src end rx
      → (s1 s2 s3 s4 : Server clients messages) × (answer : List Effect) × (porcess_udp_msg clients
            messages true
            (some (x ∷ xs, addr))
            s
          ≡ some (true, answer, s1))
        × (porcess_udp_msg clients messages true (some (y ∷ ys, from)) s1 ≡ some (true, [], s2))
        × (srv_msg_process_round clients messages true buf s2 ≡ some (some rx, s3))
        × (srv_msg_process_task clients messages true (some rx) s3
            ≡ some (true, sent s.udp_fd rx addr ∷ [], s4))
        × (waiting messages s4.queue ≡ [])
  unfolding srv_msg_process_round srv_msg_process_task
  registration_then_message s x y xs ys reg rx buf end src addr from run none_in got head small
        small' other got' head' =
      let (tx, infos, registered, tx_head, usable, found) =
        porcess_udp_msg-registers s x xs reg end addr run got head small small' in
      let s1 : Server clients messages = record s { infos = infos } in
      let (q, kept, items) =
        porcess_udp_msg-keeps s1 y ys rx src end from (usable, run.1) got' head' in
      let alone : messages.entries q ≡ rx ∷ [] = rw none_in at items in
      let (r, o, q', taken, (ret, same, rest)) =
        de_srv_msg_queue-waiting messages buf (live q) (rx ∷ []) (λ e. absurd (ground arith))
          alone in
      let (infos', known, _, _) = get_cli_info_node_by_cli_id-lookup clients end infos usable in
      let mine : lookup_id clients end infos ≡ some (record { cli_id = end; addr = addr }) =
        ground (arith, found end) in
      let not_server : (end == server_end_id) ≡ false = ground arith in
      (
        s1,
        record s1 { queue = live q },
        record s1 { queue = live q' },
        record s1 { queue = live q'; infos = infos' },
        sent s.udp_fd tx addr ∷ [],
        registered,
        kept,
        rw (taken, ret, same),
        rw (head'.type_at, head'.dest_at, not_server, known, mine),
        rest,
      )
