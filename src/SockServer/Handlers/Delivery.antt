-- ===== src/SockServer/Handlers/Delivery.antt =====
-- A message from one client to another, from its arrival to its departure.
use practice_project.Prelude.{
  ℕ, ◌^◌, ◌<◌, ◌%◌, ◌≡◌, ◌≢◌, refl, [], ◌∷◌, Option, none, some, true, false, arith, ◌==◌,
  if◌then◌else◌, lt→ltb,
}
use practice_project.ListApi.{ListApi}
use practice_project.SqlApi.{Row, SqlApi}
use practice_project.SockServer.Database.{
  SocketHandle, unset, tcp_link, udp_link, row_handle, create_cli_sql_database,
  add_tcp_cli_to_database, add_udp_cli_to_database,
}
use practice_project.SockServer.Database.Rows.{find_row}
use practice_project.SockServer.Database.Table.{
  table, add_tcp_cli_to_database-find_row, add_udp_cli_to_database-new,
  add_udp_cli_to_database-known, get_cli_by_endid-found,
}
use practice_project.SockServer.Queue.{waiting, en_srv_msg_queue-next, de_srv_msg_queue-next}
use practice_project.SockServer.Handlers.{
  Message, save_cli_info, answer_msg, send, sendto, got, forward_to, dispaly_msg_package,
  forward_msg_clients, Server, recv_tcp_cli_msg, recv_udp_cli_msg, forward_msg, run_task,
  socket_msg_process_round,
}

module _ (sql : SqlApi) (messages : ListApi Message) where
  -- A server whose queue is not destroyed.
  abbrev pub running : Option messages.Head → Server sql messages → Server sql messages
  running q s = record s { queue = record { queue = q; mutex_ = true } }

  -- With memory, a message that is no registration gets no answer and is the next that the queue's
  -- thread takes, before those that waited, which still wait; a message for the server is shown,
  -- one for another end is handed to `forward_msg_clients`.
  pub arrival_to_task :
      (s : Server sql messages) (q : Option messages.Head) (fd : ℕ) (m buf : Message)
      → m.msg_type ≢ save_cli_info
      → (q1 q2 : messages.Head) × (recv_tcp_cli_msg sql messages true fd (got m) (running q s)
          ≡ some (true, [], running (some q1) s))
        × (socket_msg_process_round sql messages true buf (running (some q1) s)
            ≡ some (
              some (if m.destid == s.endid then dispaly_msg_package m else forward_msg_clients m),
              running (some q2) s,
            ))
        × (messages.entries q2 ≡ waiting messages q)
  unfolding recv_tcp_cli_msg socket_msg_process_round
  arrival_to_task s q fd m buf not_save =
      let (q1, put, items) = en_srv_msg_queue-next messages m q in
      let (q2, taken, rest) =
        de_srv_msg_queue-next messages true buf m (waiting messages q) q1 items in
      let data_msg : (m.msg_type == save_cli_info) ≡ false = ground arith in
      (q1, q2, rw (data_msg, put), rw taken, rest)

  -- What the pool does with a message to an end whose row gives a link: the message goes to the
  -- link, unchanged.
  pub forward_msg-linked :
      (s : Server sql messages) (m : Message) (r : Row) (h : SocketHandle)
      → find_row m.destid (table sql s.db) ≡ some r
      → row_handle r ≡ some h
      → h ≢ unset
      → run_task sql messages (forward_msg_clients m) s
        ≡ some (forward_to h m, record s { db = some (create_cli_sql_database sql s.db) })
  unfolding run_task forward_msg
  forward_msg-linked s m r h known gives set =
      rw (get_cli_by_endid-found sql m.destid r h s.db known gives set) refl

  -- After an end has registered over TCP, known or not before, a message to it is sent on the
  -- connection of the registration; the descriptor is an `int`.
  pub tcp_registration_then_forward :
      (s : Server sql messages) (fd : ℕ) (reg m : Message)
      → reg.msg_type ≡ save_cli_info
      → fd < 2 ^ 31
      → m.destid ≡ reg.srcid
      → (s1 s2 : Server sql messages) × (recv_tcp_cli_msg sql messages true fd (got reg) s
          ≡ some (true, send fd (answer_msg s.endid reg.srcid) ∷ [], s1))
        × (run_task sql messages (forward_msg_clients m) s1 ≡ some (send fd m ∷ [], s2))
  unfolding recv_tcp_cli_msg
  tcp_registration_then_forward s fd reg m save small to =
      let is_save : (reg.msg_type == save_cli_info) ≡ true = ground arith in
      let d = add_tcp_cli_to_database sql reg.srcid fd s.db in
      let s1 : Server sql messages = record s { db = some d } in
      let row : Row = record { endid = reg.srcid; fd = some fd; ipaddr = none; port = none } in
      let found = add_tcp_cli_to_database-find_row sql reg.srcid fd m.destid s.db in
      let known : find_row m.destid (sql.rows d) ≡ some row = ground (arith, found) in
      (
        s1,
        record s1 { db = some d },
        rw is_save refl,
        forward_msg-linked s1 m row (tcp_link fd) known (rw (lt→ltb fd (2 ^ 31) small) refl)
            (λ e. absurd (ground arith)),
      )

  -- After an end that is not in the table has registered over UDP, a message to it is sent to the
  -- address of the registration, if this address, as an unsigned number, is an `int`.
  pub udp_registration_then_forward :
      (s : Server sql messages) (ip p : ℕ) (reg m : Message)
      → reg.msg_type ≡ save_cli_info
      → find_row reg.srcid (table sql s.db) ≡ none
      → ip < 2 ^ 31
      → p < 2 ^ 16
      → m.destid ≡ reg.srcid
      → (s1 s2 : Server sql messages) × (recv_udp_cli_msg sql messages true ip p (got reg) s
          ≡ some (true, sendto ip p (answer_msg s.endid reg.srcid) ∷ [], s1))
        × (run_task sql messages (forward_msg_clients m) s1 ≡ some (sendto ip p m ∷ [], s2))
  unfolding recv_udp_cli_msg
  udp_registration_then_forward s ip p reg m save absent small port_small to =
      let is_save : (reg.msg_type == save_cli_info) ≡ true = ground arith in
      let d = add_udp_cli_to_database sql reg.srcid ip p s.db in
      let s1 : Server sql messages = record s { db = some d } in
      let row : Row = record { endid = reg.srcid; fd = none; ipaddr = some ip; port = some p } in
      let found = add_udp_cli_to_database-new sql reg.srcid ip p m.destid s.db absent in
      let known : find_row m.destid (sql.rows d) ≡ some row = ground (arith, found) in
      let port_int : p < 2 ^ 31 = omega arith in
      let same : p % 2 ^ 16 ≡ p = omega arith in
      (
        s1,
        record s1 { db = some d },
        rw is_save refl,
        forward_msg-linked s1 m row (udp_link ip p) known
            (rw (lt→ltb ip (2 ^ 31) small, lt→ltb p (2 ^ 31) port_int, same) refl)
            (λ e. absurd (ground arith)),
      )

  -- A client that the table has with a link and that registers over UDP from another address gets
  -- its answer there, but a message to it still goes to the old link.
  pub udp_registration_lost :
      (s : Server sql messages) (ip p : ℕ) (reg m : Message) (old : Row) (h : SocketHandle)
      → reg.msg_type ≡ save_cli_info
      → find_row reg.srcid (table sql s.db) ≡ some old
      → row_handle old ≡ some h
      → h ≢ unset
      → m.destid ≡ reg.srcid
      → (s1 s2 : Server sql messages) × (recv_udp_cli_msg sql messages true ip p (got reg) s
          ≡ some (true, sendto ip p (answer_msg s.endid reg.srcid) ∷ [], s1))
        × (run_task sql messages (forward_msg_clients m) s1 ≡ some (forward_to h m, s2))
  unfolding recv_udp_cli_msg
  udp_registration_lost s ip p reg m old h save known gives set to =
      let is_save : (reg.msg_type == save_cli_info) ≡ true = ground arith in
      let d = create_cli_sql_database sql s.db in
      let s1 : Server sql messages = record s { db = some d } in
      let kept = add_udp_cli_to_database-known sql reg.srcid ip p old s.db known in
      let still : find_row m.destid (table sql s.db) ≡ some old = rw to known in
      (
        s1,
        record s1 { db = some d },
        rw (is_save, kept) refl,
        forward_msg-linked s1 m old h still gives set,
      )
