-- ===== src/SockServer/Handlers/Broadcast.antt =====
-- A message to every client of the table, and which function a descriptor's event runs.
use practice_project.Prelude.{
  ℕ, ◌≡◌, ◌≢◌, refl, List, [], ◌∷◌, ◌++◌, some, Bool, arith, ◌==◌, if◌then◌else◌,
}
use practice_project.ListApi.{ListApi}
use practice_project.SqlApi.{Row, SqlApi}
use practice_project.SockServer.Database.{SocketHandle, row_handle, create_cli_sql_database}
use practice_project.SockServer.Database.Table.{table}
use practice_project.SockServer.Handlers.{
  Message, Effect, forward_to, send_msg_to_all_ret, send_to_rows, Received, process_recv_cli_msg,
  Server, recv_tcp_cli_msg, recv_udp_cli_msg, process_recv, epoll_task, traverse_table_send_msg,
}

-- The ends of the rows, with their links.
abbrev pub Links : List Row → List (ℕ × SocketHandle) → Type 0
Links [] [] = Unit
Links [] (l ∷ ls) = ⊥
Links (r ∷ rs) [] = ⊥
Links (r ∷ rs) ((e, h) ∷ ls) = (r.endid ≡ e) × (row_handle r ≡ some h) × Links rs ls

-- One message for each end, to its link.
abbrev pub to_each : Message → List (ℕ × SocketHandle) → List Effect
to_each m [] = []
to_each m ((e, h) ∷ ls) = forward_to h (record m { destid = e }) ++ to_each m ls

send_to_rows-each :
    (m : Message) (n : ℕ) (rs : List Row) (ls : List (ℕ × SocketHandle))
    → Links rs ls
    → (last : Message) × (send_to_rows (record m { destid = n }) rs ≡ some (last, to_each m ls))
unfolding send_to_rows send_msg_to_all_ret
send_to_rows-each m n [] [] v = (record m { destid = n }, refl)
send_to_rows-each m n [] (l ∷ ls) v = elim v [ ]
send_to_rows-each m n (r ∷ rs) [] v = elim v [ ]
send_to_rows-each m n (r ∷ rs) ((e, h) ∷ ls) (end, gives, v) =
    let (last, rest) = send_to_rows-each m r.endid rs ls v in (last, rw (gives, rest, end) refl)

module _ (sql : SqlApi) (messages : ListApi Message) where
  -- If every row's columns can be read, `traverse_table_send_msg` sends, to every end of the table
  -- that has a link and in the order of the rows, the message with that end as its destination.
  pub traverse_table_send_msg-each :
      (m : Message) (s : Server sql messages) (ls : List (ℕ × SocketHandle))
      → Links (table sql s.db) ls
      → (last : Message) × (traverse_table_send_msg sql messages m s
          ≡ some (last, to_each m ls, record s { db = some (create_cli_sql_database sql s.db) }))
  unfolding traverse_table_send_msg
  traverse_table_send_msg-each m s ls v =
      let (last, e) = send_to_rows-each m m.destid (table sql s.db) ls v in (last, rw e refl)

  -- An event of a connection of a TCP client, that is neither standard input nor one of the
  -- server's sockets, runs `recv_tcp_cli_msg` on it; one of the UDP socket, which is not the TCP
  -- socket, runs `recv_udp_cli_msg`.
  events_dispatched :
      (mem : Bool) (fd ip p : ℕ) (rx : Received) (s : Server sql messages)
      → fd ≢ 0
      → fd ≢ s.srv_tcpfd
      → (epoll_task sql messages s fd ≡ process_recv_cli_msg fd)
        × (process_recv sql messages mem fd ip p rx s ≡ (
            if fd == s.srv_udpfd
            then recv_udp_cli_msg sql messages mem ip p rx s
            else recv_tcp_cli_msg sql messages mem fd rx s))
  unfolding epoll_task process_recv
  events_dispatched mem fd ip p rx s no_stdin no_accept = (ground arith, refl)
