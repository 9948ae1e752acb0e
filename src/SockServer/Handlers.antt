-- ===== src/SockServer/Handlers.antt =====
-- server_socket/server_tcp.c, server_udp.c and server_socket.c, server_epoll/server_epoll.c, and the
-- broadcast of cli_sqlite3/cli_sqlite3.c: what the server does with a message that arrives, and with
-- one of its queue.
pub mod Delivery
pub mod Broadcast
use practice_project.Prelude.{
  ℕ, List, [], ◌∷◌, ◌++◌, Option, none, some, ◌>>=◌, Bool, true, false, ◌==◌, if◌then◌else◌,
  replicate,
}
use practice_project.ListApi.{ListApi}
use practice_project.Queues.{Code, success, error, empty, full}
use practice_project.SqlApi.{Row, SqlApi}
use practice_project.SockServer.Database.{
  SocketHandle, unset, tcp_link, udp_link, row_handle, create_cli_sql_database,
  add_tcp_cli_to_database, del_tcp_cli_from_database_by_fd, add_udp_cli_to_database,
  get_cli_by_endid,
}
use practice_project.SockServer.Queue.{SrvMsgQueue, en_srv_msg_queue, de_srv_msg_queue}

-- `lc_msg_package_t`, read as the struct of the union.
pub record Message : Type 0 where
  pub msg_type : ℕ
  pub srcid : ℕ
  pub destid : ℕ
  pub msg_data : List ℕ

-- `SAVE_CLI_INFO`.
abbrev pub save_cli_info : ℕ
save_cli_info = 0

-- A buffer `= { 0 }` with the fields that the answer to a registration sets.
abbrev pub answer_msg : (srcid destid : ℕ) → Message
answer_msg src dest = record {
  msg_type = save_cli_info;
  srcid = src;
  destid = dest;
  msg_data = replicate 512 0;
}

-- A call that leaves the server: `send`, `sendto`, `close`, EPOLL_CTL_DEL, or a message shown.
pub data Effect : Type 0 where
  send : (fd : ℕ) → Message → Effect
  sendto : (ipaddr port : ℕ) → Message → Effect
  del_fd : (fd : ℕ) → Effect
  close : (fd : ℕ) → Effect
  dispaly : Message → Effect

-- What `recv` returns: a negative number, 0, or the buffer that it leaves.
pub data Received : Type 0 where
  failed : Received
  nothing : Received
  got : Message → Received

-- `send_msg_by_tcp`; the Boolean says whether it returns 0, which it does if all bytes are sent.
abbrev pub send_msg_by_tcp : (sent_all : Bool) → Message → (cli_fd : ℕ) → Bool × List Effect
send_msg_by_tcp sent_all m fd = (sent_all, send fd m ∷ [])

-- `send_msg_by_udp`.
abbrev pub send_msg_by_udp : (sent_all : Bool) → Message → (ipaddr port : ℕ) → Bool × List Effect
send_msg_by_udp sent_all m ip p = (sent_all, sendto ip p m ∷ [])

-- `send_tcp_cli_msg`: a short `send` is only logged.
abbrev pub send_tcp_cli_msg : SocketHandle → Message → Bool × List Effect
send_tcp_cli_msg (tcp_link fd) m = (true, send fd m ∷ [])
send_tcp_cli_msg unset m = (false, [])
send_tcp_cli_msg (udp_link ip p) m = (false, [])

-- `send_udp_cli_msg`.
abbrev pub send_udp_cli_msg : SocketHandle → Message → Bool × List Effect
send_udp_cli_msg (udp_link ip p) m = (true, sendto ip p m ∷ [])
send_udp_cli_msg unset m = (false, [])
send_udp_cli_msg (tcp_link fd) m = (false, [])

-- `switch (socket.socket_type)` of `forward_msg_clients`.
abbrev pub forward_to : SocketHandle → Message → List Effect
forward_to unset m = []
forward_to (tcp_link fd) m = (send_tcp_cli_msg (tcp_link fd) m).1
forward_to (udp_link ip p) m = (send_udp_cli_msg (udp_link ip p) m).1

-- `send_msg_to_all_ret`: the message with the row's end goes to the row's link, if it has one.
pub send_msg_to_all_ret : Message → Row → Option (Message × List Effect)
send_msg_to_all_ret m r = do
  h ← row_handle r
  let m' = record m { destid = r.endid }
  some (m', forward_to h m')

-- SELECT without a condition: one call for each row.
pub send_to_rows : Message → List Row → Option (Message × List Effect)
send_to_rows m [] = some (m, [])
send_to_rows m (r ∷ rs) = do
  (m', first) ← send_msg_to_all_ret m r
  (last, rest) ← send_to_rows m' rs
  some (last, first ++ rest)

-- A message that the queue's thread hands to the pool, with the function that the pool runs.
pub data Task : Type 0 where
  dispaly_msg_package : Message → Task
  forward_msg_clients : Message → Task

-- A descriptor that epoll reports, with the function that the pool runs on it.
pub data EpollTask : Type 0 where
  process_stdin_msg : EpollTask
  process_accept_tcp_link : (fd : ℕ) → EpollTask
  process_recv_cli_msg : (fd : ℕ) → EpollTask

-- `de_srv_msg_queue(&msgbuf) != QUEUE_SUCCESS`, negated.
abbrev pub is_success : Code → Bool
is_success success = true
is_success error = false
is_success empty = false
is_success full = false

module _ (sql : SqlApi) (messages : ListApi Message) where
  pub record Server : Type 0 where
    pub db : Option sql.Db
    pub queue : SrvMsgQueue messages
    pub endid : ℕ
    pub srv_tcpfd : ℕ
    pub srv_udpfd : ℕ

  abbrev pub Outcome : Type 0
  Outcome = Option (Bool × List Effect × Server)

  -- The branch that puts the message into the queue, whose return code is not read.
  abbrev pub enqueue : Bool → Message → Server → Outcome
  enqueue mem m s = do
    (_, q) ← en_srv_msg_queue messages mem (some m) s.queue
    some (true, [], record s { queue = q })

  -- `recv_tcp_cli_msg`; the Boolean says whether it returns 0. `mem` says whether `malloc` succeeds.
  pub recv_tcp_cli_msg : (mem : Bool) → (fd : ℕ) → Received → Server → Outcome
  recv_tcp_cli_msg mem fd failed s = some (false, [], s)
  recv_tcp_cli_msg mem fd nothing s = some (
    true,
    del_fd fd ∷ close fd ∷ [],
    record s { db = some (del_tcp_cli_from_database_by_fd sql fd s.db) },
  )
  recv_tcp_cli_msg mem fd (got m) s =
      if m.msg_type == save_cli_info
      then some (
        true,
        (send_msg_by_tcp true (answer_msg s.endid m.srcid) fd).1,
        record s { db = some (add_tcp_cli_to_database sql m.srcid fd s.db) },
      )
      else enqueue mem m s

  -- `recv_udp_cli_msg`, with the address that `recvfrom` gives.
  pub recv_udp_cli_msg : (mem : Bool) → (ipaddr port : ℕ) → Received → Server → Outcome
  recv_udp_cli_msg mem ip p failed s = some (false, [], s)
  recv_udp_cli_msg mem ip p nothing s = some (true, [], s)
  recv_udp_cli_msg mem ip p (got m) s =
      if m.msg_type == save_cli_info
      then some (
        true,
        (send_msg_by_udp true (answer_msg s.endid m.srcid) ip p).1,
        record s { db = some (add_udp_cli_to_database sql m.srcid ip p s.db) },
      )
      else enqueue mem m s

  -- `process_recv_cli_msg`.
  pub process_recv : (mem : Bool) → (fd ipaddr port : ℕ) → Received → Server → Outcome
  process_recv mem fd ip p rx s =
      if fd == s.srv_udpfd then recv_udp_cli_msg mem ip p rx s else recv_tcp_cli_msg mem fd rx s

  -- The round of `server_epoll_thread` for one event.
  pub epoll_task : Server → (fd : ℕ) → EpollTask
  epoll_task s fd =
      if fd == 0
      then process_stdin_msg
      else if fd == s.srv_tcpfd
      then process_accept_tcp_link fd
      else process_recv_cli_msg fd

  -- `forward_msg_clients`, on a handle `= { 0 }`.
  pub forward_msg : Message → Server → Option (List Effect × Server)
  forward_msg m s = do
    (h, d) ← get_cli_by_endid sql m.destid unset s.db
    some (forward_to h m, record s { db = some d })

  -- What the pool does with a task of the queue's thread.
  pub run_task : Task → Server → Option (List Effect × Server)
  run_task (dispaly_msg_package m) s = some (dispaly m ∷ [], s)
  run_task (forward_msg_clients m) s = forward_msg m s

  -- A round of `socket_msg_process_thread`: the task that it adds, if there is a message. `buf` is
  -- what the thread's buffer held.
  pub socket_msg_process_round :
      (mem : Bool) → (buf : Message) → Server → Option (Option Task × Server)
  socket_msg_process_round mem buf s = do
    (ret, out, q) ← de_srv_msg_queue messages mem (some buf) s.queue
    m ← out
    let task : Task = if m.destid == s.endid then dispaly_msg_package m else forward_msg_clients m
    some ((if is_success ret then some task else none), record s { queue = q })

  -- `traverse_table_send_msg`.
  pub traverse_table_send_msg : Message → Server → Option (Message × List Effect × Server)
  traverse_table_send_msg m s = do
    let d = create_cli_sql_database sql s.db
    (m', effects) ← send_to_rows m (sql.rows d)
    some (m', effects, record s { db = some d })
