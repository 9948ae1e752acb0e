-- ===== src/TcpServer/Handlers.antt =====
-- client_info/client_info.c as far as it sends, server_socket/server_socket.c and
-- server_epoll/server_epoll.c. A message is its bytes: the type and the ends at 0, 4 and 8, the data
-- from 12 on. Allocations of the list of clients succeed, and so does that of the two buffers.
pub mod Delivery
pub mod Broadcast
use practice_project.Prelude.{
  ℕ, List, [], ◌∷◌, ◌++◌, Option, none, some, ◌>>=◌, Bool, true, false, ◌==◌, if◌then◌else◌,
  get_elem?, replicate,
}
use practice_project.Memory.{read_bytes, write_bytes, memcpy}
use practice_project.ListApi.{ListApi}
use practice_project.LcMsg.Fields.{read_int}
use practice_project.LcMsg.Heads.{set_head}
use practice_project.LinkQueue.{Heap, LinkQueue, Mallocs}
use practice_project.ClientInfo.{
  CliInfoNode, CliRet, done, failed, index_by_fd, get_cli_info_manager, add_to_cli_info,
  del_from_cli_info_by_fd, get_one_cli_info_by_fd, get_one_cli_info_by_end_id,
  save_one_cli_info_by_fd,
}
use practice_project.TcpServer.LocalQueue.{en_msg_link_queue}

-- `MAX_MSG_LEN`, `PROCESS_MSG`, `SAVE_CLI_INFO` and `SERVER_ENDID`.
abbrev pub max_msg_len : ℕ
max_msg_len = 1024

abbrev pub process_msg_type : ℕ
process_msg_type = 0

abbrev pub save_cli_info : ℕ
save_cli_info = 1

abbrev pub server_end_id : ℕ
server_end_id = 0

-- A call that leaves the server: `send`, `write`, `close`, EPOLL_CTL_ADD.
pub data Effect : Type 0 where
  send : (fd : ℕ) → List ℕ → Effect
  write : (fd : ℕ) → List ℕ → Effect
  close : (fd : ℕ) → Effect
  add_epoll : (fd : ℕ) → Effect

-- What `recv` or `read` gives: -1, 0, or the bytes that it writes to the buffer.
pub data Received : Type 0 where
  error : Received
  nothing : Received
  got : List ℕ → Received

-- `close` of each descriptor.
abbrev pub closes : List ℕ → List Effect
closes [] = []
closes (fd ∷ fds) = close fd ∷ closes fds

-- `if (sizeTx != ...) s32Ret = -1`.
abbrev pub sent_ret : Bool → CliRet → CliRet
sent_ret true r = r
sent_ret false r = failed

-- `GetCliInfoErrStr(cliInfo)` where a call that failed is logged: NULL is read through.
abbrev pub log_client : {A : Type 0} → (sent : Bool) → Option CliInfoNode → A → Option A
log_client true c a = some a
log_client false none a = none
log_client false (some c) a = some a

module _ (api : ListApi CliInfoNode) where
  -- The list of clients, the queue with its heap, `GetMsgBuf`'s two buffers, the server's end and
  -- socket.
  pub record Server : Type 0 where
    pub clients : Option api.Head
    pub link_queue : Option LinkQueue
    pub heap : Heap
    pub rx_buf : List ℕ
    pub tx_buf : List ℕ
    pub end_id : ℕ
    pub server_fd : ℕ

  abbrev pub Outcome : Type 0
  Outcome = Option (CliRet × List Effect × Server)

  -- The loop of `SendMsgAllClient`; `sent` says which `send` sends all bytes.
  pub send_each :
      (sent : ℕ → Bool)
      → (msg_buf : List ℕ) → List CliInfoNode
      → (ret : CliRet) → (tx : List ℕ) → Option (CliRet × List Effect × List ℕ)
  send_each sent msg_buf [] ret tx = some (ret, [], tx)
  send_each sent msg_buf (c ∷ cs) ret tx = do
    head ← set_head process_msg_type server_end_id c.cli_endid tx
    whole ← memcpy head 12 msg_buf 12 max_msg_len
    (last, effects, tx') ← send_each sent msg_buf cs (sent_ret (sent c.fd) ret) whole
    some (last, send c.fd whole ∷ effects, tx')

  -- `SendMsgAllClient`.
  pub send_msg_all_client : (sent : ℕ → Bool) → (msg_buf : List ℕ) → Server → Outcome
  send_msg_all_client sent msg_buf s = do
    h ← get_cli_info_manager api true s.clients
    (ret, effects, tx) ← send_each sent msg_buf (api.entries h) done s.tx_buf
    some (ret, effects, record s { clients = some h; tx_buf = tx })

  -- The client that the loop of `SendInitInfoToCliByFd` finds, and the return after the loop.
  pub send_init_info : (sent : ℕ → Bool) → (fd : ℕ) → Option CliInfoNode → Server → Outcome
  send_init_info sent fd none s = some (failed, [], s)
  send_init_info sent fd (some c) s = do
    tx ← set_head save_cli_info server_end_id c.cli_endid s.tx_buf
    some (sent_ret (sent fd) done, send fd tx ∷ [], record s { tx_buf = tx })

  -- `SendInitInfoToCliByFd`.
  pub send_init_info_to_cli_by_fd : (sent : ℕ → Bool) → (fd : ℕ) → Server → Outcome
  send_init_info_to_cli_by_fd sent fd s = do
    h ← get_cli_info_manager api true s.clients
    send_init_info sent fd (index_by_fd fd (api.entries h) >>= λ i. get_elem? (api.entries h) i)
        (record s { clients = some h })

  -- `AcceptNewClient`; `accepted` is the descriptor and the address, `none` for -1.
  pub accept_new_client : (accepted : Option (ℕ × ℕ)) → Server → Outcome
  accept_new_client none s = some (failed, [], s)
  accept_new_client (some (fd, addr)) s = do
    (_, clients) ←
        add_to_cli_info api true true (some (record { fd = fd; cli_endid = 0; addr = addr }))
          s.clients
    some (done, add_epoll fd ∷ [], record s { clients = clients })

  -- `BroadcastAllClient`.
  pub broadcast_all_client : (sent : ℕ → Bool) → Received → Server → Outcome
  broadcast_all_client sent rx s =
      let filled : List ℕ → Outcome = λ bytes. do
        cleared ← write_bytes s.rx_buf 12 (replicate max_msg_len 0)
        buf ← write_bytes cleared 12 bytes
        send_msg_all_client sent buf (record s { rx_buf = buf })
      in let refused : Outcome = do
        cleared ← write_bytes s.rx_buf 12 (replicate max_msg_len 0)
        some (failed, [], record s { rx_buf = cleared })
        in elim rx [ error ↦ refused | nothing ↦ filled [] | got bytes ↦ filled bytes ]

  -- `ClientMsgEnQueue`. `recv` writes over the buffer, whose other bytes stay. The `Mallocs` are what
  -- the allocations of the queue return.
  unfoldable pub client_msg_en_queue :
      (sent : ℕ → Bool) → (made m : Mallocs) → (fd : ℕ) → Received → Server → Outcome
  client_msg_en_queue sent made m fd error s = some (failed, [], s)
  client_msg_en_queue sent made m fd nothing s = do
    (_, closed, clients) ← del_from_cli_info_by_fd api true fd s.clients
    some (failed, closes closed, record s { clients = clients })
  client_msg_en_queue sent made m fd (got bytes) s =
      let save : List ℕ → Outcome = λ rx. do
        (_, clients) ← save_one_cli_info_by_fd api true fd (read_int rx 4) s.clients
        (_, effects, s') ←
            send_init_info_to_cli_by_fd sent fd (record s { clients = clients; rx_buf = rx })
        some (done, effects, s')
      in let keep : List ℕ → Outcome = λ rx. do
        ((_, queue), heap) ← en_msg_link_queue true made rx m s.link_queue s.heap
        some (done, [], record s { link_queue = queue; heap = heap; rx_buf = rx })
        in do
          rx ← write_bytes s.rx_buf 0 bytes
          if read_int rx 0 == save_cli_info then save rx else keep rx

  -- `DisplayMsgBuf`, which include.mk builds: the ends that are shown are read through NULL if no client
  -- has them.
  pub display_msg_buf : (msg_buf : List ℕ) → Server → Option Server
  display_msg_buf m s =
      let to_client : Option CliInfoNode → Server → Option Server = λ src s'. do
        (found, clients) ← get_one_cli_info_by_end_id api true (read_int m 8) s'.clients
        dest ← found
        source ← src
        some (record s' { clients = clients })
      in let to_server : Option CliInfoNode → Server → Option Server =
          λ src s'. do source ← src; some s'
        in do
          (src, clients) ← get_one_cli_info_by_end_id api true (read_int m 4) s.clients
          if read_int m 8 == s.end_id
              then to_server src (record s { clients = clients })
              else to_client src (record s { clients = clients })

  -- The rest of `ProcessMsg`. A message for the server is written to the descriptor with the server's
  -- end as its number. An end that no client has is read through NULL.
  pub pass_msg : (sent : ℕ → Bool) → (msg_buf : List ℕ) → Server → Outcome
  pass_msg sent m s =
      let to_server : Option CliInfoNode → Server → Outcome = λ src s'. do
        bytes ← read_bytes m 12 max_msg_len
        log_client (sent (read_int m 8)) src
            (sent_ret (sent (read_int m 8)) done, write (read_int m 8) bytes ∷ [], s')
      in let to_client : Option CliInfoNode → Server → Outcome = λ src s'. do
        (found, clients) ← get_one_cli_info_by_end_id api true (read_int m 8) s'.clients
        dest ← found
        log_client (sent dest.fd) src
            (sent_ret (sent dest.fd) done, send dest.fd m ∷ [], record s' { clients = clients })
        in do
          (src, clients) ← get_one_cli_info_by_end_id api true (read_int m 4) s.clients
          if read_int m 8 == s.end_id
              then to_server src (record s { clients = clients })
              else to_client src (record s { clients = clients })

  -- `ProcessMsg`.
  pub process_msg : (sent : ℕ → Bool) → (msg_buf : List ℕ) → Server → Outcome
  process_msg sent m s =
      let process : Outcome = (do s' ← display_msg_buf m s; pass_msg sent m s') in
      if read_int m 0 == process_msg_type then process else some (failed, [], s)

  -- What an event of a descriptor needs of the outside.
  pub record Outside : Type 0 where
    pub sent : ℕ → Bool
    pub accepted : Option (ℕ × ℕ)
    pub received : Received
    pub made : Mallocs
    pub mallocs : Mallocs

  -- `GetOneCliInfoByFd(fd) != NULL`.
  abbrev pub if_found : {A : Type 0} → Option CliInfoNode → A → A → A
  if_found none a b = b
  if_found (some c) a b = a

  -- `ProcessEventsByFd`, which does not read what the handlers return.
  pub process_events_by_fd : Outside → (fd : ℕ) → Server → Outcome
  process_events_by_fd o fd s =
      let accept : Outcome = (do (_, e, s') ← accept_new_client o.accepted s; some (done, e, s')) in
      let broadcast : Outcome = (do
        (_, e, s') ← broadcast_all_client o.sent o.received s
        some (done, e, s')) in
      let receive : Server → Outcome = λ s1. do
        (_, e, s') ← client_msg_en_queue o.sent o.made o.mallocs fd o.received s1
        some (done, e, s')
      in let other : Outcome = do
        (client, clients) ← get_one_cli_info_by_fd api true fd s.clients
        let s1 : Server = record s { clients = clients }
        if_found client (receive s1) (some (failed, [], s1))
        in if fd == s.server_fd then accept else if fd == 0 then broadcast else other
