-- ===== src/UdpServer/Handlers.antt =====
-- server_udp/server_udp.c: what the server does with a datagram, and with a message of its queue.
pub mod Delivery
use practice_project.Prelude.{
  ℕ, List, [], ◌∷◌, Option, none, some, ◌>>=◌, Bool, true, false, ◌==◌, ◌&&◌, if◌then◌else◌,
  replicate,
}
use practice_project.Memory.{write_bytes}
use practice_project.ListApi.{ListApi}
use practice_project.Statics.{Static}
use practice_project.LcMsg.{lc_msg_size, MsgType, save_cli_info, data_msg, code, int_bytes}
use practice_project.LcMsg.Heads.{set_head}
use practice_project.LcMsg.Fields.{read_int}
use practice_project.Queues.{Code, success, error, empty, full}
use practice_project.UdpServer.Clients.{
  ClisInfoListNode, add_node_to_cli_info_list, get_cli_info_node_by_cli_id,
}
use practice_project.UdpServer.Queue.{en_srv_msg_queue, de_srv_msg_queue}

-- What a handler does outside: a datagram on a socket to an address, or a message that is shown.
pub data Effect : Type 0 where
  sent : (fd : ℕ) → List ℕ → (addr : ℕ) → Effect
  shown : List ℕ → Effect

-- `ret == QUEUE_EMPTY`.
abbrev pub is_empty : Code → Bool
is_empty success = false
is_empty error = false
is_empty empty = true
is_empty full = false

-- `SETVER_ENDID`.
abbrev pub server_end_id : ℕ
server_end_id = 0

-- The new buffer `LcMsg b = { 0 }`.
abbrev pub zero_msg : List ℕ
zero_msg = replicate lc_msg_size 0

module _ (clients : ListApi ClisInfoListNode) (messages : ListApi (List ℕ)) where
  pub record Server : Type 0 where
    pub infos : Static clients.Head
    pub queue : Static messages.Head
    pub udp_fd : ℕ
    pub lc_end_id : ℕ

  -- `PorcessUdpMsg`; `rx` is `none` for a `recvfrom` that fails, else the bytes and the sender. The
  -- Boolean is the pointer it returns, false for NULL. A message is its own copy in the new node.
  pub porcess_udp_msg : Bool → Option (List ℕ × ℕ) → Server → Option (Bool × List Effect × Server)
  porcess_udp_msg mem none s = some (false, [], s)
  porcess_udp_msg mem (some ([], addr)) s = some (true, [], s)
  porcess_udp_msg mem (some (x ∷ xs, addr)) s =
      let register : List ℕ → Option (Bool × List Effect × Server) = λ rx. do
        infos ← add_node_to_cli_info_list clients mem (read_int rx 4) addr s.infos
        tx ← set_head (code save_cli_info) s.lc_end_id (read_int rx 4) zero_msg
        some (true, sent s.udp_fd tx addr ∷ [], record s { infos = infos })
      in let keep : List ℕ → Option (Bool × List Effect × Server) = λ rx. do
        (_, queue) ← en_srv_msg_queue messages mem (some rx) (if mem then some rx else none) s.queue
        some (true, [], record s { queue = queue })
        in do
          rx ← write_bytes zero_msg 0 (x ∷ xs)
          if read_int rx 0 == code save_cli_info && read_int rx 8 == s.lc_end_id
              then register rx
              else if read_int rx 0 == code data_msg
              then keep rx
              else some (true, [], s)

  -- `SrvMsgProcessTask`. `none` is a NULL argument. An end that is not registered is read through
  -- NULL.
  pub srv_msg_process_task : Bool → Option (List ℕ) → Server → Option (Bool × List Effect × Server)
  srv_msg_process_task mem none s = some (false, [], s)
  srv_msg_process_task mem (some m) s =
      let forward : Option (Bool × List Effect × Server) = do
        (node, infos) ← get_cli_info_node_by_cli_id clients mem (read_int m 8) s.infos
        dest ← node
        some (true, sent s.udp_fd m dest.addr ∷ [], record s { infos = infos })
      in let to_server : Option (Bool × List Effect × Server) = some (true, shown m ∷ [], s) in
        if read_int m 0 == code data_msg
        then (if read_int m 8 == server_end_id then to_server else forward)
        else some (true, [], s)

  -- A round of the loop of `SrvMsgProcessThread`: the message that becomes a task's argument, or
  -- `none` if the queue is empty. `buf` is what the thread's buffer held.
  pub srv_msg_process_round : Bool → (buf : List ℕ) → Server → Option (Option (List ℕ) × Server)
  srv_msg_process_round mem buf s = do
    ((ret, out), queue) ← de_srv_msg_queue messages mem (some buf) s.queue
    some ((if is_empty ret then none else out), record s { queue = queue })
