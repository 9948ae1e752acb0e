-- ===== src/TcpClient.antt =====
-- c/old_practice/work_srcs/socket_tcp/client/client_socket/client_socket.c, with the flag of client.c
-- and `GetMsgBuf`'s two buffers. System calls are parameters; the allocation of the buffers succeeds.
pub mod Lines
pub mod Registration
pub mod Receive
pub mod Forward
mod Tests
use practice_project.Prelude.{
  ℕ, List, [], ◌∷◌, ◌++◌, Option, none, some, ◌>>=◌, Bool, true, false, ◌==◌, if◌then◌else◌,
  replicate,
}
use practice_project.Memory.{write_bytes, memcpy}
use practice_project.LcMsg.Fields.{read_int}
use practice_project.LcMsg.Heads.{set_head}
use practice_project.LinkQueue.{Heap, LinkQueue, Mallocs, Ret, success, full, empty, error}
use practice_project.TcpServer.LocalQueue.{msg_buf_size, en_msg_link_queue, de_msg_link_queue}
use practice_project.TcpServer.Handlers.{
  max_msg_len, process_msg_type, save_cli_info, server_end_id,
}
use practice_project.TcpServer.Handlers

-- `clientFd`, where `none` is -1, the flag, the client's end, the buffers, and the queue with its heap.
pub record Client : Type 0 where
  pub client_fd : Option ℕ
  pub init_cli_info : Bool
  pub end_id : ℕ
  pub rx_buf : List ℕ
  pub tx_buf : List ℕ
  pub link_queue : Option LinkQueue
  pub heap : Heap

-- A `send` on the client's socket, a `connect` of it, or a message that is shown.
pub data Effect : Type 0 where
  send : (fd : Option ℕ) → List ℕ → Effect
  connect : (fd : ℕ) → Effect
  shown : List ℕ → Effect

-- `InitClientSock`: whether it returns 0. `fd` is what `socket` returns, and `linked` says whether
-- `connect` succeeds.
pub init_client_sock : (fd : Option ℕ) → (linked : Bool) → Client → Bool × List Effect × Client
init_client_sock fd linked c =
    let opened : Option ℕ → Bool × List Effect × Client = λ o. elim o [
      | none ↦ (false, [], record c { client_fd = none })
      | some k ↦ (linked, connect k ∷ [], record c { client_fd = some k })
    ] in
    elim c.client_fd [ none ↦ opened fd | some k ↦ (false, [], c) ]

-- What a round of a loop that reads lines does.
pub data Round : Type 0 where
  again : Round
  stop : Round
  sent : List Effect → Round

-- A round of the loop of `TxToOtherCli`. `rx` is what `read` gives, -1 or bytes; `quits` is the search
-- for the word that ends the loop. A `send` that fails is only logged.
pub tx_to_other_cli_round :
    (quits : List ℕ → Bool) → (dest : ℕ) → (rx : Option (List ℕ)) → Client → Option (Round × Client)
tx_to_other_cli_round quits dest none c = do
  cleared ← write_bytes c.rx_buf 12 (replicate max_msg_len 0)
  some (again, record c { rx_buf = cleared })
tx_to_other_cli_round quits dest (some line) c =
    let go_on : List ℕ → Option (Round × Client) = λ filled. do
      head ← set_head process_msg_type c.end_id dest c.tx_buf
      tx ← memcpy head 12 filled 12 max_msg_len
      some (sent (send c.client_fd tx ∷ []), record c { rx_buf = filled; tx_buf = tx })
    in do
      cleared ← write_bytes c.rx_buf 12 (replicate max_msg_len 0)
      filled ← write_bytes cleared 12 line
      if quits filled then some (stop, record c { rx_buf = filled }) else go_on filled

-- A round of the loop of `TxToServer`.
pub tx_to_server_round :
    (quits : List ℕ → Bool) → (rx : Option (List ℕ)) → Client → Option (Round × Client)
tx_to_server_round quits rx c = tx_to_other_cli_round quits server_end_id rx c

-- `EnMsgLinkQueue(...) == QUEUE_FULL`.
abbrev pub is_full : Ret → Bool
is_full success = false
is_full full = true
is_full empty = false
is_full error = false

-- `RxFromServer`: whether it returns 0. The `Mallocs` are what the allocations of the queue return.
pub rx_from_server : (made m : Mallocs) → Handlers.Received → Client → Option (Bool × Client)
rx_from_server made m Handlers.error c = do
  cleared ← write_bytes c.rx_buf 12 (replicate max_msg_len 0)
  some (false, record c { rx_buf = cleared })
rx_from_server made m Handlers.nothing c = do
  cleared ← write_bytes c.rx_buf 12 (replicate max_msg_len 0)
  some (false, record c { rx_buf = cleared })
rx_from_server made m (Handlers.got bytes) c =
    let keep : List ℕ → Option (Bool × Client) = λ rx. do
      ((ret, queue), heap) ← en_msg_link_queue true made rx m c.link_queue c.heap
      let c' : Client = record c { rx_buf = rx; link_queue = queue; heap = heap }
      some (if is_full ret then (false, c') else (true, c'))
    in do
      cleared ← write_bytes c.rx_buf 12 (replicate max_msg_len 0)
      rx ← write_bytes cleared 0 bytes
      if read_int rx 0 == save_cli_info
          then some (true, record c { rx_buf = rx; init_cli_info = true })
          else keep rx

-- `DeMsgLinkQueue(...) == QUEUE_EMPTY`.
abbrev pub is_empty : Ret → Bool
is_empty success = false
is_empty full = false
is_empty empty = true
is_empty error = false

-- The buffer, if there is one, is shown.
abbrev pub show_buf : Option (List ℕ) → List Effect
show_buf none = []
show_buf (some m) = shown m ∷ []

-- `ProcessFromMsgQueue`: whether it returns 0.
pub process_from_msg_queue : (made : Mallocs) → Client → Option (Bool × List Effect × Client)
process_from_msg_queue made c = do
  ((ret, out, queue), heap) ←
      de_msg_link_queue true made (some (replicate msg_buf_size 0)) c.link_queue c.heap
  let c' : Client = record c { link_queue = queue; heap = heap }
  some (if is_empty ret then (false, [], c') else (true, show_buf out, c'))

-- `InitCliInfoToServer`: whether it returns 0. `all` says whether `send` sends all bytes.
pub init_cli_info_to_server : (all : Bool) → Client → Option (Bool × List Effect × Client)
init_cli_info_to_server all c = do
  tx ← set_head save_cli_info c.end_id server_end_id c.tx_buf
  some (all, send c.client_fd tx ∷ [], record c { tx_buf = tx })
