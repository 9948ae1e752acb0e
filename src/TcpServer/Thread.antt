-- ===== src/TcpServer/Thread.antt =====
-- server_socket/server_socket.c: the thread that takes messages from the queue, and the server's socket.
use practice_project.Prelude.{
  ℕ, ◌≡◌, ◌≢◌, ◌∙◌, ap, sym, refl, List, [], ◌∷◌, Option, none, some, ◌>>=◌, Bool, true, false,
  arith, ◌&&◌, ◌==◌, length,
}
use mathlib.Core.Path.{subst}
use practice_project.Memory.{write_bytes, write_bytes_whole, bytes_at, bytes_at_self}
use practice_project.ListApi.{ListApi}
use practice_project.LcMsg.Fields.{read_int}
use practice_project.LcMsg.Heads.{HasHead}
use practice_project.LinkQueue.{
  Heap, LinkQueue, Mallocs, Ret, success, full, empty, error, link_node, update,
}
use practice_project.LinkQueue.Chain.{Holds}
use practice_project.LinkQueue.Insert.{FreshMallocs}
use practice_project.ClientInfo.{CliInfoNode, done}
use practice_project.TcpServer.LocalQueue.{
  msg_buf_size, en_msg_link_queue, de_msg_link_queue, de_msg_link_queue-en_msg_link_queue,
}
use practice_project.TcpServer.Handlers.{
  process_msg_type, save_cli_info, send, got, Server, Outcome, client_msg_en_queue, process_msg,
}
use practice_project.TcpServer.Handlers.Delivery.{Listed, HasEnd, process_msg-Listed}

-- `InitServerSock`: whether it returns 0, and `serverFd`, where `none` is -1. `fd` is what `socket`
-- returns; the Booleans say whether `setsockopt`, `bind` and `listen` succeed.
pub init_server_sock :
    (fd : Option ℕ) → (opt bound listens : Bool) → (server_fd : Option ℕ) → Bool × Option ℕ
init_server_sock fd opt bound listens (some k) = (false, some k)
init_server_sock none opt bound listens none = (false, none)
init_server_sock (some k) opt bound listens none = (opt && bound && listens, some k)

-- Once `socket` has returned a descriptor, also if the call then fails, no later call succeeds or
-- changes the descriptor.
pub init_server_sock-once :
    (k : ℕ) (fd : Option ℕ) (opt bound listens opt' bound' listens' : Bool)
    → init_server_sock fd opt' bound' listens' (init_server_sock (some k) opt bound listens none).1
      ≡ (false, some k)
unfolding init_server_sock
init_server_sock-once k fd opt bound listens opt' bound' listens' = refl

module _ (api : ListApi CliInfoNode) where
  -- `DeMsgLinkQueue(...) == QUEUE_EMPTY`, and the branches.
  abbrev pub unless_empty : {A : Type 0} → Ret → (taken waits : A) → A
  unless_empty success taken waits = taken
  unless_empty full taken waits = taken
  unless_empty empty taken waits = waits
  unless_empty error taken waits = taken

  -- A round of the loop of `ProcessCliMsg`; `buf` is the thread's buffer.
  pub process_cli_msg_round :
      (sent : ℕ → Bool) → (made : Mallocs) → (buf : List ℕ) → Server api → Outcome api
  process_cli_msg_round sent made buf s = do
    ((ret, out, queue), heap) ← de_msg_link_queue true made (some buf) s.link_queue s.heap
    m ← out
    let s' : Server api = record s { link_queue = queue; heap = heap }
    let waits : Outcome api = some (done, [], s')
    unless_empty ret (process_msg api sent m s') waits

  client_msg_en_queue-step :
      (made mallocs : Mallocs) (fd : ℕ) (m : List ℕ) (s : Server api) (q : LinkQueue) (g : Heap)
      → write_bytes s.rx_buf 0 m ≡ some m
      → read_int m 0 ≢ save_cli_info
      → en_msg_link_queue true made m mallocs s.link_queue s.heap ≡ some ((success, some q), g)
      → client_msg_en_queue api (λ k. true) made mallocs fd (got m) s
        ≡ some (done, [], record s { rx_buf = m; link_queue = some q; heap = g })
  unfolding client_msg_en_queue
  client_msg_en_queue-step made mallocs fd m s q g filled not_save put =
      let other : (read_int m 0 == save_cli_info) ≡ false = ground arith in
      rw (filled, other, put) refl

  process_cli_msg_round-step :
      (made : Mallocs) (buf m : List ℕ) (s : Server api) (q : LinkQueue) (g : Heap)
      → de_msg_link_queue true made (some buf) s.link_queue s.heap
        ≡ some ((success, some m, some q), g)
      → process_cli_msg_round (λ k. true) made buf s
        ≡ process_msg api (λ k. true) m (record s { link_queue = some q; heap = g })
  unfolding process_cli_msg_round
  process_cli_msg_round-step made buf m s q g taken = rw taken refl

  -- With memory and complete sends, from buffers of `sizeof(MsgBuf)` bytes and a queue that was not used
  -- before: a PROCESS_MSG of this size from an end that a client has, for an end other than the server's, that of the first client
  -- of the list, is queued by `ClientMsgEnQueue`, which sends nothing, and the next round of
  -- `ProcessCliMsg` sends it, unchanged, on this client's connection; the queue is empty again.
  pub queued_then_sent :
      (s : Server api) (h : api.Head) (c : CliInfoNode) (rest : List CliInfoNode) (fd src : ℕ)
      (made mallocs : Mallocs) (m buf : List ℕ)
      → Listed api c rest h
      → s.clients ≡ some h
      → s.link_queue ≡ none
      → made.node ≢ 0
      → FreshMallocs
          (record s.heap { nodes = update s.heap.nodes made.node (some (link_node 0 0)) })
          msg_buf_size
          mallocs
      → length m ≡ msg_buf_size
      → length s.rx_buf ≡ msg_buf_size
      → length buf ≡ msg_buf_size
      → HasEnd src (c ∷ rest)
      → HasHead process_msg_type src c.cli_endid m
      → c.cli_endid ≢ s.end_id
      → (s1 s2 : Server api) × (q : LinkQueue) × (client_msg_en_queue api
            (λ k. true)
            made
            mallocs
            fd
            (got m)
            s
          ≡ some (done, [], s1))
        × (process_cli_msg_round (λ k. true) made buf s1 ≡ some (done, send c.fd m ∷ [], s2))
        × (s2.link_queue ≡ some q)
        × Holds s2.heap q []
  queued_then_sent s h c rest fd src made mallocs m buf l listed unused node fresh size rx_size
        buf_size known head other =
      let not_save : read_int m 0 ≢ save_cli_info = λ e. absurd (omega (arith, e, head.type_at)) in
      let (h1, h2, q1, q2, o, put, taken, w, holds) =
        de_msg_link_queue-en_msg_link_queue s.heap made mallocs m buf node fresh size
          (omega arith) in
      let same : length m ≡ length o = size ∙ sym (w.same_length ∙ buf_size) in
      let o_m : o ≡ m = sym (bytes_at_self o) ∙ subst (λ n. bytes_at o 0 n ≡ m) same w.there in
      let put' : en_msg_link_queue true made m mallocs s.link_queue s.heap
          ≡ some ((success, some q1), h1) =
        ap (λ k. en_msg_link_queue true made m mallocs k s.heap) unused ∙ put in
      let s1 : Server api = record s { rx_buf = m; link_queue = some q1; heap = h1 } in
      let s2 : Server api = record s1 { link_queue = some q2; heap = h2 } in
      (
        s1,
        record s2 { clients = some h },
        q2,
        client_msg_en_queue-step made mallocs fd m s q1 h1
            (write_bytes_whole m s.rx_buf (size ∙ sym rx_size)) not_save put',
        process_cli_msg_round-step made buf m s1 q2 h2
              (taken ∙ ap (λ x. some ((success, some x, some q2), h2)) o_m)
            ∙ ap (λ k. process_msg api (λ i. true) m (record s2 { clients = k })) listed
            ∙ process_msg-Listed api s2 h c rest src m l known head other,
        refl,
        holds,
      )
