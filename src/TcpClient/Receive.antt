-- ===== src/TcpClient/Receive.antt =====
-- A message that a client gets, from its arrival to the screen.
use practice_project.Prelude.{
  ℕ, ◌≡◌, ◌≢◌, ◌∙◌, ap, sym, refl, List, [], ◌∷◌, none, some, true, false, arith, ◌==◌, length,
  replicate, length-replicate,
}
use mathlib.Core.Path.{subst}
use practice_project.Memory.{write_bytes, bytes_at, bytes_at_self}
use practice_project.LcMsg.Fields.{read_int}
use practice_project.LinkQueue.{Heap, LinkQueue, Mallocs, success, link_node, update}
use practice_project.LinkQueue.Chain.{Holds}
use practice_project.LinkQueue.Insert.{FreshMallocs}
use practice_project.TcpServer.LocalQueue.{
  msg_buf_size, en_msg_link_queue, de_msg_link_queue, de_msg_link_queue-en_msg_link_queue,
}
use practice_project.TcpServer.Handlers.{max_msg_len, save_cli_info, got}
use practice_project.TcpClient.{Client, shown, rx_from_server, process_from_msg_queue}
use practice_project.TcpClient.Lines.{Sized}
use practice_project.TcpClient.Registration.{received_whole}

rx_from_server-step :
    (made mallocs : Mallocs) (m cleared : List ℕ) (c : Client) (q : LinkQueue) (h : Heap)
    → write_bytes c.rx_buf 12 (replicate max_msg_len 0) ≡ some cleared
    → write_bytes cleared 0 m ≡ some m
    → read_int m 0 ≢ save_cli_info
    → en_msg_link_queue true made m mallocs c.link_queue c.heap ≡ some ((success, some q), h)
    → rx_from_server made mallocs (got m) c
      ≡ some (true, record c { rx_buf = m; link_queue = some q; heap = h })
unfolding rx_from_server
rx_from_server-step made mallocs m cleared c q h e e' not_save put =
    let other : (read_int m 0 == save_cli_info) ≡ false = ground arith in
    rw (e, e', other, put) refl

process_from_msg_queue-step :
    (made : Mallocs) (m : List ℕ) (c : Client) (q : LinkQueue) (h : Heap)
    → de_msg_link_queue true made (some (replicate msg_buf_size 0)) c.link_queue c.heap
      ≡ some ((success, some m, some q), h)
    → process_from_msg_queue made c
      ≡ some (true, shown m ∷ [], record c { link_queue = some q; heap = h })
unfolding process_from_msg_queue
process_from_msg_queue-step made m c q h e = rw e refl

-- With memory, a message of `sizeof(MsgBuf)` bytes that is no SAVE_CLI_INFO and is the first that a
-- client with buffers of this size gets: `RxFromServer` returns 0, the next `ProcessFromMsgQueue` shows
-- this message, unchanged, and the queue is empty again.
pub process_from_msg_queue-rx_from_server :
    (c : Client) (made mallocs : Mallocs) (m : List ℕ)
    → Sized c
    → c.link_queue ≡ none
    → made.node ≢ 0
    → FreshMallocs
        (record c.heap { nodes = update c.heap.nodes made.node (some (link_node 0 0)) })
        msg_buf_size
        mallocs
    → length m ≡ msg_buf_size
    → read_int m 0 ≢ save_cli_info
    → (c1 c2 : Client) × (q : LinkQueue) × (rx_from_server made mallocs (got m) c ≡ some (true, c1))
      × (process_from_msg_queue made c1 ≡ some (true, shown m ∷ [], c2))
      × (c2.link_queue ≡ some q)
      × Holds c2.heap q []
process_from_msg_queue-rx_from_server c made mallocs m v unused node fresh size not_save =
    let zeros : List ℕ = replicate msg_buf_size 0 in
    let len : length zeros ≡ msg_buf_size = length-replicate {A = ℕ} msg_buf_size 0 in
    let (cleared, e, e') = received_whole c.rx_buf m v.rx_size size in
    let (h1, h2, q1, q2, o, put, taken, w, holds) =
      de_msg_link_queue-en_msg_link_queue c.heap made mallocs m zeros node fresh size
        (omega arith) in
    let same : length m ≡ length o = size ∙ sym (w.same_length ∙ len) in
    let o_m : o ≡ m = sym (bytes_at_self o) ∙ subst (λ n. bytes_at o 0 n ≡ m) same w.there in
    let put' : en_msg_link_queue true made m mallocs c.link_queue c.heap
        ≡ some ((success, some q1), h1) =
      ap (λ l. en_msg_link_queue true made m mallocs l c.heap) unused ∙ put in
    let taken' : de_msg_link_queue true made (some zeros) (some q1) h1
        ≡ some ((success, some m, some q2), h2) =
      taken ∙ ap (λ x. some ((success, some x, some q2), h2)) o_m in
    let c1 : Client = record c { rx_buf = m; link_queue = some q1; heap = h1 } in
    (
      c1,
      record c1 { link_queue = some q2; heap = h2 },
      q2,
      rx_from_server-step made mallocs m cleared c q1 h1 e e' not_save put',
      process_from_msg_queue-step made m c1 q2 h2 taken',
      refl,
      holds,
    )
