-- ===== src/TcpServer/LocalQueue.antt =====
-- socket_tcp/common/local_queue/local_queue.c: the linked queue of messages, made at its first use.
-- `header_ok` and the first `Mallocs` are what the allocations for a new queue return.
use practice_project.Prelude.{
  ℕ, ◌≤◌, ◌<◌, ◌≡◌, ◌≢◌, refl, List, [], ◌∷◌, Option, none, some, Bool, true, arith, length,
}
use mathlib.Core.Path.{subst}
use practice_project.Memory.{Written, bytes_at, bytes_at_self}
use practice_project.LinkQueue.{
  Heap, LinkQueue, Mallocs, Ret, success, error, Cmd, pure, ◌>>=◌, lift, link_node, update,
  init_link_queue, en_link_queue, de_link_queue, destroy_link_queue,
}
use practice_project.LinkQueue.Chain.{Cell, Holds}
use practice_project.LinkQueue.Insert.{FreshMallocs, heap_after, new_cell, en_link_queue-Holds}
use practice_project.LinkQueue.Remove.{de_link_queue-Holds}
use practice_project.LinkQueue.Destroy.{init_link_queue-Holds, destroy_link_queue-Holds}

-- `sizeof(MsgBuf)`.
abbrev pub msg_buf_size : ℕ
msg_buf_size = 1036

-- `GetMsgLinkQueue`.
pub get_msg_link_queue : Bool → Mallocs → Option LinkQueue → Cmd (Option LinkQueue)
get_msg_link_queue header_ok m none = init_link_queue header_ok msg_buf_size m
get_msg_link_queue header_ok m (some q) = pure (some q)

-- `EnMsgLinkQueue`.
pub en_msg_link_queue :
    Bool → (made : Mallocs) → List ℕ → Mallocs → Option LinkQueue → Cmd (Ret × Option LinkQueue)
en_msg_link_queue header_ok made msg_buf m s = do
  q ← get_msg_link_queue header_ok made s
  q' ← lift q
  (ret, q1) ← en_link_queue q' (some msg_buf) msg_buf_size m
  pure (ret, some q1)

-- `DeMsgLinkQueue`.
pub de_msg_link_queue :
    Bool
    → (made : Mallocs) → Option (List ℕ)
    → Option LinkQueue
    → Cmd (Ret × Option (List ℕ) × Option LinkQueue)
de_msg_link_queue header_ok made msg_buf s = do
  q ← get_msg_link_queue header_ok made s
  q' ← lift q
  (ret, out, q1) ← de_link_queue q' msg_buf msg_buf_size
  pure (ret, out, some q1)

-- `DestoryMsgLinkQueue`, with `k` rounds: it returns -1, which is RET_ERROR, if there is no queue,
-- and leaves the pointer NULL.
pub destory_msg_link_queue : ℕ → Option LinkQueue → Cmd (Ret × Option LinkQueue)
destory_msg_link_queue k none = pure (error, none)
destory_msg_link_queue k (some q) = do ret ← destroy_link_queue k (some q); pure (ret, none)

destory_msg_link_queue-step :
    (k : ℕ) (h g : Heap) (q : LinkQueue) (ret : Ret)
    → destroy_link_queue k (some q) h ≡ some (ret, g)
    → destory_msg_link_queue k (some q) h ≡ some ((ret, none), g)
unfolding destory_msg_link_queue
destory_msg_link_queue-step k h g q ret e = rw e refl

-- `DestoryMsgLinkQueue` of a well-formed queue, with more rounds than messages, returns
-- QUEUE_SUCCESS, and so does not fault.
destory_msg_link_queue-ok :
    (k : ℕ) (h : Heap) (q : LinkQueue) (cells : List Cell)
    → Holds h q cells
    → length cells < k
    → (g : Heap) × (destory_msg_link_queue k (some q) h ≡ some ((success, none), g))
destory_msg_link_queue-ok k h q cells v fuel =
    let (e, _) = destroy_link_queue-Holds k h q cells v fuel in
    (_, destory_msg_link_queue-step k h _ q success e)

en_msg_link_queue-step :
    (h g g' : Heap) (made m : Mallocs) (msg : List ℕ) (q q' : LinkQueue) (ret : Ret)
    → init_link_queue true msg_buf_size made h ≡ some (some q, g)
    → en_link_queue q (some msg) msg_buf_size m g ≡ some ((ret, q'), g')
    → en_msg_link_queue true made msg m none h ≡ some ((ret, some q'), g')
unfolding en_msg_link_queue get_msg_link_queue
en_msg_link_queue-step h g g' made m msg q q' ret init put = rw (init, put) refl

de_msg_link_queue-step :
    (h g : Heap) (made : Mallocs) (out : List ℕ) (o o' : Option (List ℕ)) (q q' : LinkQueue)
    (ret ret' : Ret)
    → de_link_queue q (some out) msg_buf_size h ≡ some ((ret, o, q'), g)
    → ret ≡ ret'
    → o ≡ o'
    → de_msg_link_queue true made (some out) (some q) h ≡ some ((ret', o', some q'), g)
unfolding de_msg_link_queue get_msg_link_queue
de_msg_link_queue-step h g made out o o' q q' ret ret' taken same same' =
    rw (taken, same, same') refl

-- From a queue that was not used before, with memory: a message of `sizeof(MsgBuf)` bytes that
-- `EnMsgLinkQueue` takes is the one that the next `DeMsgLinkQueue` gives to a block of that size,
-- and the queue is empty again.
pub de_msg_link_queue-en_msg_link_queue :
    (h : Heap) (made m : Mallocs) (msg out : List ℕ)
    → made.node ≢ 0
    → FreshMallocs
        (record h { nodes = update h.nodes made.node (some (link_node 0 0)) })
        msg_buf_size
        m
    → length msg ≡ msg_buf_size
    → msg_buf_size ≤ length out
    → (h1 h2 : Heap) × (q1 q2 : LinkQueue) × (o : List ℕ) × (en_msg_link_queue true made msg m none
          h
        ≡ some ((success, some q1), h1))
      × (de_msg_link_queue true made (some out) (some q1) h1
          ≡ some ((success, some o, some q2), h2))
      × Written out 0 msg o
      × Holds h2 q2 []
de_msg_link_queue-en_msg_link_queue h made m msg out got fresh size room =
    let q : LinkQueue = record { front = made.node; rear = made.node; data_size = msg_buf_size } in
    let (init, v) = init_link_queue-Holds h msg_buf_size made (λ e. absurd (ground arith)) got in
    let g : Heap = record h { nodes = update h.nodes made.node (some (link_node 0 0)) } in
    let (put, w) = en_link_queue-Holds g q [] msg m v fresh (omega arith) in
    let x = bytes_at msg 0 msg_buf_size in
    let q1 : LinkQueue = record q { rear = m.node } in
    let (((ret, o, q2), h2), taken, (ret_ok, (o', same, written), _, _, rest)) =
      de_link_queue-Holds (heap_after g q m x) q1 (new_cell q m x ∷ []) out w room in
    let whole : x ≡ msg = subst (λ n. bytes_at msg 0 n ≡ msg) size (bytes_at_self msg) in
    (
      heap_after g q m x,
      h2,
      q1,
      q2,
      o',
      en_msg_link_queue-step h g (heap_after g q m x) made m msg q q1 success init put,
      de_msg_link_queue-step (heap_after g q m x) h2 made out o (some o') q1 q2 ret success taken
          ret_ok same,
      subst (λ y. Written out 0 y o') whole written,
      rest,
    )
