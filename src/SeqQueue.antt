-- ===== src/SeqQueue.antt =====
-- c/old_practice/lib_srcs/lib_queue/seq/seq_queue.c: a circular queue of items of `data_size`
-- bytes in one block, of which one place stays free.
pub mod Refine
pub mod Run
mod Tests
use practice_project.Prelude.{
  ℕ, ◌+◌, ◌*◌, ◌%◌, ◌^◌, ltb, List, [], Option, none, some, ◌>>=◌, Bool, true, false, ◌==◌,
  if◌then◌else◌, replicate,
}
use practice_project.Memory.{memcpy}

-- `QUEUE_RET_VALUE` of common/pre_process/pre_process_queue.h.
pub data QueueRet : Type 0 where
  success full empty : QueueRet

-- `struct SeqQueue`; `queue_ptr` is the block that it points to.
pub record SeqQueue : Type 0 where
  pub front : ℕ
  pub rear : ℕ
  pub data_size : ℕ
  pub node_cnt : ℕ
  pub queue_ptr : List ℕ

-- The first number that is no `int`.
abbrev pub int_limit : ℕ
int_limit = 2 ^ 31

-- `InitSeqQueue` for a `queueLen` that is not negative; `queueLen + 1` past INT_MAX is a fault.
-- `malloc_ok` and `calloc_ok` say whether the two allocations succeed. `none` is
-- the write through the null pointer when the first one, which is not tested, fails; `some none`
-- is the NULL that is returned.
pub init_seq_queue : (malloc_ok calloc_ok : Bool) → ℕ → ℕ → Option (Option SeqQueue)
init_seq_queue false calloc_ok queue_len data_size = none
init_seq_queue true false queue_len data_size =
    if ltb (queue_len + 1) int_limit then some none else none
init_seq_queue true true queue_len data_size =
    let made : SeqQueue = record {
      front = 0;
      rear = 0;
      data_size = data_size;
      node_cnt = queue_len + 1;
      queue_ptr = replicate ((queue_len + 1) * data_size) 0;
    } in
    if ltb (queue_len + 1) int_limit then some (some made) else none

-- `EnSeqQueue`: `data` is the caller's block. A `data_size` that differs from the queue's is
-- logged, and nothing else, so it does not stand here.
pub en_seq_queue : SeqQueue → List ℕ → Option (QueueRet × SeqQueue)
en_seq_queue q bytes =
    let store_item : Option (QueueRet × SeqQueue) = do
      m ← memcpy q.queue_ptr (q.rear * q.data_size) bytes 0 q.data_size
      some (success, record q { queue_ptr = m; rear = (q.rear + 1) % q.node_cnt })
    in if (q.rear + 1) % q.node_cnt == q.front then some (full, q) else store_item

-- `DeSeqQueue`: `out` is the caller's block, returned as the copy leaves it.
pub de_seq_queue : SeqQueue → List ℕ → Option (QueueRet × List ℕ × SeqQueue)
de_seq_queue q out =
    let load_item : Option (QueueRet × List ℕ × SeqQueue) = do
      o ← memcpy out 0 q.queue_ptr (q.front * q.data_size) q.data_size
      some (success, o, record q { front = (q.front + 1) % q.node_cnt })
    in if q.front == q.rear then some (empty, out, q) else load_item

-- `DestorySeqQueue` of the pointer `*_seqQueue`, which is NULL afterwards; the block and the header
-- are freed. A NULL pointer is read through, which is a fault.
pub destroy_seq_queue : Option SeqQueue → Option (QueueRet × Option SeqQueue)
destroy_seq_queue none = none
destroy_seq_queue (some q) = some (success, none)
