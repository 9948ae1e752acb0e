-- ===== src/ThreadPool/Sock.antt =====
-- socket/common/thread_pool/thread_pool.c: who holds the mutex, who is in which line.
pub mod Invariant
pub mod Wakeups
pub mod Progress
use practice_project.Prelude.{
  ℕ, ◌+◌, ◌%◌, ◌^◌, ◌-◌, ◌≤◌, ◌<◌, ◌≡◌, List, [], ◌∷◌, ◌++◌, Option, none, some, Bool, true, false,
}
use practice_project.ThreadPool.{at_thread}

-- Where a thread is: `adding` to `left` in `add_task_to_pool_use_arg_mem` or
-- `add_task_to_pool_release_arg_mem`, the others in the loop of `pool_task_process_thread`.
pub data Pc : Type 0 where
  outside : Pc
  -- The mutex is locked; the task is queued; `cur_tasks_cnt++` is done; the broadcast is done.
  adding : ℕ → Pc
  queued counted told : Pc
  -- The mutex is locked; `pthread_cond_wait`, before and after a wake-up, without the mutex; the task is
  -- taken; `cur_tasks_cnt--` is done.
  taking waiting woken : Pc
  took dropped : ℕ → Pc
  -- The mutex is unlocked and the handler runs.
  running : ℕ → Pc

-- `pthread_cond_broadcast`, for one thread.
abbrev pub wake_up : Pc → Pc
wake_up waiting = woken
wake_up outside = outside
wake_up (adding t) = adding t
wake_up queued = queued
wake_up counted = counted
wake_up told = told
wake_up taking = taking
wake_up woken = woken
wake_up (took t) = took t
wake_up (dropped t) = dropped t
wake_up (running t) = running t

-- The threads of the pool are those below `workers`; the others add tasks. Then `queue`,
-- `cur_tasks_cnt`, the owner of `mutex_`, the threads, and what happened so far: the tasks that were queued and those that were taken.
pub record State : Type 0 where
  pub workers : ℕ
  pub queue : List ℕ
  pub cur_tasks_cnt : ℕ
  pub owner : Option ℕ
  pub pc : ℕ → Pc
  pub added : List ℕ
  pub taken : List ℕ

-- A step of thread `i` in `add_task_to_pool_use_arg_mem` or `add_task_to_pool_release_arg_mem`.
-- The counter is a `uint32_t`.
pub data AddStep (s : State) (i : ℕ) : State → Type 0 where
  lock_add :
      (t : ℕ)
      → s.workers ≤ i
      → s.pc i ≡ outside
      → s.owner ≡ none
      → AddStep s i (record s { owner = some i; pc = at_thread s.pc i (adding t) })
  en_queue :
      (t : ℕ)
      → s.pc i ≡ adding t
      → AddStep s i (record s {
        queue = s.queue ++ t ∷ [];
        added = s.added ++ t ∷ [];
        pc = at_thread s.pc i queued;
      })
  count_up :
      s.pc i ≡ queued
      → AddStep s i (record s {
        cur_tasks_cnt = (s.cur_tasks_cnt + 1) % 2 ^ 32;
        pc = at_thread s.pc i counted;
      })
  broadcast :
      s.pc i ≡ counted → AddStep s i (record s { pc = at_thread (λ j. wake_up (s.pc j)) i told })
  unlock_add :
      s.pc i ≡ told → AddStep s i (record s { owner = none; pc = at_thread s.pc i outside })

-- A step of thread `i` in the loop of `pool_task_process_thread`, where the handler is some call that ends.
pub data TakeStep (s : State) (i : ℕ) : State → Type 0 where
  lock_take :
      i < s.workers
      → s.pc i ≡ outside
      → s.owner ≡ none
      → TakeStep s i (record s { owner = some i; pc = at_thread s.pc i taking })
  -- `pthread_cond_wait` gives the mutex back, and has it again when it returns.
  wait :
      s.pc i ≡ taking
      → s.queue ≡ []
      → TakeStep s i (record s { owner = none; pc = at_thread s.pc i waiting })
  wake :
      s.pc i ≡ woken
      → s.owner ≡ none
      → TakeStep s i (record s { owner = some i; pc = at_thread s.pc i taking })
  de_queue :
      (t : ℕ) (rest : List ℕ)
      → s.pc i ≡ taking
      → s.queue ≡ t ∷ rest
      → TakeStep s i
          (record s { queue = rest; taken = s.taken ++ t ∷ []; pc = at_thread s.pc i (took t) })
  count_down :
      (t : ℕ)
      → s.pc i ≡ took t
      → TakeStep s i (record s {
        cur_tasks_cnt = (s.cur_tasks_cnt + (2 ^ 32 - 1)) % 2 ^ 32;
        pc = at_thread s.pc i (dropped t);
      })
  unlock_take :
      (t : ℕ)
      → s.pc i ≡ dropped t
      → TakeStep s i (record s { owner = none; pc = at_thread s.pc i (running t) })
  handled : (t : ℕ) → s.pc i ≡ running t → TakeStep s i (record s { pc = at_thread s.pc i outside })

pub data Step (s : State) (i : ℕ) (t : State) : Type 0 where
  add_task : AddStep s i t → Step s i t
  process_task : TakeStep s i t → Step s i t

-- A pool just made.
abbrev pub fresh : ℕ → State
fresh workers = record {
  workers = workers;
  queue = [];
  cur_tasks_cnt = 0;
  owner = none;
  pc = λ i. outside;
  added = [];
  taken = [];
}

-- The states that threads reach; `pthread_cond_wait` may also return without a broadcast.
pub data Reach : State → Type 0 where
  start : (workers : ℕ) → Reach (fresh workers)
  later : {s t : State} (i : ℕ) → Reach s → Step s i t → Reach t
  spurious :
      {s : State} (i : ℕ)
      → Reach s
      → s.pc i ≡ waiting
      → Reach (record s { pc = at_thread s.pc i woken })
