-- ===== src/ThreadPool/Udp.antt =====
-- socket_udp/common/thread_pool/thread_pool.c: `curTaskCnt--` stands behind the unlock, so it and
-- `curTaskCnt++` are a load and a store each.
pub mod Invariant
use practice_project.Prelude.{
  ℕ, ◌+◌, ◌%◌, ◌^◌, ◌-◌, ◌≡◌, List, [], ◌∷◌, ◌++◌, Option, none, some, Bool, true, false,
}
use practice_project.ThreadPool.{at_thread}

-- Where a thread is: `adding` to `counted` in `AddTaskToPool`, the others in the loop of
-- `ProcessTask`.
pub data Pc : Type 0 where
  outside : Pc
  -- The mutex is locked; the task is queued; the counter is loaded; it is stored.
  adding : ℕ → Pc
  queued : Pc
  loaded_up : ℕ → Pc
  counted : Pc
  -- The mutex is locked; `pthread_cond_wait`; the task is taken.
  taking waiting : Pc
  took : ℕ → Pc
  -- The mutex is unlocked; the counter is loaded; it is stored and the handler runs.
  unlocked : ℕ → Pc
  loaded_down : (task counter : ℕ) → Pc
  running : ℕ → Pc

-- `queue`, `curTaskCnt`, the owner of `mutex`, the threads, and what happened so far: the tasks that
-- were queued and those that were taken.
pub record State : Type 0 where
  pub queue : List ℕ
  pub cur_task_cnt : ℕ
  pub owner : Option ℕ
  pub pc : ℕ → Pc
  pub added : List ℕ
  pub taken : List ℕ

-- A step of thread `i` in `AddTaskToPool`. The counter is an `unsigned int` of 32 bits.
pub data AddStep (s : State) (i : ℕ) : State → Type 0 where
  lock_add :
      (t : ℕ)
      → s.pc i ≡ outside
      → s.owner ≡ none
      → AddStep s i (record s { owner = some i; pc = at_thread s.pc i (adding t) })
  en_queue :
      (t : ℕ)
      → s.pc i ≡ adding t
      → AddStep s i (record s {
        queue = s.queue ++ t ∷ [];
        added = s.added ++ t ∷ [];
        pc = at_thread s.pc i queued;
      })
  load_up :
      s.pc i ≡ queued → AddStep s i (record s { pc = at_thread s.pc i (loaded_up s.cur_task_cnt) })
  store_up :
      (c : ℕ)
      → s.pc i ≡ loaded_up c
      → AddStep s i (record s { cur_task_cnt = (c + 1) % 2 ^ 32; pc = at_thread s.pc i counted })
  unlock_add :
      s.pc i ≡ counted → AddStep s i (record s { owner = none; pc = at_thread s.pc i outside })

-- A step of thread `i` in the loop of `ProcessTask`, where the handler is some call that ends.
pub data TakeStep (s : State) (i : ℕ) : State → Type 0 where
  lock_take :
      s.pc i ≡ outside
      → s.owner ≡ none
      → TakeStep s i (record s { owner = some i; pc = at_thread s.pc i taking })
  -- `pthread_cond_wait` gives the mutex back, and has it again when it returns.
  wait :
      s.pc i ≡ taking
      → s.queue ≡ []
      → TakeStep s i (record s { owner = none; pc = at_thread s.pc i waiting })
  wake :
      s.pc i ≡ waiting
      → s.owner ≡ none
      → TakeStep s i (record s { owner = some i; pc = at_thread s.pc i taking })
  de_queue :
      (t : ℕ) (rest : List ℕ)
      → s.pc i ≡ taking
      → s.queue ≡ t ∷ rest
      → TakeStep s i
          (record s { queue = rest; taken = s.taken ++ t ∷ []; pc = at_thread s.pc i (took t) })
  unlock_take :
      (t : ℕ)
      → s.pc i ≡ took t
      → TakeStep s i (record s { owner = none; pc = at_thread s.pc i (unlocked t) })
  load_down :
      (t : ℕ)
      → s.pc i ≡ unlocked t
      → TakeStep s i (record s { pc = at_thread s.pc i (loaded_down t s.cur_task_cnt) })
  store_down :
      (t c : ℕ)
      → s.pc i ≡ loaded_down t c
      → TakeStep s i (record s {
        cur_task_cnt = (c + (2 ^ 32 - 1)) % 2 ^ 32;
        pc = at_thread s.pc i (running t);
      })
  handled : (t : ℕ) → s.pc i ≡ running t → TakeStep s i (record s { pc = at_thread s.pc i outside })

pub data Step (s : State) (i : ℕ) (t : State) : Type 0 where
  add_task : AddStep s i t → Step s i t
  process_task : TakeStep s i t → Step s i t

-- A pool just made.
abbrev pub fresh : State
fresh = record {
  queue = [];
  cur_task_cnt = 0;
  owner = none;
  pc = λ i. outside;
  added = [];
  taken = [];
}

pub data Reach : State → Type 0 where
  start : Reach fresh
  later : {s t : State} (i : ℕ) → Reach s → Step s i t → Reach t
