-- ===== src/ThreadPool/Create.antt =====
-- `CreateThreadPool` and `DestoryThreadPool` of socket_udp, `create_thread_pool` and
-- `destroy_thread_pool` of socket: the block of thread ids. Allocations succeed here. What the call
-- of `pthread_create` in round `i` gives is a parameter: an id, or `none` for an error. A place of
-- the block that was not written holds `none`.
pub mod Threads
use practice_project.Prelude.{
  ℕ, zero, suc, ◌+◌, ◌≤◌, ◌<◌, ◌≡◌, ◌≢◌, refl, List, [], ◌∷◌, Option, none, some, ◌>>=◌, Bool, true,
  false, arith, ltb, leb, ◌==◌, if◌then◌else◌, length, get_elem?, set, length-set, replicate,
  length-replicate,
}

-- `tids` and the count of threads.
pub record Pool : Type 0 where
  pub tids : List (Option ℕ)
  pub cur_threads_cnt : ℕ

-- `pthread_create(tids + i, ..)` gave `made`: the id is written to the block, and counted.
abbrev pub add_thread : ℕ → Option ℕ → Pool → Option Pool
add_thread i none p = some p
add_thread i (some tid) p =
    if ltb i (length p.tids)
    then some (record { tids = set p.tids i (some tid); cur_threads_cnt = p.cur_threads_cnt + 1 })
    else none

module _ (create : ℕ → Option ℕ) where
  -- The loop of `CreateThreadPool` from round `i` on, with the rounds that are left.
  pub create_udp_threads : (init_cnt max_cnt rounds i : ℕ) → Pool → Option Pool
  create_udp_threads init_cnt max_cnt zero i p = some p
  create_udp_threads init_cnt max_cnt (suc n) i p =
      let next : Option Pool = do
        q ← add_thread i (create i) p
        create_udp_threads init_cnt max_cnt n (i + 1) q
      in if leb max_cnt p.cur_threads_cnt
        then some p
        else if leb init_cnt p.cur_threads_cnt
        then some p
        else next

  -- `CreateThreadPool`: the threads.
  pub create_udp_pool : (init_cnt max_cnt : ℕ) → Option Pool
  create_udp_pool init_cnt max_cnt =
      create_udp_threads init_cnt max_cnt max_cnt 0
        (record { tids = replicate init_cnt none; cur_threads_cnt = 0 })

  -- The loop of `create_thread_pool`.
  pub create_sock_threads : (rounds i : ℕ) → Pool → Option Pool
  create_sock_threads zero i p = some p
  create_sock_threads (suc n) i p = do
    q ← add_thread i (create i) p
    create_sock_threads n (i + 1) q

  -- `create_thread_pool`: the threads.
  pub create_sock_pool : (init_cnt : ℕ) → Option Pool
  create_sock_pool init_cnt =
      create_sock_threads init_cnt 0
        (record { tids = replicate init_cnt none; cur_threads_cnt = 0 })

-- `for (i = 0; i < cur_threads_cnt; i++) pthread_cancel(tids[i]);` with the rounds that are left:
-- the ids that are cancelled. An id that was not written is a fault.
pub cancel_threads : (rounds i : ℕ) → List (Option ℕ) → Option (List ℕ)
cancel_threads zero i tids = some []
cancel_threads (suc n) i tids = do
  place ← get_elem? tids i
  tid ← place
  rest ← cancel_threads n (i + 1) tids
  some (tid ∷ rest)

-- `DestoryThreadPool` and `destroy_thread_pool`: the threads.
pub destroy_pool : Pool → Option (List ℕ)
destroy_pool p = cancel_threads p.cur_threads_cnt 0 p.tids
