-- ===== src/ThreadPool/Statics.antt =====
-- The pools of the programs, each behind a static pointer, `none` if it is NULL: of work_srcs/socket
-- server/server_pool/server_pool.c and client/client_pool/client_pool.c, of work_srcs/socket_udp
-- server/server_threadpool/server_threadpool.c and client/client_threadpool/client_threadpool.c.
use practice_project.Prelude.{ℕ, ◌≡◌, refl, List, [], Option, none, some, ◌>>=◌}
use practice_project.ThreadPool.Create.{Pool, create_udp_pool, create_sock_pool, destroy_pool}
use practice_project.ThreadPool.Create.Threads.{ids_from, destroy_pool-create_pool}

module _ (create : ℕ → Option ℕ) where
  -- `create_server_thread_pool`, and `add_task_to_server_pool_use_arg_mem` and
  -- `add_task_to_server_pool_release_arg_mem` before they add the task.
  pub create_server_pool : Option Pool → Option (Option Pool)
  create_server_pool (some p) = some (some p)
  create_server_pool none = do p ← create_sock_pool create 6; some (some p)

  -- The same of the client's pool.
  pub create_client_pool : Option Pool → Option (Option Pool)
  create_client_pool (some p) = some (some p)
  create_client_pool none = do p ← create_sock_pool create 3; some (some p)

  -- `CreateServerThreadPool` of socket_udp.
  pub create_udp_server_pool : Option Pool → Option (Option Pool)
  create_udp_server_pool (some p) = some (some p)
  create_udp_server_pool none = do p ← create_udp_pool create 5 10; some (some p)

  -- `CreateClientThreadPool` of socket_udp.
  pub create_udp_client_pool : Option Pool → Option (Option Pool)
  create_udp_client_pool (some p) = some (some p)
  create_udp_client_pool none = do p ← create_udp_pool create 2 5; some (some p)

-- `destroy_server_thread_pool` and `destroy_client_thread_pool` of socket: the threads that are
-- cancelled, and the pointer.
pub destroy_static_pool : Option Pool → Option (List ℕ × Option Pool)
destroy_static_pool p = some ([], p)

-- `DestoryServerThreadPool` and `DestoryClientThreadPool` of socket_udp, through `DestoryThreadPool`.
pub destory_static_pool : Option Pool → Option (List ℕ × Option Pool)
destory_static_pool none = some ([], none)
destory_static_pool (some p) = do ids ← destroy_pool p; some (ids, none)

module _ (create : ℕ → Option ℕ) (id : ℕ → ℕ) (all_made : (i : ℕ) → create i ≡ some (id i)) where
  -- If every call of `pthread_create` gives an id, the programs of socket_udp make 5 threads for the
  -- server and 2 for the client, and cancel just these at the end, when the pointer is NULL again.
  pub udp_pools_cancelled :
      (p q : Option Pool) × (create_udp_server_pool create none ≡ some p)
      × (destory_static_pool p ≡ some (ids_from id 0 5, none))
      × (create_udp_client_pool create none ≡ some q)
      × (destory_static_pool q ≡ some (ids_from id 0 2, none))
  unfolding create_udp_server_pool create_udp_client_pool destory_static_pool
  udp_pools_cancelled =
      let (_, p, _, _, made, cancelled) = destroy_pool-create_pool create id all_made 5 10 in
      let (_, q, _, _, made', cancelled') = destroy_pool-create_pool create id all_made 2 5 in
      (some p, some q, rw made refl, rw cancelled refl, rw made' refl, rw cancelled' refl)

  -- Those of socket make 6 and 3 threads, and their destruction cancels none and keeps the pool.
  pub sock_pools_stay :
      (p q : Pool) × (create_server_pool create none ≡ some (some p))
      × (destroy_pool p ≡ some (ids_from id 0 6))
      × (destroy_static_pool (some p) ≡ some ([], some p))
      × (create_client_pool create none ≡ some (some q))
      × (destroy_pool q ≡ some (ids_from id 0 3))
      × (destroy_static_pool (some q) ≡ some ([], some q))
  unfolding create_server_pool create_client_pool destroy_static_pool
  sock_pools_stay =
      let (p, _, made, cancelled, _, _) = destroy_pool-create_pool create id all_made 6 10 in
      let (q, _, made', cancelled', _, _) = destroy_pool-create_pool create id all_made 3 3 in
      (p, q, rw made refl, cancelled, refl, rw made' refl, cancelled', refl)
