-- ===== src/ThreadPool/Tests.antt =====
-- Pools of two threads, and some that their steps reach.
use practice_project.Prelude.{
  ℕ, zero, suc, ◌+◌, ◌%◌, ◌^◌, ◌<◌, ◌≤◌, ◌≡◌, refl, [], ◌∷◌, ◌++◌, Option, none, some, arith,
  length, inl, inr,
}
use practice_project.ThreadPool.{at_thread}
use practice_project.ThreadPool.Create.{Pool, create_udp_pool, create_sock_pool, destroy_pool}
use practice_project.ThreadPool.Create.Threads.{
  destroy_pool-create_pool, create_sock_pool-within, create_udp_pool-overrun,
}
use practice_project.ThreadPool.Sock
use practice_project.ThreadPool.Sock.Progress.{Steps, Reach-served}
use practice_project.ThreadPool.Sock.Invariant.{Reach-counted, Reach-in_order}
use practice_project.ThreadPool.Udp
use practice_project.ThreadPool.Udp.Invariant.{lost_update}

-- Thread 1 of a pool whose only thread is 0 has queued task 5.
abbrev pcs_after : ℕ → Sock.Pc
pcs_after =
    at_thread
      (at_thread
        (λ j. Sock.wake_up (
          at_thread (at_thread (at_thread (λ i. Sock.outside) 1 (Sock.adding 5)) 1 Sock.queued) 1
            Sock.counted j))
        1 Sock.told)
      1 Sock.outside

abbrev one_waits : Sock.State
one_waits = record {
  workers = 1;
  queue = 5 ∷ [];
  cur_tasks_cnt = 1;
  owner = none;
  pc = pcs_after;
  added = 5 ∷ [];
  taken = [];
}

one_waits-Reach : Sock.Reach one_waits
one_waits-Reach =
    Sock.later 1
      (Sock.later 1
        (Sock.later 1
          (Sock.later 1
            (Sock.later 1 (Sock.start 1) (Sock.add_task (Sock.lock_add 5 (omega arith) refl refl)))
            (Sock.add_task (Sock.en_queue 5 refl)))
          (Sock.add_task (Sock.count_up refl)))
        (Sock.add_task (Sock.broadcast refl)))
      (Sock.add_task (Sock.unlock_add refl))

Reach-counted_example : one_waits.cur_tasks_cnt ≡ length one_waits.queue % 2 ^ 32
Reach-counted_example = Reach-counted {s = one_waits} one_waits-Reach refl

Reach-in_order_example : one_waits.added ≡ one_waits.taken ++ one_waits.queue
Reach-in_order_example = Reach-in_order {s = one_waits} one_waits-Reach

lost_update_example :
    (s : Udp.State) × Udp.Reach s
    × (s.owner ≡ none)
    × (s.added ≡ 5 ∷ 6 ∷ [])
    × (s.queue ≡ 6 ∷ [])
    × (s.cur_task_cnt ≡ 0)
lost_update_example = lost_update 5 6

abbrev id_of : ℕ → ℕ
id_of i = i + 100

destroy_pool-create_pool_example :
    (p q : Pool) × (create_sock_pool (λ i. some (id_of i)) 2 ≡ some p)
    × (destroy_pool p ≡ some (100 ∷ 101 ∷ []))
    × (create_udp_pool (λ i. some (id_of i)) 2 1 ≡ some q)
    × (destroy_pool q ≡ some (100 ∷ []))
destroy_pool-create_pool_example =
    destroy_pool-create_pool (λ i. some (id_of i)) id_of (λ i. refl) 2 1

-- The first call fails.
abbrev second_on : ℕ → Option ℕ
second_on zero = none
second_on (suc i) = some (i + 101)

create_sock_pool-within_example :
    (p : Pool) × (create_sock_pool second_on 2 ≡ some p)
    × (length p.tids ≡ 2)
    × (p.cur_threads_cnt ≤ 2)
create_sock_pool-within_example = create_sock_pool-within second_on 2

second_on-made : (j : ℕ) → 0 < j → (tid : ℕ) × (second_on j ≡ some tid)
second_on-made zero pos = absurd (omega arith)
second_on-made (suc j) pos = (j + 101, refl)

create_udp_pool-overrun_example : create_udp_pool second_on 2 3 ≡ none
create_udp_pool-overrun_example =
    create_udp_pool-overrun second_on 2 3 (omega arith) (omega arith) refl second_on-made

-- Thread 0 of the pool waits for the condition, and thread 1 has queued task 5, with no broadcast yet.
abbrev one_sleeps : Sock.State
one_sleeps = record {
  workers = 1;
  queue = 5 ∷ [];
  cur_tasks_cnt = 0;
  owner = some 1;
  pc =
      at_thread
        (at_thread (at_thread (at_thread (λ i. Sock.outside) 0 Sock.taking) 0 Sock.waiting) 1
          (Sock.adding 5))
        1 Sock.queued;
  added = 5 ∷ [];
  taken = [];
}

one_sleeps-Reach : Sock.Reach one_sleeps
one_sleeps-Reach =
    Sock.later 1
      (Sock.later 1
        (Sock.later 0
          (Sock.later 0 (Sock.start 1) (Sock.process_task (Sock.lock_take (omega arith) refl refl)))
          (Sock.process_task (Sock.wait refl refl)))
        (Sock.add_task (Sock.lock_add 5 (omega arith) refl refl)))
      (Sock.add_task (Sock.en_queue 5 refl))

Reach-served_example :
    (s' : Sock.State) × (j : ℕ) × Steps one_sleeps s' × (s'.pc j ≡ Sock.running 5)
Reach-served_example =
    Reach-served {s = one_sleeps} {t = 5} {rest = []} one_sleeps-Reach 0 (omega arith)
      (inr (inl refl)) refl
