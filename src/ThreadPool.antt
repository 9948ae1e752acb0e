-- ===== src/ThreadPool.antt =====
-- The thread pools: c/old_practice/work_srcs/socket/common/thread_pool/thread_pool.c and
-- c/old_practice/work_srcs/socket_udp/common/thread_pool/thread_pool.c. Their threads are steps of
-- a relation; a task stands as a number, and the queue as its list of tasks.
pub mod Sock
pub mod Udp
pub mod Create
pub mod Statics
mod Tests
use practice_project.Prelude.{ℕ, Option, some, none, ◌==◌, if◌then◌else◌}

-- A family indexed by threads, with one changed.
abbrev pub at_thread : {A : Type 0} → (ℕ → A) → ℕ → A → ℕ → A
at_thread f i a j = if i == j then a else f j
