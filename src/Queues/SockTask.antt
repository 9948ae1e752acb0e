-- ===== src/Queues/SockTask.antt =====
-- socket/common/thread_pool/task_queue/task_queue.c.
use practice_project.Prelude.{
  ℕ, zero, suc, ◌<◌, ◌≡◌, refl, List, [], ◌∷◌, ◌++◌, Option, none, some, ◌>>=◌, Bool, true, arith,
  length, if◌then◌else◌,
}
use practice_project.ListApi.{ListApi}
use practice_project.Queues.{Code, success, error, empty, full, first, assign}

module _ {A : Type 0} (api : ListApi A) where
  -- `init_task_queue`; `malloc_ok` says whether the allocation succeeds. Its result is written
  -- through untested, so `none` is a fault.
  unfoldable pub init_task_queue : (malloc_ok : Bool) → Option (Option api.Head)
  init_task_queue malloc_ok = if malloc_ok then some (some api.init) else none

  -- `en_task_to_queue`. `malloc_ok` says whether there is memory for the node; NULL is written
  -- through.
  pub en_task_to_queue :
      Option api.Head → Option A → (malloc_ok : Bool) → Option (Code × Option api.Head)
  en_task_to_queue none task malloc_ok = some (error, none)
  en_task_to_queue (some q) none malloc_ok = some (error, some q)
  en_task_to_queue (some q) (some x) malloc_ok =
      if malloc_ok then some (success, some (api.add_tail x q)) else none

  -- `de_task_from_queue`; `task` is what the caller's pointer points to.
  pub de_task_from_queue : Option api.Head → Option A → Option (Code × Option A × Option api.Head)
  de_task_from_queue none task = some (error, task, none)
  de_task_from_queue (some q) task =
      let taken : Option (Code × Option A × Option api.Head) = do
        x ← first (api.entries q)
        some (success, assign task x, some (api.del 0 q))
      in if api.is_empty q then some (empty, task, some q) else taken

  -- `while (QUEUE_SUCCESS == de_task_from_queue(task_queue, NULL)) { }`, on fuel.
  pub empty_task_queue : ℕ → Option api.Head → Option (Option api.Head)
  empty_task_queue zero q = none
  empty_task_queue (suc k) q = do
    (ret, task, q') ← de_task_from_queue q none
    let rest = empty_task_queue k q'
    elim ret [ success ↦ rest | error ↦ some q' | empty ↦ some q' | full ↦ some q' ]

  -- `destroy_task_queue` of the pointer `*_task_queue`, which it leaves NULL.
  pub destroy_task_queue : ℕ → Option api.Head → Option (Code × Option api.Head)
  destroy_task_queue k none = some (success, none)
  destroy_task_queue k (some q) = do _ ← empty_task_queue k (some q); some (success, none)

  -- With memory for the node, `en_task_to_queue` on a queue returns QUEUE_SUCCESS and adds the
  -- task behind the others. A NULL queue or a NULL task is refused with QUEUE_ERROR, whatever the
  -- memory, and changes nothing.
  pub en_task_to_queue-entries :
      (q : api.Head) (queue : Option api.Head) (task : A) (place : Option A) (malloc_ok : Bool)
      → ((q' : api.Head) × (en_task_to_queue (some q) (some task) true ≡ some (success, some q'))
          × (api.entries q' ≡ api.entries q ++ task ∷ []))
        × (en_task_to_queue none place malloc_ok ≡ some (error, none))
        × (en_task_to_queue queue none malloc_ok ≡ some (error, queue))
  unfolding en_task_to_queue
  en_task_to_queue-entries q queue task place malloc_ok = (
    (api.add_tail task q, refl, api.entries-add_tail task q),
    refl,
    elim queue as (λ p. en_task_to_queue p none malloc_ok ≡ some (error, p)) [
      | none ↦ refl
      | some h ↦ refl
    ],
  )

  -- What `de_task_from_queue` promises a queue with the given entries.
  abbrev pub Dequeued : api.Head → Option A → List A → Code × Option A × Option api.Head → Type 0
  Dequeued q task [] (ret, o, q') = (ret ≡ empty) × (o ≡ task) × (q' ≡ some q)
  Dequeued q task (x ∷ xs) (ret, o, q') =
      (ret ≡ success)
      × (o ≡ assign task x)
      × ((h : api.Head) × (q' ≡ some h) × (api.entries h ≡ xs))

  de_task_from_queue-entries_at :
      (q : api.Head) (task : Option A) (items : List A)
      → api.entries q ≡ items
      → (r : Code × Option A × Option api.Head) × (de_task_from_queue (some q) task ≡ some r)
        × Dequeued q task items r
  unfolding de_task_from_queue
  de_task_from_queue-entries_at q task [] e =
      ((empty, task, some q), rw (api.is_empty-entries q, e), (refl, refl, refl))
  de_task_from_queue-entries_at q task (x ∷ xs) e = (
    (success, assign task x, some (api.del 0 q)),
    rw (api.is_empty-entries q, e),
    (refl, refl, (api.del 0 q, refl, rw (api.entries-del 0 q, e))),
  )

  -- `de_task_from_queue` on a queue does not fault: without a task it returns QUEUE_EMPTY and changes
  -- nothing, else it returns QUEUE_SUCCESS and takes the first task, which the caller's pointer
  -- gets unless it is NULL.
  pub de_task_from_queue-entries :
      (q : api.Head) (task : Option A)
      → (r : Code × Option A × Option api.Head) × (de_task_from_queue (some q) task ≡ some r)
        × Dequeued q task (api.entries q) r
  de_task_from_queue-entries q task = de_task_from_queue-entries_at q task (api.entries q) refl

  empty_task_queue-ok :
      (k : ℕ) (q : api.Head) (items : List A)
      → api.entries q ≡ items
      → length items < k
      → (h : api.Head) × (empty_task_queue k (some q) ≡ some (some h)) × (api.entries h ≡ [])
  unfolding empty_task_queue de_task_from_queue
  empty_task_queue-ok zero q items e fuel = absurd (omega arith)
  empty_task_queue-ok (suc k) q [] e fuel = (q, rw (api.is_empty-entries q, e), e)
  empty_task_queue-ok (suc k) q (x ∷ xs) e fuel =
      let rest : api.entries (api.del 0 q) ≡ xs = rw (api.entries-del 0 q, e) in
      let (g, next, none_left) = empty_task_queue-ok k (api.del 0 q) xs rest (omega arith) in
      (g, rw (api.is_empty-entries q, e) next, none_left)

  -- With more rounds than tasks, `destroy_task_queue` returns QUEUE_SUCCESS and leaves the pointer
  -- NULL, and a call with NULL returns QUEUE_SUCCESS at once.
  pub destroy_task_queue-ok :
      (k : ℕ) (q : api.Head)
      → length (api.entries q) < k
      → (destroy_task_queue k (some q) ≡ some (success, none))
        × (destroy_task_queue k none ≡ some (success, none))
  unfolding destroy_task_queue
  destroy_task_queue-ok k q fuel =
      let (h, e, _) = empty_task_queue-ok k q (api.entries q) refl fuel in (rw e, refl)
