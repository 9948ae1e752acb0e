-- ===== src/Queues/SockMsg.antt =====
-- socket/common/sock_msg/msg_queue/msg_queue.c.
use practice_project.Prelude.{
  ℕ, zero, suc, ◌<◌, ◌≡◌, refl, List, [], ◌∷◌, Option, none, some, ◌>>=◌, Bool, true, arith, length,
  if◌then◌else◌,
}
use practice_project.ListApi.{ListApi}
use practice_project.Queues.{Code, success, error, empty, full, first, assign}

module _ {A : Type 0} (api : ListApi A) where
  -- `init_msg_queue`; `malloc_ok` says whether the allocation succeeds. Its result is written
  -- through untested, so `none` is a fault.
  unfoldable pub init_msg_queue : (malloc_ok : Bool) → Option (Option api.Head)
  init_msg_queue malloc_ok = if malloc_ok then some (some api.init) else none

  -- `en_msg_to_queue`. `malloc_ok` says whether there is memory for the node; NULL is written
  -- through.
  pub en_msg_to_queue :
      Option api.Head → Option A → (malloc_ok : Bool) → Option (Code × Option api.Head)
  en_msg_to_queue none msg malloc_ok = some (error, none)
  en_msg_to_queue (some q) none malloc_ok = some (error, some q)
  en_msg_to_queue (some q) (some x) malloc_ok =
      if malloc_ok then some (success, some (api.add x q)) else none

  -- `de_msg_from_queue`; `msg` is what the caller's pointer points to.
  pub de_msg_from_queue : Option api.Head → Option A → Option (Code × Option A × Option api.Head)
  de_msg_from_queue none msg = some (error, msg, none)
  de_msg_from_queue (some q) msg =
      let taken : Option (Code × Option A × Option api.Head) = do
        x ← first (api.entries q)
        some (success, assign msg x, some (api.del 0 q))
      in if api.is_empty q then some (empty, msg, some q) else taken

  -- `while (QUEUE_SUCCESS == de_msg_from_queue(msg_queue, NULL)) { }`, on fuel.
  pub empty_msg_queue : ℕ → Option api.Head → Option (Option api.Head)
  empty_msg_queue zero q = none
  empty_msg_queue (suc k) q = do
    (ret, msg, q') ← de_msg_from_queue q none
    let rest = empty_msg_queue k q'
    elim ret [ success ↦ rest | error ↦ some q' | empty ↦ some q' | full ↦ some q' ]

  -- `destroy_msg_queue` of the pointer `*_msg_queue`, which it leaves NULL.
  pub destroy_msg_queue : ℕ → Option api.Head → Option (Code × Option api.Head)
  destroy_msg_queue k none = some (success, none)
  destroy_msg_queue k (some q) = do _ ← empty_msg_queue k (some q); some (success, none)

  -- With memory for the node, `en_msg_to_queue` on a queue returns QUEUE_SUCCESS and puts the
  -- message before the others. A NULL queue or a NULL message is refused with QUEUE_ERROR, whatever the
  -- memory, and changes nothing.
  pub en_msg_to_queue-entries :
      (q : api.Head) (queue : Option api.Head) (msg : A) (place : Option A) (malloc_ok : Bool)
      → ((q' : api.Head) × (en_msg_to_queue (some q) (some msg) true ≡ some (success, some q'))
          × (api.entries q' ≡ msg ∷ api.entries q))
        × (en_msg_to_queue none place malloc_ok ≡ some (error, none))
        × (en_msg_to_queue queue none malloc_ok ≡ some (error, queue))
  unfolding en_msg_to_queue
  en_msg_to_queue-entries q queue msg place malloc_ok = (
    (api.add msg q, refl, api.entries-add msg q),
    refl,
    elim queue as (λ p. en_msg_to_queue p none malloc_ok ≡ some (error, p)) [
      | none ↦ refl
      | some h ↦ refl
    ],
  )

  -- What `de_msg_from_queue` promises a queue with the given entries.
  abbrev pub Dequeued : api.Head → Option A → List A → Code × Option A × Option api.Head → Type 0
  Dequeued q msg [] (ret, o, q') = (ret ≡ empty) × (o ≡ msg) × (q' ≡ some q)
  Dequeued q msg (x ∷ xs) (ret, o, q') =
      (ret ≡ success) × (o ≡ assign msg x) × ((h : api.Head) × (q' ≡ some h) × (api.entries h ≡ xs))

  pub de_msg_from_queue-entries_at :
      (q : api.Head) (msg : Option A) (items : List A)
      → api.entries q ≡ items
      → (r : Code × Option A × Option api.Head) × (de_msg_from_queue (some q) msg ≡ some r)
        × Dequeued q msg items r
  unfolding de_msg_from_queue
  de_msg_from_queue-entries_at q msg [] e =
      ((empty, msg, some q), rw (api.is_empty-entries q, e), (refl, refl, refl))
  de_msg_from_queue-entries_at q msg (x ∷ xs) e = (
    (success, assign msg x, some (api.del 0 q)),
    rw (api.is_empty-entries q, e),
    (refl, refl, (api.del 0 q, refl, rw (api.entries-del 0 q, e))),
  )

  -- `de_msg_from_queue` on a queue does not fault: without a message it returns QUEUE_EMPTY and changes
  -- nothing, else it returns QUEUE_SUCCESS and takes the first message, which the caller's pointer
  -- gets unless it is NULL.
  pub de_msg_from_queue-entries :
      (q : api.Head) (msg : Option A)
      → (r : Code × Option A × Option api.Head) × (de_msg_from_queue (some q) msg ≡ some r)
        × Dequeued q msg (api.entries q) r
  de_msg_from_queue-entries q msg = de_msg_from_queue-entries_at q msg (api.entries q) refl

  empty_msg_queue-ok :
      (k : ℕ) (q : api.Head) (items : List A)
      → api.entries q ≡ items
      → length items < k
      → (h : api.Head) × (empty_msg_queue k (some q) ≡ some (some h)) × (api.entries h ≡ [])
  unfolding empty_msg_queue de_msg_from_queue
  empty_msg_queue-ok zero q items e fuel = absurd (omega arith)
  empty_msg_queue-ok (suc k) q [] e fuel = (q, rw (api.is_empty-entries q, e), e)
  empty_msg_queue-ok (suc k) q (x ∷ xs) e fuel =
      let rest : api.entries (api.del 0 q) ≡ xs = rw (api.entries-del 0 q, e) in
      let (g, next, none_left) = empty_msg_queue-ok k (api.del 0 q) xs rest (omega arith) in
      (g, rw (api.is_empty-entries q, e) next, none_left)

  -- With more rounds than messages, `destroy_msg_queue` returns QUEUE_SUCCESS and leaves the pointer
  -- NULL, and a call with NULL returns QUEUE_SUCCESS at once.
  pub destroy_msg_queue-ok :
      (k : ℕ) (q : api.Head)
      → length (api.entries q) < k
      → (destroy_msg_queue k (some q) ≡ some (success, none))
        × (destroy_msg_queue k none ≡ some (success, none))
  unfolding destroy_msg_queue
  destroy_msg_queue-ok k q fuel =
      let (h, e, _) = empty_msg_queue-ok k q (api.entries q) refl fuel in (rw e, refl)
