-- ===== src/Queues/UdpMsg.antt =====
-- socket_udp/common/lcmsg/lcmsg_queue/lcmsg_queue.c.
use practice_project.Prelude.{
  ℕ, zero, suc, ◌<◌, ◌≡◌, refl, List, [], ◌∷◌, ◌++◌, Option, none, some, ◌>>=◌, Bool, arith, length,
  if◌then◌else◌,
}
use practice_project.ListApi.{ListApi}
use practice_project.Queues.{Code, success, error, empty, full, first, assign, content}

module _ {A : Type 0} (api : ListApi A) where
  -- `InitMsgQueue`; `malloc_ok` says whether the allocation succeeds.
  unfoldable pub init_msg_queue : (malloc_ok : Bool) → Option api.Head
  init_msg_queue malloc_ok = if malloc_ok then some api.init else none

  -- `EnMsgQueue`. `made` is what `malloc` returns: `none` for NULL, which is written through,
  -- or the struct's content as it was found.
  pub en_msg_queue :
      Option api.Head → Option A → (made : Option A) → Option (Code × Option api.Head)
  en_msg_queue none msg made = some (error, none)
  en_msg_queue (some q) msg none = none
  en_msg_queue (some q) msg (some junk) = some (success, some (api.add_tail (content msg junk) q))

  -- `DeMsgQueue`; `msg` is what the caller's pointer points to.
  pub de_msg_queue : Option api.Head → Option A → Option (Code × Option A × Option api.Head)
  de_msg_queue none msg = some (error, msg, none)
  de_msg_queue (some q) msg =
      let taken : Option (Code × Option A × Option api.Head) = do
        x ← first (api.entries q)
        some (success, assign msg x, some (api.del 0 q))
      in if api.is_empty q then some (empty, msg, some q) else taken

  -- `while (DeMsgQueue(msgQueue, NULL) != QUEUE_EMPTY) { }`, on fuel.
  pub empty_msg_queue : ℕ → Option api.Head → Option (Option api.Head)
  empty_msg_queue zero q = none
  empty_msg_queue (suc k) q = do
    (ret, msg, q') ← de_msg_queue q none
    let rest = empty_msg_queue k q'
    elim ret [ success ↦ rest | error ↦ rest | empty ↦ some q' | full ↦ rest ]

  -- `DestoryMsgQueue` of the pointer `*_msgQueue`, which it leaves NULL.
  pub destroy_msg_queue : ℕ → Option api.Head → Option (Code × Option api.Head)
  destroy_msg_queue k none = some (success, none)
  destroy_msg_queue k (some q) = do _ ← empty_msg_queue k (some q); some (success, none)

  -- With memory for the node, `EnMsgQueue` on a queue returns QUEUE_SUCCESS and adds the message
  -- behind the others; a NULL queue is refused with QUEUE_ERROR, and nothing is written.
  pub en_msg_queue-entries :
      (q : api.Head) (msg : Option A) (made : Option A) (junk : A)
      → ((q' : api.Head) × (en_msg_queue (some q) msg (some junk) ≡ some (success, some q'))
          × (api.entries q' ≡ api.entries q ++ content msg junk ∷ []))
        × (en_msg_queue none msg made ≡ some (error, none))
  unfolding en_msg_queue
  en_msg_queue-entries q msg made junk =
      ((api.add_tail (content msg junk) q, refl, api.entries-add_tail (content msg junk) q), refl)

  -- What `DeMsgQueue` promises a queue with the given entries.
  abbrev pub Dequeued : api.Head → Option A → List A → Code × Option A × Option api.Head → Type 0
  Dequeued q msg [] (ret, o, q') = (ret ≡ empty) × (o ≡ msg) × (q' ≡ some q)
  Dequeued q msg (x ∷ xs) (ret, o, q') =
      (ret ≡ success) × (o ≡ assign msg x) × ((h : api.Head) × (q' ≡ some h) × (api.entries h ≡ xs))

  pub de_msg_queue-entries_at :
      (q : api.Head) (msg : Option A) (items : List A)
      → api.entries q ≡ items
      → (r : Code × Option A × Option api.Head) × (de_msg_queue (some q) msg ≡ some r)
        × Dequeued q msg items r
  unfolding de_msg_queue
  de_msg_queue-entries_at q msg [] e =
      ((empty, msg, some q), rw (api.is_empty-entries q, e), (refl, refl, refl))
  de_msg_queue-entries_at q msg (x ∷ xs) e = (
    (success, assign msg x, some (api.del 0 q)),
    rw (api.is_empty-entries q, e),
    (refl, refl, (api.del 0 q, refl, rw (api.entries-del 0 q, e))),
  )

  -- `DeMsgQueue` on a queue does not fault: without a message it returns QUEUE_EMPTY and changes
  -- nothing, else it returns QUEUE_SUCCESS and takes the first message, which the caller's pointer
  -- gets unless it is NULL.
  pub de_msg_queue-entries :
      (q : api.Head) (msg : Option A)
      → (r : Code × Option A × Option api.Head) × (de_msg_queue (some q) msg ≡ some r)
        × Dequeued q msg (api.entries q) r
  de_msg_queue-entries q msg = de_msg_queue-entries_at q msg (api.entries q) refl

  empty_msg_queue-ok :
      (k : ℕ) (q : api.Head) (items : List A)
      → api.entries q ≡ items
      → length items < k
      → (h : api.Head) × (empty_msg_queue k (some q) ≡ some (some h)) × (api.entries h ≡ [])
  unfolding empty_msg_queue de_msg_queue
  empty_msg_queue-ok zero q items e fuel = absurd (omega arith)
  empty_msg_queue-ok (suc k) q [] e fuel = (q, rw (api.is_empty-entries q, e), e)
  empty_msg_queue-ok (suc k) q (x ∷ xs) e fuel =
      let rest : api.entries (api.del 0 q) ≡ xs = rw (api.entries-del 0 q, e) in
      let (g, next, none_left) = empty_msg_queue-ok k (api.del 0 q) xs rest (omega arith) in
      (g, rw (api.is_empty-entries q, e) next, none_left)

  -- With more rounds than messages, `DestoryMsgQueue` returns QUEUE_SUCCESS and leaves the pointer
  -- NULL, and a call with NULL returns QUEUE_SUCCESS at once.
  pub destroy_msg_queue-ok :
      (k : ℕ) (q : api.Head)
      → length (api.entries q) < k
      → (destroy_msg_queue k (some q) ≡ some (success, none))
        × (destroy_msg_queue k none ≡ some (success, none))
  unfolding destroy_msg_queue
  destroy_msg_queue-ok k q fuel =
      let (h, e, _) = empty_msg_queue-ok k q (api.entries q) refl fuel in (rw e, refl)
