-- ===== src/SockServer/Queue.antt =====
-- server_msgqueue/server_msgqueue.c: the server's message queue, made at its first use.
use practice_project.Prelude.{
  ℕ, ◌<◌, ◌≡◌, refl, List, [], ◌∷◌, Option, none, some, ◌>>=◌, Bool, true, false, if◌then◌else◌,
  length,
}
use practice_project.ListApi.{ListApi}
use practice_project.Queues.{Code, success}
use practice_project.Queues.SockMsg.{
  init_msg_queue, en_msg_to_queue, de_msg_from_queue, destroy_msg_queue, en_msg_to_queue-entries,
  de_msg_from_queue-entries_at, destroy_msg_queue-ok,
}

module _ {A : Type 0} (api : ListApi A) where
  -- `srv_msg_queue_t`: the pointer, and whether the mutex has not been destroyed.
  pub record SrvMsgQueue : Type 0 where
    pub queue : Option api.Head
    pub mutex_ : Bool

  -- A call under the mutex; to lock a destroyed one is undefined.
  abbrev pub locked : {B : Type 0} → SrvMsgQueue → Option B → Option B
  locked s act = if s.mutex_ then act else none

  -- `init_srv_msg_queue`.
  pub init_srv_msg_queue : (malloc_ok : Bool) → SrvMsgQueue → Option SrvMsgQueue
  init_srv_msg_queue malloc_ok s =
      let made : Option SrvMsgQueue =
        locked s (do q ← init_msg_queue api malloc_ok; some (record s { queue = q })) in
      elim s.queue [ none ↦ made | some q ↦ some s ]

  -- `en_srv_msg_queue`.
  pub en_srv_msg_queue : (malloc_ok : Bool) → Option A → SrvMsgQueue → Option (Code × SrvMsgQueue)
  en_srv_msg_queue malloc_ok msg s = do
    s' ← init_srv_msg_queue malloc_ok s
    locked s' (do
      (ret, q) ← en_msg_to_queue api s'.queue msg malloc_ok
      some (ret, record s' { queue = q }))

  -- `de_srv_msg_queue`; `msg` is what the caller's pointer points to.
  pub de_srv_msg_queue :
      (malloc_ok : Bool) → Option A → SrvMsgQueue → Option (Code × Option A × SrvMsgQueue)
  de_srv_msg_queue malloc_ok msg s = do
    s' ← init_srv_msg_queue malloc_ok s
    locked s' (do
      (ret, out, q) ← de_msg_from_queue api s'.queue msg
      some (ret, out, record s' { queue = q }))

  -- `destroy_srv_msg_queue`, with `k` rounds to empty the queue.
  pub destroy_srv_msg_queue : ℕ → SrvMsgQueue → Option (Code × SrvMsgQueue)
  destroy_srv_msg_queue k s =
      let freed : Option (Code × SrvMsgQueue) = locked s (do
        (ret, q) ← destroy_msg_queue api k s.queue
        some (ret, record { queue = q; mutex_ = false })) in
      elim s.queue [ none ↦ some (success, record s { mutex_ = false }) | some q ↦ freed ]

  -- The messages, in the order in which they are taken; there is none before the first use.
  abbrev pub waiting : Option api.Head → List A
  waiting none = []
  waiting (some q) = api.entries q

  -- With memory and before `destroy_srv_msg_queue`, `en_srv_msg_queue` makes the queue if there is
  -- none, returns QUEUE_SUCCESS, and the message is the next to be taken.
  pub en_srv_msg_queue-next :
      (msg : A) (q : Option api.Head)
      → (q' : api.Head) × (en_srv_msg_queue true (some msg) (record { queue = q; mutex_ = true })
          ≡ some (success, record { queue = some q'; mutex_ = true }))
        × (api.entries q' ≡ msg ∷ waiting q)
  unfolding en_srv_msg_queue init_srv_msg_queue init_msg_queue
  en_srv_msg_queue-next msg none =
      let ((q', e, items), _, _) = en_msg_to_queue-entries api api.init none msg none true in
      (q', rw e, rw api.entries-init at items)
  en_srv_msg_queue-next msg (some h) =
      let ((q', e, items), _, _) = en_msg_to_queue-entries api h none msg none true in
      (q', rw e, items)

  -- `de_srv_msg_queue` takes the next message and returns QUEUE_SUCCESS.
  pub de_srv_msg_queue-next :
      (malloc_ok : Bool) (place x : A) (xs : List A) (q : api.Head)
      → api.entries q ≡ x ∷ xs
      → (q' : api.Head) × (de_srv_msg_queue malloc_ok
            (some place)
            (record { queue = some q; mutex_ = true })
          ≡ some (success, some x, record { queue = some q'; mutex_ = true }))
        × (api.entries q' ≡ xs)
  unfolding de_srv_msg_queue init_srv_msg_queue
  de_srv_msg_queue-next malloc_ok place x xs q e =
      let (r, eq, (ret, o, (q', same, items))) =
        de_msg_from_queue-entries_at api q (some place) (x ∷ xs) e in
      (q', rw (eq, ret, o, same), items)

  -- After `destroy_srv_msg_queue`, with more rounds than messages if there is a queue, the pointer is
  -- NULL and the mutex is destroyed, so every later `en_srv_msg_queue` and `de_srv_msg_queue` locks a
  -- destroyed mutex.
  pub destroy_srv_msg_queue-final :
      (k : ℕ) (q : Option api.Head) (malloc_ok : Bool) (msg : Option A)
      → length (waiting q) < k
      → (s : SrvMsgQueue) × (destroy_srv_msg_queue k (record { queue = q; mutex_ = true })
          ≡ some (success, s))
        × (en_srv_msg_queue malloc_ok msg s ≡ none)
        × (de_srv_msg_queue malloc_ok msg s ≡ none)
  unfolding destroy_srv_msg_queue en_srv_msg_queue de_srv_msg_queue init_srv_msg_queue
  destroy_srv_msg_queue-final k none malloc_ok msg fuel =
      (record { queue = none; mutex_ = false }, refl, refl, refl)
  destroy_srv_msg_queue-final k (some h) malloc_ok msg fuel =
      let (e, _) = destroy_msg_queue-ok api k h fuel in
      (record { queue = none; mutex_ = false }, rw e, refl, refl)
