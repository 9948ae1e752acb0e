-- ===== src/UdpServer/Queue.antt =====
-- server_lcmsgqueue/server_lcmsgqueue.c of the server, and client_lcmsgqueue/client_lcmsgqueue.c of
-- the client: a message queue made at its first use. A function runs under the queue's mutex.
use practice_project.Prelude.{
  ℕ, ◌<◌, ◌≡◌, ◌≢◌, refl, List, [], ◌∷◌, ◌++◌, Option, none, some, ◌>>=◌, Bool, true, length, arith,
}
use practice_project.ListApi.{ListApi}
use practice_project.Statics.{Static, null, live, freed, deref, make_if_null}
use practice_project.Queues.{Code, success, empty}
use practice_project.Queues.UdpMsg.{
  en_msg_queue, de_msg_queue, destroy_msg_queue, en_msg_queue-entries, de_msg_queue-entries_at,
  destroy_msg_queue-ok,
}

-- The pointer back in the struct, after a call with its queue.
abbrev pub put_back : {A H : Type 0} → Option H → A → Option (A × Static H)
put_back none a = none
put_back (some h) a = some (a, live h)

module _ {A : Type 0} (api : ListApi A) where
  -- `InitSrvMsgQueue`.
  abbrev pub init_srv_msg_queue : Bool → Static api.Head → Option (Static api.Head)
  init_srv_msg_queue mem s = make_if_null mem api.init s

  -- `DestorySrvMsgQueue`: the static pointer keeps the address of what it frees. `free` of the
  -- queue's pointer does nothing, since `DestoryMsgQueue` leaves it NULL.
  pub destory_srv_msg_queue : ℕ → Static api.Head → Option (Static api.Head)
  destory_srv_msg_queue k null = some null
  destory_srv_msg_queue k (live q) = do _ ← destroy_msg_queue api k (some q); some freed
  destory_srv_msg_queue k freed = none

  -- `EnSrvMsgQueue`; `made` is the new node.
  pub en_srv_msg_queue :
      Bool → Option A → (made : Option A) → Static api.Head → Option (Code × Static api.Head)
  en_srv_msg_queue mem msg made s = do
    s' ← init_srv_msg_queue mem s
    q ← deref s'
    (ret, q') ← en_msg_queue api (some q) msg made
    put_back q' ret

  -- `DeSrvMsgQueue`.
  pub de_srv_msg_queue :
      Bool → Option A → Static api.Head → Option ((Code × Option A) × Static api.Head)
  de_srv_msg_queue mem msg s = do
    s' ← init_srv_msg_queue mem s
    q ← deref s'
    (ret, out, q') ← de_msg_queue api (some q) msg
    put_back q' (ret, out)

  -- `InitCliMsgQueue`.
  abbrev pub init_cli_msg_queue : Bool → Static api.Head → Option (Static api.Head)
  init_cli_msg_queue mem s = make_if_null mem api.init s

  -- `DestoryCliMsgQueue`, which resets the pointer.
  pub destory_cli_msg_queue : ℕ → Static api.Head → Option (Static api.Head)
  destory_cli_msg_queue k null = some null
  destory_cli_msg_queue k (live q) = do _ ← destroy_msg_queue api k (some q); some null
  destory_cli_msg_queue k freed = none

  -- `EnCliMsgQueue`.
  pub en_cli_msg_queue :
      Bool → Option A → (made : Option A) → Static api.Head → Option (Code × Static api.Head)
  en_cli_msg_queue mem msg made s = do
    s' ← init_cli_msg_queue mem s
    q ← deref s'
    (ret, q') ← en_msg_queue api (some q) msg made
    put_back q' ret

  -- `DeCliMsgQueue`.
  pub de_cli_msg_queue :
      Bool → Option A → Static api.Head → Option ((Code × Option A) × Static api.Head)
  de_cli_msg_queue mem msg s = do
    s' ← init_cli_msg_queue mem s
    q ← deref s'
    (ret, out, q') ← de_msg_queue api (some q) msg
    put_back q' (ret, out)

  -- The messages that wait; there is none before the first use.
  abbrev pub waiting : Static api.Head → List A
  waiting null = []
  waiting (live q) = api.entries q
  waiting freed = []

  -- With memory, on a queue that is not destroyed, `EnSrvMsgQueue` makes the queue if there is none,
  -- returns QUEUE_SUCCESS and puts the message behind those that wait.
  pub en_srv_msg_queue-waiting :
      (msg junk : A) (s : Static api.Head)
      → s ≢ freed
      → (q : api.Head) × (en_srv_msg_queue true (some msg) (some junk) s ≡ some (success, live q))
        × (api.entries q ≡ waiting s ++ msg ∷ [])
  unfolding en_srv_msg_queue
  en_srv_msg_queue-waiting msg junk null ok =
      let ((q, e, items), _) = en_msg_queue-entries api api.init (some msg) none junk in
      (q, rw e, rw api.entries-init at items)
  en_srv_msg_queue-waiting msg junk (live h) ok =
      let ((q, e, items), _) = en_msg_queue-entries api h (some msg) none junk in (q, rw e, items)
  en_srv_msg_queue-waiting msg junk freed ok = absurd (ok refl)

  -- After `Destory...MsgQueue` on a queue, with more rounds than messages, the server's next
  -- `EnSrvMsgQueue` is a fault, as the pointer still leads to what was freed, while the client's
  -- `EnCliMsgQueue`, with memory, makes a new queue that holds just the message.
  pub destory_msg_queues :
      (k : ℕ) (h : api.Head) (msg junk : A)
      → length (api.entries h) < k
      → ((t : Static api.Head) × (destory_srv_msg_queue k (live h) ≡ some t)
          × (en_srv_msg_queue true (some msg) (some junk) t ≡ none))
        × ((t : Static api.Head) × (q : api.Head) × (destory_cli_msg_queue k (live h) ≡ some t)
            × (en_cli_msg_queue true (some msg) (some junk) t ≡ some (success, live q))
            × (api.entries q ≡ msg ∷ []))
  unfolding destory_srv_msg_queue destory_cli_msg_queue en_srv_msg_queue en_cli_msg_queue
  destory_msg_queues k h msg junk fuel =
      let (e, _) = destroy_msg_queue-ok api k h fuel in
      let ((q, made, items), _) = en_msg_queue-entries api api.init (some msg) none junk in
      ((freed, rw e, refl), (null, q, rw e, rw made, rw api.entries-init at items))

  -- Calls of the client's `EnCliMsgQueue` and `DeCliMsgQueue` are those of the server's functions.
  cli_msg_queue-same :
      (mem : Bool) (msg made : Option A) (s : Static api.Head)
      → (en_cli_msg_queue mem msg made s ≡ en_srv_msg_queue mem msg made s)
        × (de_cli_msg_queue mem msg s ≡ de_srv_msg_queue mem msg s)
  unfolding en_cli_msg_queue en_srv_msg_queue de_cli_msg_queue de_srv_msg_queue
  cli_msg_queue-same mem msg made s = (refl, refl)

  -- What `DeSrvMsgQueue` promises: the code, the caller's place and the queue.
  abbrev pub Taken : A → List A → Code → A → List A → Type 0
  Taken place [] ret o rest = (ret ≡ empty) × (o ≡ place) × (rest ≡ [])
  Taken place (x ∷ xs) ret o rest = (ret ≡ success) × (o ≡ x) × (rest ≡ xs)

  -- With memory, on a queue that is not destroyed, `DeSrvMsgQueue` takes the message that waits
  -- longest and returns QUEUE_SUCCESS, or returns QUEUE_EMPTY if none waits.
  pub de_srv_msg_queue-waiting :
      (place : A) (s : Static api.Head) (items : List A)
      → s ≢ freed
      → waiting s ≡ items
      → (r : Code) × (o : A) × (q : api.Head) × (de_srv_msg_queue true (some place) s
          ≡ some ((r, some o), live q))
        × Taken place items r o (api.entries q)
  unfolding de_srv_msg_queue
  de_srv_msg_queue-waiting place null [] ok e =
      let (r, eq, (ret, o, same)) =
        de_msg_queue-entries_at api api.init (some place) [] api.entries-init in
      (empty, place, api.init, rw (eq, ret, o, same), (refl, refl, api.entries-init))
  de_srv_msg_queue-waiting place null (x ∷ xs) ok e = absurd (ground arith)
  de_srv_msg_queue-waiting place (live h) [] ok e =
      let (r, eq, (ret, o, same)) = de_msg_queue-entries_at api h (some place) [] e in
      (empty, place, h, rw (eq, ret, o, same), (refl, refl, e))
  de_srv_msg_queue-waiting place (live h) (x ∷ xs) ok e =
      let (r, eq, (ret, o, (q, same, items))) =
        de_msg_queue-entries_at api h (some place) (x ∷ xs) e in
      (success, x, q, rw (eq, ret, o, same), (refl, refl, items))
  de_srv_msg_queue-waiting place freed items ok e = absurd (ok refl)
