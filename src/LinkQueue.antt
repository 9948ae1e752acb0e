-- ===== src/LinkQueue.antt =====
-- c/old_practice/lib_srcs/lib_queue/link/link_queue.c: a linked queue of blocks of `data_size`
-- bytes. Nodes and blocks live in a heap at addresses, of which 0 is NULL. The queue's header is
-- the record that a function takes and returns. What `malloc` returns is an argument.
pub mod Chain
pub mod Insert
pub mod Failure
pub mod Remove
pub mod Destroy
mod Tests
use practice_project.Prelude.{
  ℕ, zero, suc, List, [], Option, none, some, ◌==◌, if◌then◌else◌, not, Bool, true, false,
}
use practice_project.Memory.{memcpy}

-- `struct LinkNode`.
pub record LinkNode : Type 0 where
  pub block : ℕ
  pub next : ℕ

abbrev pub link_node : ℕ → ℕ → LinkNode
link_node d n = record { block = d; next = n }

pub record Heap : Type 0 where
  pub nodes : ℕ → Option LinkNode
  pub blocks : ℕ → Option (List ℕ)

-- `struct LinkQueue`.
pub record LinkQueue : Type 0 where
  pub front : ℕ
  pub rear : ℕ
  pub data_size : ℕ

-- What the allocations of a call return: the addresses, and the content of the new block.
pub record Mallocs : Type 0 where
  pub node : ℕ
  pub block : ℕ
  pub junk : List ℕ

-- `RET_ERROR` and `QUEUE_RET_VALUE`.
pub data Ret : Type 0 where
  success full empty error : Ret

-- A command; `none` is a fault, such as a use of NULL or of a freed address.
abbrev pub Cmd : Type 0 → Type 0
Cmd A = Heap → Option (A × Heap)

abbrev pub pure : {A : Type 0} → A → Cmd A
pure a h = some (a, h)

-- The rest of a command after its first result.
abbrev pub and_then : {A B : Type 0} → Option (A × Heap) → (A → Cmd B) → Option (B × Heap)
and_then none f = none
and_then (some (a, h)) f = f a h

infixl 5 ◌>>=◌ ◌>>◌
abbrev pub ◌>>=◌ : {A B : Type 0} → Cmd A → (A → Cmd B) → Cmd B
m >>= f = λ h. and_then (m h) f

abbrev pub ◌>>◌ : {A B : Type 0} → Cmd A → Cmd B → Cmd B
m >> k = m >>= λ _. k

abbrev pub update : {A : Type 0} → (ℕ → Option A) → ℕ → Option A → ℕ → Option A
update f p v q = if p == q then v else f q

-- `*p`.
pub load_node : ℕ → Cmd LinkNode
load_node p h = if p == 0 then none else elim (h.nodes p) [ none ↦ none | some n ↦ some (n, h) ]

-- A node just allocated, or one that was read before.
abbrev pub store_node : ℕ → Option LinkNode → Cmd (Unit {0})
store_node p n h = some (tt, record h { nodes = update h.nodes p n })

pub load_block : ℕ → Cmd (List ℕ)
load_block d h = if d == 0 then none else elim (h.blocks d) [ none ↦ none | some b ↦ some (b, h) ]

abbrev pub store_block : ℕ → Option (List ℕ) → Cmd (Unit {0})
store_block d b h = some (tt, record h { blocks = update h.blocks d b })

-- A computation on bytes that are at hand, as a command.
abbrev pub lift : {A : Type 0} → Option A → Cmd A
lift none h = none
lift (some a) h = some (a, h)

-- `memcpy` between blocks that are at hand.
abbrev pub copy : List ℕ → List ℕ → ℕ → Cmd (List ℕ)
copy to from n = lift (memcpy to 0 from 0 n)

-- `free(p)` of a block; `free(NULL)` does nothing.
pub free_block : ℕ → Cmd (Unit {0})
free_block d = if d == 0 then pure tt else do load_block d; store_block d none

-- `free(p)` of a node.
pub free_node : ℕ → Cmd (Unit {0})
free_node p = do load_node p; store_node p none

-- `InitLinkQueue`: `header_ok` says whether the header's allocation succeeds. A failed allocation
-- is logged and then written through, which is a fault. A NULL return is `none` inside.
pub init_link_queue : (header_ok : Bool) → ℕ → Mallocs → Cmd (Option LinkQueue)
init_link_queue header_ok data_size m =
    let made : Cmd (Option LinkQueue) = do
      store_node m.node (some (link_node 0 0))
      pure (some (record { front = m.node; rear = m.node; data_size = data_size }))
    in let start : Cmd (Option LinkQueue) =
        if m.node == 0 then (λ _. none) else if header_ok then made else (λ _. none) in
      if data_size == 0 then pure none else start

-- The rear node gets its block, unless it has one; false if that allocation fails.
pub ensure_block : LinkQueue → Mallocs → Cmd Bool
ensure_block q m = do
  r ← load_node q.rear
  let made : Cmd Bool = do
    store_block m.block (some m.junk)
    store_node q.rear (some (record r { block = m.block }))
    pure true
  if r.block == 0 then (if m.block == 0 then pure false else made) else pure true

-- The item goes into the rear node's block, and the new node becomes the rear.
pub append_node : LinkQueue → Option (List ℕ) → Mallocs → Cmd (Ret × LinkQueue)
append_node q item m = do
  f ← load_node q.front
  r ← load_node q.rear
  let link : Cmd (Ret × LinkQueue) = do
    store_node q.rear (some (record r { next = m.node }))
    pure (success, record q { rear = m.node })
  let filled : List ℕ → Cmd (Ret × LinkQueue) = λ bytes. do
    b ← load_block r.block
    b' ← copy b bytes q.data_size
    store_block r.block (some b')
    link
  elim item [ none ↦ link | some bytes ↦ if f.block == 0 then link else filled bytes ]

-- `EnLinkQueue`; `item` is `none` for a NULL `data`.
pub en_link_queue : LinkQueue → Option (List ℕ) → ℕ → Mallocs → Cmd (Ret × LinkQueue)
en_link_queue q item size m =
    let enter : Cmd (Ret × LinkQueue) = do
      store_node m.node (some (link_node 0 0))
      ready ← ensure_block q m
      if ready then append_node q item m else pure (error, q)
    in if not (q.data_size == size)
      then pure (error, q)
      else if m.node == 0
      then pure (error, q)
      else enter

-- `DeLinkQueue`; `out` is the caller's block, `none` for NULL, returned as the copy leaves it.
pub de_link_queue : LinkQueue → Option (List ℕ) → ℕ → Cmd (Ret × Option (List ℕ) × LinkQueue)
de_link_queue q out size =
    let leave : Cmd (Ret × Option (List ℕ) × LinkQueue) = do
      f ← load_node q.front
      let copied : List ℕ → Cmd (Option (List ℕ)) =
          λ o. do b ← load_block f.block; o' ← copy o b q.data_size; pure (some o')
      o ← (elim out [
        | none ↦ pure none
        | some o ↦ if f.block == 0 then pure (some o) else copied o
      ])
      free_block f.block
      free_node q.front
      pure (success, o, record q { front = f.next })
    in if not (q.data_size == size)
      then pure (error, out, q)
      else if q.front == q.rear
      then pure (empty, out, q)
      else leave

-- The loop of `DestoryLinkQueue`, on fuel.
pub drain : ℕ → LinkQueue → Cmd LinkQueue
drain zero q h = none
drain (suc k) q h =
    let more : Option (LinkQueue × Heap) =
      (de_link_queue q none q.data_size >>= λ (_, _, q'). drain k q') h in
    if q.front == q.rear then some (q, h) else more

-- `DestoryLinkQueue`, with the rounds of its loop; `none` for a queue that is NULL. The header
-- and the caller's pointer to it are gone afterwards.
pub destroy_link_queue : ℕ → Option LinkQueue → Cmd Ret
destroy_link_queue k none = pure error
destroy_link_queue k (some q) = do q' ← drain k q; free_node q'.front; pure success
