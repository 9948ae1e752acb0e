-- ===== src/LinkQueue/Remove.antt =====
-- `DeLinkQueue` on a well-formed queue.
use practice_project.Prelude.{
  ℕ, ◌≤◌, ◌≡◌, ◌≢◌, refl, List, [], ◌∷◌, Option, none, some, arith, ◌==◌, length, true, false,
  Returns-value,
}
use mathlib.Core.Path.{subst}
use practice_project.Memory.{bytes_at, bytes_at_self, memcpy-Written, Written}
use practice_project.LinkQueue.{
  link_node, Heap, LinkQueue, Ret, success, empty, update, de_link_queue, copy,
}
use practice_project.LinkQueue.Chain.{
  Cell, Apart, Holds, Agree, Chain-frame, load_node-ok, load_block-ok, free_node-ok, free_block-ok,
}

-- The heap without a cell's node and block.
abbrev pub heap_without : Heap → Cell → Heap
heap_without h c = record {
  nodes = update h.nodes c.addr none;
  blocks = update h.blocks c.block none;
}

Agree-without : (h : Heap) (c : Cell) (cs : List Cell) → Apart c cs → Agree h (heap_without h c) cs
Agree-without h c [] apart = tt
Agree-without h c (d ∷ ds) apart = (ground arith, ground arith, Agree-without h c ds apart.2)

-- The front of a queue that holds a cell.
pub Holds-front :
    (h : Heap) (q : LinkQueue) (c : Cell) (cs : List Cell)
    → Holds h q (c ∷ cs)
    → (h.nodes q.front ≡ some (link_node c.block c.next)) × (q.front ≢ 0) × (q.front ≢ q.rear)
Holds-front h q c cs v = (
  ground (arith, v.chain.0, v.chain.1.node),
  ground (arith, v.chain.0, v.chain.1.addr_ok),
  ground (arith, v.chain.0, v.chain.1.node, v.chain.1.block_ok, v.rear_node),
)

pub Holds-tail :
    (h : Heap) (q : LinkQueue) (c : Cell) (cs : List Cell)
    → Holds h q (c ∷ cs)
    → Holds (heap_without h c) (record q { front = c.next }) cs
Holds-tail h q c cs v = record {
  positive = v.positive;
  chain =
      Chain-frame h (heap_without h c) q.data_size c.next q.rear cs (Agree-without h c cs v.chain.2)
        v.chain.3;
  rear_ok = v.rear_ok;
  rear_node = ground (arith, v.chain.1.node, v.chain.1.block_ok, v.rear_node);
}

-- With no block to copy to, the oldest item is dropped.
pub de_link_queue-drop :
    (h : Heap) (q : LinkQueue) (c : Cell) (cs : List Cell)
    → Holds h q (c ∷ cs)
    → de_link_queue q none q.data_size h
      ≡ some ((success, none, record q { front = c.next }), heap_without h c)
unfolding de_link_queue
de_link_queue-drop h q c cs v =
    let (node, front_ok, more) = Holds-front h q c cs v in
    let same : q.data_size == q.data_size ≡ true = ground arith in
    let some_left : q.front == q.rear ≡ false = ground arith in
    let block_freed : Heap = record h { blocks = update h.blocks c.block none } in
    rw (
      same,
      some_left,
      load_node-ok h q.front (link_node c.block c.next) front_ok node,
      free_block-ok h c.block c.bytes v.chain.1.block_ok v.chain.1.content,
      free_node-ok block_freed q.front (link_node c.block c.next) front_ok node,
      v.chain.0,
    )

-- What `DeLinkQueue` promises: `out` is the caller's block.
abbrev pub Dequeued :
    Heap → LinkQueue → List Cell → List ℕ → (Ret × Option (List ℕ) × LinkQueue) × Heap → Type 0
Dequeued h q [] out ((ret, o, q'), g) = (ret ≡ empty) × (o ≡ some out) × (q' ≡ q) × (g ≡ h)
Dequeued h q (c ∷ cs) out ((ret, o, q'), g) =
    (ret ≡ success)
    × ((o' : List ℕ) × (o ≡ some o') × Written out 0 c.bytes o')
    × (q' ≡ record q { front = c.next })
    × (g ≡ heap_without h c)
    × Holds g q' cs

-- For a well-formed queue, the right size and a caller's block of at least an item's size,
-- `DeLinkQueue` does not fault. With no cell it returns QUEUE_EMPTY and changes nothing. Else it
-- returns QUEUE_SUCCESS: the oldest item is at the start of the block, whose other bytes are
-- unchanged, the cell's node and block are freed and nothing else in the heap differs, and the
-- queue holds the other cells.
pub de_link_queue-Holds :
    (h : Heap) (q : LinkQueue) (cells : List Cell) (out : List ℕ)
    → Holds h q cells
    → q.data_size ≤ length out
    → (r : (Ret × Option (List ℕ) × LinkQueue) × Heap) × (de_link_queue q (some out) q.data_size h
        ≡ some r)
      × Dequeued h q cells out r
unfolding de_link_queue
de_link_queue-Holds h q [] out v big =
    let same : q.data_size == q.data_size ≡ true = ground arith in
    let none_left : q.front == q.rear ≡ true = ground (arith, v.chain) in
    (((empty, some out, q), h), rw (same, none_left), (refl, refl, refl, refl))
de_link_queue-Holds h q (c ∷ cs) out v big =
    let (node, front_ok, more) = Holds-front h q c cs v in
    let same : q.data_size == q.data_size ≡ true = ground arith in
    let some_left : q.front == q.rear ≡ false = ground arith in
    let has : c.block == 0 ≡ false = ground (arith, v.chain.1.block_ok) in
    let block_freed : Heap = record h { blocks = update h.blocks c.block none } in
    let (o, copied, w) = Returns-value (
      memcpy-Written out 0 c.bytes 0 q.data_size (omega arith)
        (omega (arith, v.chain.1.size_ok))) in
    let whole : bytes_at c.bytes 0 q.data_size ≡ c.bytes =
      subst (λ n. bytes_at c.bytes 0 n ≡ c.bytes) v.chain.1.size_ok (bytes_at_self c.bytes) in
    (
      ((success, some o, record q { front = c.next }), heap_without h c),
      rw (
        same,
        some_left,
        load_node-ok h q.front (link_node c.block c.next) front_ok node,
        has,
        load_block-ok h c.block c.bytes v.chain.1.block_ok v.chain.1.content,
        copy,
        copied,
        free_block-ok h c.block c.bytes v.chain.1.block_ok v.chain.1.content,
        free_node-ok block_freed q.front (link_node c.block c.next) front_ok node,
        v.chain.0,
      ),
      (refl, (o, refl, rw whole at w), refl, refl, Holds-tail h q c cs v),
    )
