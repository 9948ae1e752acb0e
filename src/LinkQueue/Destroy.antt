-- ===== src/LinkQueue/Destroy.antt =====
-- `InitLinkQueue` and `DestoryLinkQueue`.
use practice_project.Prelude.{
  ℕ, zero, suc, ◌<◌, ◌≡◌, ◌≢◌, refl, ap, List, [], ◌∷◌, none, some, arith, ◌==◌, ◌||◌,
  if◌then◌else◌, length, true, false, Bool,
}
use practice_project.LinkQueue.{
  link_node, Heap, LinkQueue, Mallocs, success, error, update, init_link_queue, drain,
  destroy_link_queue,
}
use practice_project.LinkQueue.Chain.{Cell, Chain, Holds, free_node-ok, Heap-ext}
use practice_project.LinkQueue.Remove.{heap_without, Holds-front, Holds-tail, de_link_queue-drop}

-- For every positive size and allocations that succeed, `InitLinkQueue` makes a well-formed queue
-- with no cell, and writes only the new node.
pub init_link_queue-Holds :
    (h : Heap) (size : ℕ) (m : Mallocs)
    → size ≢ 0
    → m.node ≢ 0
    → let q : LinkQueue = record { front = m.node; rear = m.node; data_size = size } in
      let g : Heap = record h { nodes = update h.nodes m.node (some (link_node 0 0)) } in
      (init_link_queue true size m h ≡ some (some q, g)) × Holds g q []
unfolding init_link_queue
init_link_queue-Holds h size m positive got =
    let sized : size == 0 ≡ false = ground arith in
    let got' : m.node == 0 ≡ false = ground arith in
    (
      rw (sized, got'),
      record { positive = positive; chain = refl; rear_ok = got; rear_node = ground arith },
    )

-- An address is that of a node, or of a block, of one of the cells.
abbrev pub has_node : ℕ → List Cell → Bool
has_node a [] = false
has_node a (c ∷ cs) = (c.addr == a) || has_node a cs

abbrev pub has_block : ℕ → List Cell → Bool
has_block d [] = false
has_block d (c ∷ cs) = (c.block == d) || has_block d cs

-- The heap without the nodes and blocks of the cells.
abbrev pub heap_drained : Heap → List Cell → Heap
heap_drained h cells = record {
  nodes = λ a. if has_node a cells then none else h.nodes a;
  blocks = λ d. if has_block d cells then none else h.blocks d;
}

drain-ok :
    (k : ℕ) (h : Heap) (q : LinkQueue) (cells : List Cell)
    → Holds h q cells
    → length cells < k
    → drain k q h ≡ some (record q { front = q.rear }, heap_drained h cells)
unfolding drain
drain-ok zero h q cells v fuel = absurd (omega arith)
drain-ok (suc k) h q [] v fuel =
    let over : q.front == q.rear ≡ true = ground (arith, v.chain) in
    rw (over) (ap (λ p. some (record q { front = p }, h)) v.chain)
drain-ok (suc k) h q (c ∷ cs) v fuel =
    let (node, front_ok, left) = Holds-front h q c cs v in
    let more : q.front == q.rear ≡ false = ground arith in
    let drained : heap_drained (heap_without h c) cs ≡ heap_drained h (c ∷ cs) =
      Heap-ext (λ a. ground arith) (λ d. ground arith) in
    rw (
      more,
      de_link_queue-drop h q c cs v,
      drain-ok k (heap_without h c) (record q { front = c.next }) cs (Holds-tail h q c cs v)
          (omega arith),
      drained,
    )

-- The rear node is not one of the cells.
has_node-rear :
    (h : Heap) (size p rear : ℕ) (cells : List Cell)
    → Chain h size p rear cells
    → h.nodes rear ≡ some (link_node 0 0)
    → has_node rear cells ≡ false
has_node-rear h size p rear [] at e = refl
has_node-rear h size p rear (c ∷ cs) (at, here, apart, rest) e =
    ground (arith, here.node, here.block_ok, has_node-rear h size c.next rear cs rest e)

-- With enough rounds for the cells, `DestoryLinkQueue` on a well-formed queue does not fault and
-- returns QUEUE_SUCCESS. It frees the node and the block of every cell and the rear node, each
-- once, and nothing else in the heap differs. On NULL it returns RET_ERROR.
pub destroy_link_queue-Holds :
    (k : ℕ) (h : Heap) (q : LinkQueue) (cells : List Cell)
    → Holds h q cells
    → length cells < k
    → (destroy_link_queue k (some q) h
        ≡ some (
          success,
          record {
            nodes = λ a. if (q.rear == a) || has_node a cells then none else h.nodes a;
            blocks = λ d. if has_block d cells then none else h.blocks d;
          },
        ))
      × (destroy_link_queue k none h ≡ some (error, h))
unfolding destroy_link_queue
destroy_link_queue-Holds k h q cells v fuel =
    let apart = has_node-rear h q.data_size q.front q.rear cells v.chain v.rear_node in
    let rear_node : (heap_drained h cells).nodes q.rear ≡ some (link_node 0 0) =
      ground (arith, apart, v.rear_node) in
    let freed = free_node-ok (heap_drained h cells) q.rear (link_node 0 0) v.rear_ok rear_node in
    (
      rw (drain-ok k h q cells v fuel, freed)
          (ap (λ g. some (success, g)) (Heap-ext (λ a. ground arith) (λ d. refl))),
      refl,
    )
