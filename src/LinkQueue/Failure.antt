-- ===== src/LinkQueue/Failure.antt =====
-- The calls of `EnLinkQueue` that return RET_ERROR.
use practice_project.Prelude.{
  ℕ, ◌≡◌, ◌≢◌, refl, ◌⊎◌, inl, inr, List, [], ◌∷◌, Option, none, some, arith, ◌==◌, true, false,
}
use practice_project.LinkQueue.{
  link_node, Heap, LinkQueue, Mallocs, error, update, ensure_block, en_link_queue,
}
use practice_project.LinkQueue.Chain.{Cell, Chain, Holds, Agree, Chain-frame, load_node-ok}

Agree-new :
    (h : Heap) (q : LinkQueue) (m : Mallocs) (size p rear : ℕ) (cs : List Cell)
    → h.nodes m.node ≡ none
    → Chain h size p rear cs
    → Agree h (record h { nodes = update h.nodes m.node (some (link_node 0 0)) }) cs
Agree-new h q m size p rear [] unused c = tt
Agree-new h q m size p rear (c ∷ cs) unused (at, here, apart, rest) =
    (ground arith, refl, Agree-new h q m size c.next rear cs unused rest)

-- If the size differs or there is no memory for the node, `EnLinkQueue` returns RET_ERROR, whatever
-- the queue, and changes neither the queue nor the heap.
pub en_link_queue-refused :
    (h : Heap) (q : LinkQueue) (item : Option (List ℕ)) (size : ℕ) (m : Mallocs)
    → (size ≢ q.data_size) ⊎ (m.node ≡ 0)
    → en_link_queue q item size m h ≡ some ((error, q), h)
unfolding en_link_queue
en_link_queue-refused h q item size m (inl differs) =
    let other : q.data_size == size ≡ false = ground arith in rw other
en_link_queue-refused h q item size m (inr null) = ground arith

-- On a well-formed queue, with the right size and memory for the node but none for the block,
-- `EnLinkQueue` returns RET_ERROR. The queue is as before and as well formed, but the new node
-- stays in the heap, where nothing leads to it.
pub en_link_queue-leak :
    (h : Heap) (q : LinkQueue) (cells : List Cell) (item : Option (List ℕ)) (m : Mallocs)
    → Holds h q cells
    → m.node ≢ 0
    → h.nodes m.node ≡ none
    → m.block ≡ 0
    → let g : Heap = record h { nodes = update h.nodes m.node (some (link_node 0 0)) } in
      (en_link_queue q item q.data_size m h ≡ some ((error, q), g)) × Holds g q cells
unfolding en_link_queue ensure_block
en_link_queue-leak h q cells item m v got unused null =
    let same_size : q.data_size == q.data_size ≡ true = ground arith in
    let got' : m.node == 0 ≡ false = ground arith in
    let null' : m.block == 0 ≡ true = ground arith in
    let g : Heap = record h { nodes = update h.nodes m.node (some (link_node 0 0)) } in
    let old : g.nodes q.rear ≡ some (link_node 0 0) = ground (arith, v.rear_node) in
    (
      rw (same_size, got', load_node-ok g q.rear (link_node 0 0) v.rear_ok old, null'),
      record {
        positive = v.positive;
        chain =
            Chain-frame h g q.data_size q.front q.rear cells
              (Agree-new h q m q.data_size q.front q.rear cells unused v.chain) v.chain;
        rear_ok = v.rear_ok;
        rear_node = old;
      },
    )
