-- ===== src/LinkQueue/Insert.antt =====
-- `EnLinkQueue` on a well-formed queue.
use practice_project.Prelude.{
  ℕ, ◌≤◌, ◌≡◌, ◌≢◌, refl, List, [], ◌∷◌, ◌++◌, none, some, arith, ◌==◌, if◌then◌else◌, length, true,
  false, ap,
}
use mathlib.Core.Path.{subst}
use practice_project.Memory.{bytes_at, length-bytes_at, memcpy, memcpy_whole}
use practice_project.LinkQueue.{
  LinkNode, link_node, Heap, LinkQueue, Mallocs, success, update, ensure_block, append_node,
  en_link_queue, copy,
}
use practice_project.LinkQueue.Chain.{
  Cell, InHeap, Apart, Chain, Holds, load_node-ok, load_block-ok, Heap-ext,
}

-- What `malloc` promises of the two addresses: they were not in use, and the block has the size
-- that was asked for.
pub record FreshMallocs (h : Heap) (size : ℕ) (m : Mallocs) : Type 0 where
  pub node_ok : m.node ≢ 0
  pub block_ok : m.block ≢ 0
  pub node_free : h.nodes m.node ≡ none
  pub block_free : h.blocks m.block ≡ none
  pub junk_size : length m.junk ≡ size

-- The heap after a successful call: the old rear has the block and the new node as its next.
abbrev pub heap_after : Heap → LinkQueue → Mallocs → List ℕ → Heap
heap_after h q m x = record {
  nodes = λ a.
      if q.rear == a
      then some (link_node m.block m.node)
      else if m.node == a
      then some (link_node 0 0)
      else h.nodes a;
  blocks = λ d. if m.block == d then some x else h.blocks d;
}

-- The cell that the old rear becomes.
abbrev pub new_cell : LinkQueue → Mallocs → List ℕ → Cell
new_cell q m x = record { addr = q.rear; block = m.block; next = m.node; bytes = x }

module _ (h : Heap) (q : LinkQueue) (m : Mallocs) (x : List ℕ) (ok : FreshMallocs h q.data_size m)
    (rear_ok : q.rear ≢ 0) (rear_node : h.nodes q.rear ≡ some (link_node 0 0))
    (x_ok : length x ≡ q.data_size) where
  -- The new cell is none of the old ones, and they are untouched.
  Apart-append :
      (c : Cell) (cs : List Cell)
      → InHeap h q.data_size c
      → Apart c cs
      → Apart c (cs ++ new_cell q m x ∷ [])
  Apart-append c [] here apart = (ground arith, ground arith, tt)
  Apart-append c (d ∷ ds) here apart = (apart.0, apart.1, Apart-append c ds here apart.2)

  Chain-append :
      (p : ℕ) (cs : List Cell)
      → Chain h q.data_size p q.rear cs
      → Chain (heap_after h q m x) q.data_size p m.node (cs ++ new_cell q m x ∷ [])
  Chain-append p [] at = (
    at,
    record {
      addr_ok = rear_ok;
      block_ok = ok.block_ok;
      node = ground arith;
      content = ground arith;
      size_ok = x_ok;
    },
    tt,
    refl,
  )
  Chain-append p (c ∷ cs) (at, here, apart, rest) = (
    at,
    record {
      addr_ok = here.addr_ok;
      block_ok = here.block_ok;
      node = ground arith;
      content = ground arith;
      size_ok = here.size_ok;
    },
    Apart-append c cs here apart,
    Chain-append c.next cs rest,
  )

-- The heap once the rear node has its block.
abbrev heap_ready : Heap → LinkQueue → Mallocs → Heap
heap_ready h q m = record {
  nodes = update h.nodes q.rear (some (link_node m.block 0));
  blocks = update h.blocks m.block (some m.junk);
}

ensure_block-ok :
    (h : Heap) (q : LinkQueue) (m : Mallocs)
    → q.rear ≢ 0
    → h.nodes q.rear ≡ some (link_node 0 0)
    → m.block ≢ 0
    → ensure_block q m h ≡ some (true, heap_ready h q m)
unfolding ensure_block
ensure_block-ok h q m rear_ok rear_node block_ok =
    let got : m.block == 0 ≡ false = ground arith in
    rw (load_node-ok h q.rear (link_node 0 0) rear_ok rear_node, got)

append_node-ok :
    (h : Heap) (q : LinkQueue) (bytes : List ℕ) (m : Mallocs) (f : LinkNode) (d : ℕ) (b : List ℕ)
    → q.front ≢ 0
    → h.nodes q.front ≡ some f
    → f.block ≢ 0
    → q.rear ≢ 0
    → h.nodes q.rear ≡ some (link_node d 0)
    → d ≢ 0
    → h.blocks d ≡ some b
    → length b ≡ q.data_size
    → q.data_size ≤ length bytes
    → append_node q (some bytes) m h
      ≡ some (
        (success, record q { rear = m.node }),
        record {
          nodes = update h.nodes q.rear (some (link_node d m.node));
          blocks = update h.blocks d (some (bytes_at bytes 0 q.data_size));
        },
      )
unfolding append_node
append_node-ok h q bytes m f d b front_ok front_node full rear_ok rear_node d_ok d_block size big =
    let has : f.block == 0 ≡ false = ground arith in
    let copied : memcpy b 0 bytes 0 q.data_size ≡ some (bytes_at bytes 0 q.data_size) =
      subst (λ n. memcpy b 0 bytes 0 n ≡ some (bytes_at bytes 0 n)) size
        (memcpy_whole b bytes (omega arith)) in
    rw (
      load_node-ok h q.front f front_ok front_node,
      load_node-ok h q.rear (link_node d 0) rear_ok rear_node,
      has,
      load_block-ok h d b d_ok d_block,
      copy,
      copied,
    )

-- The front node has a block as soon as the rear node has one.
front_full :
    (h : Heap) (q : LinkQueue) (m : Mallocs) (cells : List Cell)
    → Holds h q cells
    → FreshMallocs h q.data_size m
    → let g = heap_ready (record h { nodes = update h.nodes m.node (some (link_node 0 0)) }) q m in
      (f : LinkNode) × (g.nodes q.front ≡ some f) × (f.block ≢ 0) × (q.front ≢ 0)
front_full h q m [] v ok =
    (link_node m.block 0, ground (arith, v.chain), ok.block_ok, ground (arith, v.chain, v.rear_ok))
front_full h q m (c ∷ cs) v ok = (
  link_node c.block c.next,
  ground (arith, v.chain.0),
  v.chain.1.block_ok,
  ground (arith, v.chain.0, v.chain.1.addr_ok),
)

-- For a well-formed queue, allocations that succeed and a block of at least an item's bytes,
-- `EnLinkQueue` does not fault: it returns QUEUE_SUCCESS and a well-formed queue with one cell more
-- at the rear, which holds the block's first bytes. It writes the heap only at the old rear node,
-- the new node and the new block.
pub en_link_queue-Holds :
    (h : Heap) (q : LinkQueue) (cells : List Cell) (bytes : List ℕ) (m : Mallocs)
    → Holds h q cells
    → FreshMallocs h q.data_size m
    → q.data_size ≤ length bytes
    → let x = bytes_at bytes 0 q.data_size in
      let q' : LinkQueue = record q { rear = m.node } in
      (en_link_queue q (some bytes) q.data_size m h ≡ some ((success, q'), heap_after h q m x))
      × Holds (heap_after h q m x) q' (cells ++ new_cell q m x ∷ [])
unfolding en_link_queue
en_link_queue-Holds h q cells bytes m v ok big = (
  equation,
  record {
    positive = v.positive;
    chain =
        Chain-append h q m (bytes_at bytes 0 q.data_size) ok v.rear_ok v.rear_node
          (length-bytes_at bytes 0 q.data_size) q.front cells v.chain;
    rear_ok = ok.node_ok;
    rear_node = ground arith;
  },
)
  where
    h1 : Heap
    h1 = record h { nodes = update h.nodes m.node (some (link_node 0 0)) }

    equation :
        en_link_queue q (some bytes) q.data_size m h
        ≡ some
            ((success, record q { rear = m.node }), heap_after h q m (bytes_at bytes 0 q.data_size))
    equation =
        let same_size : q.data_size == q.data_size ≡ true = ground arith in
        let got : m.node == 0 ≡ false = ground arith in
        let old : h1.nodes q.rear ≡ some (link_node 0 0) = ground arith in
        let (f, front_node, full, front_ok) = front_full h q m cells v ok in
        rw
          (
            same_size,
            got,
            ensure_block-ok h1 q m v.rear_ok old ok.block_ok,
            append_node-ok (heap_ready h1 q m) q bytes m f m.block m.junk front_ok front_node full
                v.rear_ok (ground arith) ok.block_ok (ground arith) ok.junk_size big,
          )
          (ap (λ (g : Heap). some ((success, record q { rear = m.node }), g))
            (Heap-ext (λ a. ground arith) (λ d. ground arith)))
