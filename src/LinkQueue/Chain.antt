-- ===== src/LinkQueue/Chain.antt =====
-- The nodes of a queue, from the front to the empty node at the rear.
use practice_project.Prelude.{ℕ, ◌≡◌, ◌≢◌, List, [], ◌∷◌, none, some, arith, ◌==◌, length, false}
use practice_project.LinkQueue.{
  LinkNode, link_node, Heap, LinkQueue, load_node, load_block, free_node, free_block, update,
}

-- A node in use, with its block's bytes.
pub record Cell : Type 0 where
  pub addr : ℕ
  pub block : ℕ
  pub next : ℕ
  pub bytes : List ℕ

-- The node and the block of a cell are in the heap.
pub record InHeap (h : Heap) (size : ℕ) (c : Cell) : Type 0 where
  pub addr_ok : c.addr ≢ 0
  pub block_ok : c.block ≢ 0
  pub node : h.nodes c.addr ≡ some (link_node c.block c.next)
  pub content : h.blocks c.block ≡ some c.bytes
  pub size_ok : length c.bytes ≡ size

-- No later cell uses the node or the block of `c`.
abbrev pub Apart : Cell → List Cell → Type 0
Apart c [] = Unit
Apart c (d ∷ ds) = (c.addr ≢ d.addr) × (c.block ≢ d.block) × Apart c ds

-- From `p` the nodes `cells` lead to `rear`.
abbrev pub Chain : Heap → (size p rear : ℕ) → List Cell → Type 0
Chain h size p rear [] = p ≡ rear
Chain h size p rear (c ∷ cs) =
    (p ≡ c.addr) × InHeap h size c × Apart c cs × Chain h size c.next rear cs

-- The queue is well formed and holds the cells' bytes, oldest first.
pub record Holds (h : Heap) (q : LinkQueue) (cells : List Cell) : Type 0 where
  pub positive : q.data_size ≢ 0
  pub chain : Chain h q.data_size q.front q.rear cells
  pub rear_ok : q.rear ≢ 0
  pub rear_node : h.nodes q.rear ≡ some (link_node 0 0)

-- The other heap agrees on the nodes and blocks of the cells.
abbrev pub Agree : Heap → Heap → List Cell → Type 0
Agree h g [] = Unit
Agree h g (c ∷ cs) =
    (g.nodes c.addr ≡ h.nodes c.addr) × (g.blocks c.block ≡ h.blocks c.block) × Agree h g cs

pub Chain-frame :
    (h g : Heap) (size p rear : ℕ) (cs : List Cell)
    → Agree h g cs
    → Chain h size p rear cs
    → Chain g size p rear cs
Chain-frame h g size p rear [] same c = c
Chain-frame h g size p rear (c ∷ cs) same (at, here, apart, rest) = (
  at,
  record {
    addr_ok = here.addr_ok;
    block_ok = here.block_ok;
    node = ground arith;
    content = ground arith;
    size_ok = here.size_ok;
  },
  apart,
  Chain-frame h g size c.next rear cs same.2 rest,
)

pub load_node-ok :
    (h : Heap) (p : ℕ) (n : LinkNode) → p ≢ 0 → h.nodes p ≡ some n → load_node p h ≡ some (n, h)
unfolding load_node
load_node-ok h p n ne e = ground arith

pub load_block-ok :
    (h : Heap) (d : ℕ) (b : List ℕ) → d ≢ 0 → h.blocks d ≡ some b → load_block d h ≡ some (b, h)
unfolding load_block
load_block-ok h d b ne e = ground arith

pub free_node-ok :
    (h : Heap) (p : ℕ) (n : LinkNode)
    → p ≢ 0
    → h.nodes p ≡ some n
    → free_node p h ≡ some (tt, record h { nodes = update h.nodes p none })
unfolding free_node
free_node-ok h p n ne e = rw (load_node-ok h p n ne e)

pub free_block-ok :
    (h : Heap) (d : ℕ) (b : List ℕ)
    → d ≢ 0
    → h.blocks d ≡ some b
    → free_block d h ≡ some (tt, record h { blocks = update h.blocks d none })
unfolding free_block
free_block-ok h d b ne e =
    let some_block : d == 0 ≡ false = ground arith in rw (some_block, load_block-ok h d b ne e)

-- Heaps are equal when they agree everywhere.
pub Heap-ext :
    {g h : Heap} → ((a : ℕ) → g.nodes a ≡ h.nodes a) → ((d : ℕ) → g.blocks d ≡ h.blocks d) → g ≡ h
Heap-ext same_nodes same_blocks =
    λ i. record { nodes = λ a. same_nodes a i; blocks = λ d. same_blocks d i }
