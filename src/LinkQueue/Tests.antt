-- ===== src/LinkQueue/Tests.antt =====
-- The linked queue with two cells.
use practice_project.Prelude.{
  ℕ, zero, suc, ◌≡◌, refl, List, [], ◌∷◌, ◌++◌, Option, none, some, arith, ◌||◌, ◌==◌,
  if◌then◌else◌,
}
use practice_project.Array.{get! }
use practice_project.LinkQueue.{
  error, update, LinkNode, link_node, Heap, LinkQueue, Mallocs, Ret, success, error, en_link_queue,
  de_link_queue, destroy_link_queue,
}
use practice_project.LinkQueue.Chain.{Cell, Holds}
use practice_project.LinkQueue.Insert.{FreshMallocs, heap_after, new_cell, en_link_queue-Holds}
use practice_project.LinkQueue.Failure.{en_link_queue-leak}
use practice_project.LinkQueue.Remove.{Dequeued, de_link_queue-Holds}
use practice_project.LinkQueue.Destroy.{has_node, has_block, destroy_link_queue-Holds}

-- Nodes at 1, 2 and 3, the last one empty; blocks at 1 and 2.
abbrev nodes_of : ℕ → Option LinkNode
nodes_of (suc zero) = some (link_node 1 2)
nodes_of (suc (suc zero)) = some (link_node 2 3)
nodes_of (suc (suc (suc zero))) = some (link_node 0 0)
nodes_of a = none

abbrev blocks_of : ℕ → Option (List ℕ)
blocks_of (suc zero) = some (5 ∷ 6 ∷ [])
blocks_of (suc (suc zero)) = some (7 ∷ 8 ∷ [])
blocks_of d = none

abbrev heap : Heap
heap = record { nodes = nodes_of; blocks = blocks_of }

abbrev queue : LinkQueue
queue = record { front = 1; rear = 3; data_size = 2 }

abbrev first : Cell
first = record { addr = 1; block = 1; next = 2; bytes = 5 ∷ 6 ∷ [] }

abbrev second : Cell
second = record { addr = 2; block = 2; next = 3; bytes = 7 ∷ 8 ∷ [] }

abbrev cells : List Cell
cells = first ∷ second ∷ []

abbrev fresh : Mallocs
fresh = record { node = 4; block = 3; junk = 0 ∷ 0 ∷ [] }

abbrev no_block : Mallocs
no_block = record { node = 4; block = 0; junk = [] }

queue-Holds : Holds heap queue cells
queue-Holds = record {
  positive = omega arith;
  chain = (
    refl,
    record {
      addr_ok = omega arith;
      block_ok = omega arith;
      node = refl;
      content = refl;
      size_ok = refl;
    },
    (omega arith, omega arith, tt),
    (
      refl,
      record {
        addr_ok = omega arith;
        block_ok = omega arith;
        node = refl;
        content = refl;
        size_ok = refl;
      },
      tt,
      refl,
    ),
  );
  rear_ok = omega arith;
  rear_node = refl;
}

fresh-FreshMallocs : FreshMallocs heap 2 fresh
fresh-FreshMallocs = record {
  node_ok = omega arith;
  block_ok = omega arith;
  node_free = refl;
  block_free = refl;
  junk_size = refl;
}

en_link_queue-Holds_example :
    let x : List ℕ = 1 ∷ 2 ∷ [] in
    let q' : LinkQueue = record queue { rear = 4 } in
    (en_link_queue queue (some (1 ∷ 2 ∷ 3 ∷ [])) 2 fresh heap
      ≡ some ((success, q'), heap_after heap queue fresh x))
    × Holds (heap_after heap queue fresh x) q' (cells ++ new_cell queue fresh x ∷ [])
unfolding get!
en_link_queue-Holds_example =
    en_link_queue-Holds heap queue cells (1 ∷ 2 ∷ 3 ∷ []) fresh queue-Holds fresh-FreshMallocs
      (omega arith)

de_link_queue-Holds_example :
    (r : (Ret × Option (List ℕ) × LinkQueue) × Heap) × (de_link_queue queue
        (some (0 ∷ 0 ∷ 9 ∷ []))
        2
        heap
      ≡ some r)
    × Dequeued heap queue cells (0 ∷ 0 ∷ 9 ∷ []) r
de_link_queue-Holds_example =
    de_link_queue-Holds heap queue cells (0 ∷ 0 ∷ 9 ∷ []) queue-Holds (omega arith)

destroy_link_queue-Holds_example :
    (destroy_link_queue 3 (some queue) heap
      ≡ some (
        success,
        record {
          nodes = λ a. if (3 == a) || has_node a cells then none else nodes_of a;
          blocks = λ d. if has_block d cells then none else blocks_of d;
        },
      ))
    × (destroy_link_queue 3 none heap ≡ some (error, heap))
destroy_link_queue-Holds_example =
    destroy_link_queue-Holds 3 heap queue cells queue-Holds (omega arith)

en_link_queue-leak_example :
    let g : Heap = record heap { nodes = update nodes_of 4 (some (link_node 0 0)) } in
    (en_link_queue queue none 2 no_block heap ≡ some ((error, queue), g)) × Holds g queue cells
en_link_queue-leak_example =
    en_link_queue-leak heap queue cells none no_block queue-Holds (omega arith) refl refl
