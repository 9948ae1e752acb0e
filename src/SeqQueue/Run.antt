-- ===== src/SeqQueue/Run.antt =====
-- A client's calls of the circular queue, against a bounded first-in first-out queue.
use practice_project.Prelude.{
  ℕ, suc, ◌≤◌, ◌≡◌, refl, ◌∙◌, ap, inl, inr, List, [], ◌∷◌, ◌++◌, Option, none, some, ◌>>=◌, arith,
  ◌==◌, ==_iff, if◌then◌else◌, length, false, sym, ◌*◌,
}
use mathlib.Core.Path.{subst}
use practice_project.Memory.{bytes_at, length-bytes_at}
use practice_project.SeqQueue.{QueueRet, success, full, empty, SeqQueue, en_seq_queue, de_seq_queue}
use practice_project.SeqQueue.Refine.{Holds, en_seq_queue-Holds, de_seq_queue-Holds}

-- A call, with the caller's block.
pub data Call : Type 0 where
  put : List ℕ → Call
  get : List ℕ → Call

-- What the caller sees: the code, and the item that came out.
abbrev pub Reply : Type 0
Reply = QueueRet × Option (List ℕ)

-- The item that a returned code says is at the start of the caller's block.
abbrev seen : ℕ → QueueRet → List ℕ → Option (List ℕ)
seen size success o = some (bytes_at o 0 size)
seen size full o = none
seen size empty o = none

unfoldable pub run : SeqQueue → List Call → Option (List Reply)
run q [] = some []
run q (put bytes ∷ cs) = do
  (ret, q') ← en_seq_queue q bytes
  rs ← run q' cs
  some ((ret, none) ∷ rs)
run q (get out ∷ cs) = do
  (ret, o, q') ← de_seq_queue q out
  rs ← run q' cs
  some ((ret, seen q.data_size ret o) ∷ rs)

-- The bounded queue of items of `size` bytes, of which it takes fewer than `cnt`.
pub run_fifo : (cnt size : ℕ) → List (List ℕ) → List Call → List Reply
run_fifo cnt size items [] = []
run_fifo cnt size items (put bytes ∷ cs) =
    let kept = (full, none) ∷ run_fifo cnt size items cs in
    let added = (success, none) ∷ run_fifo cnt size (items ++ bytes_at bytes 0 size ∷ []) cs in
    if suc (length items) == cnt then kept else added
run_fifo cnt size [] (get out ∷ cs) = (empty, none) ∷ run_fifo cnt size [] cs
run_fifo cnt size (x ∷ xs) (get out ∷ cs) = (success, some x) ∷ run_fifo cnt size xs cs

-- Every block has room for an item.
abbrev pub BigEnough : ℕ → List Call → Type 0
BigEnough size [] = Unit
BigEnough size (put bytes ∷ cs) = (size ≤ length bytes) × BigEnough size cs
BigEnough size (get out ∷ cs) = (size ≤ length out) × BigEnough size cs

-- For every sequence of calls whose blocks have room for an item, a queue that holds `items` stays
-- in bounds and answers each call as the bounded queue of `items` does.
pub run_refines :
    (cs : List Call) (q : SeqQueue) (items : List (List ℕ))
    → Holds q items
    → BigEnough q.data_size cs
    → run q cs ≡ some (run_fifo q.node_cnt q.data_size items cs)
unfolding run run_fifo
run_refines [] q items h big = refl
run_refines (put bytes ∷ cs) q items h big =
    let (o, e, fact) = en_seq_queue-Holds q items bytes h big.0 in
    rw e (elim fact [
      | inl (last, ret, same) ↦ rw (ret, same, run_refines cs q items h big.1, (==_iff _ _).1 last)
      | inr (more, ret, holds, shape) ↦
          let next =
            run_refines cs o.1 (items ++ bytes_at bytes 0 q.data_size ∷ []) holds
              (subst (λ n. BigEnough n cs) (sym shape.1) big.1) in
          let room : suc (length items) == q.node_cnt ≡ false = ground arith in
          rw (ret, next, shape.0, shape.1, room)
    ])
run_refines (get out ∷ cs) q [] h big =
    let (r, e, fact) = de_seq_queue-Holds q [] out h big.0 in
    rw (e, fact.0, fact.2, run_refines cs q [] h big.1)
run_refines (get out ∷ cs) q (x ∷ xs) h big =
    let (r, e, fact) = de_seq_queue-Holds q (x ∷ xs) out h big.0 in
    let next = run_refines cs r.2 xs fact.2 (subst (λ n. BigEnough n cs) (sym fact.3.1) big.1) in
    let size : length x ≡ q.data_size =
      sym (ap length h.places.0)
      ∙ length-bytes_at q.queue_ptr (q.front * q.data_size) q.data_size in
    let item : bytes_at r.1 0 q.data_size ≡ x =
      subst (λ n. bytes_at r.1 0 n ≡ x) size fact.1.there in
    rw (e, fact.0, next, fact.3.0, fact.3.1, item)
