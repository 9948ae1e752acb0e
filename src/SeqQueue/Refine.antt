-- ===== src/SeqQueue/Refine.antt =====
-- The circular queue holds a list of items, oldest first, and behaves as that list.
use practice_project.Prelude.{
  ℕ, suc, ◌+◌, ◌-◌, ◌*◌, ◌%◌, ◌≤◌, ◌<◌, ◌≡◌, ◌≢◌, ap, sym, ◌∙◌, ◌↔◌, refl, ◌⊎◌, inl, inr, List, [],
  ◌∷◌, ◌++◌, none, some, true, false, arith, ◌==◌, length, length-append, length-replicate,
  replicate, lt→ltb, returns, Returns-bind, Returns-if, Returns-value, ==_iff,
}
use mathlib.Core.Path.{subst}
use native.Mathlib.Nat.{mod-add-mod, mod-eq_of_lt, mod-eq-sub-mod, mod-lt, add-zero}
use native.Mathlib.Decide.{dec_lt}
use practice_project.Memory.{
  bytes_at, read_bytes-overrun, length-bytes_at, bytes_at-same, Written, memcpy, memcpy-Written,
}
use practice_project.SeqQueue.{
  QueueRet, success, full, empty, SeqQueue, int_limit, init_seq_queue, en_seq_queue, de_seq_queue,
}

-- The items in the places from `f` on, going round at `cnt`.
abbrev pub Window : List ℕ → (size cnt f : ℕ) → List (List ℕ) → Type 0
Window m size cnt f [] = Unit
Window m size cnt f (x ∷ xs) =
    (bytes_at m (f * size) size ≡ x) × Window m size cnt ((f + 1) % cnt) xs

-- The queue is well formed and holds `items`.
pub record Holds (q : SeqQueue) (items : List (List ℕ)) : Type 0 where
  pub block : length q.queue_ptr ≡ q.node_cnt * q.data_size
  pub front_in : q.front < q.node_cnt
  pub fits : length items < q.node_cnt
  pub rear_at : q.rear ≡ (q.front + length items) % q.node_cnt
  pub places : Window q.queue_ptr q.data_size q.node_cnt q.front items

-- Fewer than `cnt` steps from `f` do not come back to it.
step-ne : (cnt f k : ℕ) → f < cnt → suc k < cnt → (f + suc k) % cnt ≢ f
step-ne cnt f k hf hk = elim (dec_lt (f + suc k) cnt) [
  | yes short ↦ omega (arith, mod-eq_of_lt short)
  | no round ↦ omega (
    arith,
    mod-eq-sub-mod {n = f + suc k} {m = cnt} (omega arith),
    mod-eq_of_lt {n = f + suc k - cnt} {m = cnt} (omega arith),
  )
]

-- A step further round.
step-step : (cnt f k : ℕ) → 0 < cnt → ((f + 1) % cnt + k) % cnt ≡ (f + suc k) % cnt
step-step cnt f k pos = rw mod-add-mod (ap (λ n. n % cnt) (omega arith))

-- A place lies in the block, and apart from the other places.
place_in : (i cnt size : ℕ) → i < cnt → i * size + size ≤ cnt * size
place_in i cnt size h = grind arith

places_apart :
    (i j size k : ℕ)
    → i ≢ j
    → i * size ≤ k
    → k < i * size + size
    → (k < j * size) ⊎ (j * size + size ≤ k)
places_apart i j size k ne lo hi = elim (dec_lt i j) [
  | yes before ↦ inl (omega (arith, place_in i j size before))
  | no other ↦ inr (omega (arith, place_in j i size (omega arith)))
]

-- The free place: a write there adds an item behind the window.
Window-append :
    (m b : List ℕ) (size cnt f i : ℕ) (x : List ℕ) (items : List (List ℕ))
    → f < cnt
    → length items < cnt
    → length x ≡ size
    → i ≡ (f + length items) % cnt
    → Written m (i * size) x b
    → Window m size cnt f items
    → Window b size cnt f (items ++ x ∷ [])
Window-append m b size cnt f i x [] hf fits lx e w win =
    let same : i ≡ f = e ∙ rw add-zero (mod-eq_of_lt hf) in
    (rw (← same) (subst (λ n. bytes_at b (i * size) n ≡ x) lx w.there), tt)
Window-append m b size cnt f i x (y ∷ ys) hf fits lx e w (first, win) =
    let apart : f ≢ i = λ same. step-ne cnt f (length ys) hf fits (sym (same ∙ e)) in
    let kept =
      bytes_at-same b m (f * size) size
        λ k lo hi. w.others k (rw lx (places_apart f i size k apart lo hi)) in
    (
      kept ∙ first,
      Window-append m b size cnt ((f + 1) % cnt) i x ys (mod-lt _ (omega arith)) (omega arith) lx
          (e ∙ sym (step-step cnt f (length ys) (omega arith))) w win,
    )

-- The sizes that were fixed when the queue was made.
abbrev pub SameShape : SeqQueue → SeqQueue → Type 0
SameShape q q' = (q'.node_cnt ≡ q.node_cnt) × (q'.data_size ≡ q.data_size)

-- What `EnSeqQueue` promises a queue that holds `items`.
abbrev pub Enqueued : SeqQueue → List (List ℕ) → List ℕ → QueueRet × SeqQueue → Type 0
Enqueued q items x (ret, q') =
    ((suc (length items) ≡ q.node_cnt) × (ret ≡ full) × (q' ≡ q))
    ⊎ ((suc (length items) < q.node_cnt)
        × (ret ≡ success)
        × Holds q' (items ++ x ∷ [])
        × SameShape q q')

pub rear_in : (q : SeqQueue) (items : List (List ℕ)) → Holds q items → q.rear < q.node_cnt
rear_in q items h =
    let pos : 0 < q.node_cnt = omega (arith, h.front_in) in rw h.rear_at (mod-lt _ pos)

next_rear :
    (q : SeqQueue) (items : List (List ℕ))
    → Holds q items
    → (q.rear + 1) % q.node_cnt ≡ (q.front + suc (length items)) % q.node_cnt
next_rear q items h = rw (h.rear_at, mod-add-mod) (ap (λ n. n % q.node_cnt) (omega arith))

-- The test for a full queue is right.
full_iff :
    (q : SeqQueue) (items : List (List ℕ))
    → Holds q items
    → ((q.rear + 1) % q.node_cnt ≡ q.front) ↔ (suc (length items) ≡ q.node_cnt)
full_iff q items h = (to, fro)
  where
    to : (q.rear + 1) % q.node_cnt ≡ q.front → suc (length items) ≡ q.node_cnt
    to e = elim (dec_lt (suc (length items)) q.node_cnt) [
      | yes less ↦ absurd (
          step-ne q.node_cnt q.front (length items) h.front_in less (sym (next_rear q items h) ∙ e))
      | no more ↦ omega (arith, h.fits)
    ]

    fro : suc (length items) ≡ q.node_cnt → (q.rear + 1) % q.node_cnt ≡ q.front
    fro e =
        next_rear q items h
        ∙ rw e (
            mod-eq-sub-mod {n = q.front + q.node_cnt} {m = q.node_cnt} (omega arith)
            ∙ (let back : q.front + q.node_cnt - q.node_cnt ≡ q.front = omega arith in
                rw back (mod-eq_of_lt h.front_in)))

-- For a queue that holds `items` and a block of at least an item's bytes, `EnSeqQueue` stays in
-- bounds and returns: with one place left it returns QUEUE_FULL and the same queue, else it
-- returns QUEUE_SUCCESS and a queue of the same sizes that holds `items` with the block's first
-- bytes behind them.
pub en_seq_queue-Holds :
    (q : SeqQueue) (items : List (List ℕ)) (bytes : List ℕ)
    → Holds q items
    → q.data_size ≤ length bytes
    → (out : QueueRet × SeqQueue) × (en_seq_queue q bytes ≡ some out)
      × Enqueued q items (bytes_at bytes 0 q.data_size) out
unfolding en_seq_queue
en_seq_queue-Holds q items bytes h big = Returns-value (
    Returns-if ((q.rear + 1) % q.node_cnt == q.front)
      (λ t. returns (inl ((full_iff q items h).0 ((==_iff _ _).0 t), refl, refl)))
      (λ t.
        Returns-bind
          (memcpy-Written q.queue_ptr (q.rear * q.data_size) bytes 0 q.data_size room (omega arith))
          λ m w.
            let more = not_full t in
            returns (
              inr (
                more,
                refl,
                record {
                  block = omega (arith, w.same_length, h.block);
                  front_in = h.front_in;
                  fits = rw length-append (omega arith);
                  rear_at =
                      next_rear q items h
                      ∙ rw length-append (ap (λ n. (q.front + n) % q.node_cnt) (omega arith));
                  places =
                      Window-append q.queue_ptr m q.data_size q.node_cnt q.front q.rear
                        (bytes_at bytes 0 q.data_size) items h.front_in h.fits
                        (length-bytes_at bytes 0 q.data_size) h.rear_at w h.places;
                },
                (refl, refl),
              ))))
  where
    room : q.rear * q.data_size + q.data_size ≤ length q.queue_ptr
    room = omega (arith, h.block, place_in q.rear q.node_cnt q.data_size (rear_in q items h))

    not_full : (q.rear + 1) % q.node_cnt == q.front ≡ false → suc (length items) < q.node_cnt
    not_full t = ground (arith, full_iff q items h, h.fits)

-- What `DeSeqQueue` promises a queue that holds `items`.
abbrev pub Dequeued : SeqQueue → List (List ℕ) → List ℕ → QueueRet × List ℕ × SeqQueue → Type 0
Dequeued q [] out (ret, o, q') = (ret ≡ empty) × (o ≡ out) × (q' ≡ q)
Dequeued q (x ∷ xs) out (ret, o, q') =
    (ret ≡ success) × Written out 0 x o × Holds q' xs × SameShape q q'

empty_iff :
    (q : SeqQueue) (items : List (List ℕ)) → Holds q items → (q.front ≡ q.rear) ↔ (items ≡ [])
empty_iff q [] h = (λ _. refl, λ _. sym (h.rear_at ∙ rw add-zero (mod-eq_of_lt h.front_in)))
empty_iff q (x ∷ xs) h = (
  λ e. absurd (step-ne q.node_cnt q.front (length xs) h.front_in h.fits (sym h.rear_at ∙ sym e)),
  λ e. cc,
)

-- For a queue that holds `items` and a block of at least an item's size, `DeSeqQueue` stays in
-- bounds and returns. If there is no item it returns QUEUE_EMPTY, with the block and the queue as
-- they were. Else it returns QUEUE_SUCCESS with the oldest item copied to the start of the block,
-- the block's other bytes unchanged, and a queue of the same sizes that holds the rest.
pub de_seq_queue-Holds :
    (q : SeqQueue) (items : List (List ℕ)) (out : List ℕ)
    → Holds q items
    → q.data_size ≤ length out
    → (r : QueueRet × List ℕ × SeqQueue) × (de_seq_queue q out ≡ some r) × Dequeued q items out r
unfolding de_seq_queue
de_seq_queue-Holds q [] out h big =
    let none_left : q.front == q.rear ≡ true = ground (arith, empty_iff q [] h) in
    ((empty, out, q), rw none_left, (refl, refl, refl))
de_seq_queue-Holds q (x ∷ xs) out h big =
    let one_left : q.front == q.rear ≡ false = ground (arith, empty_iff q (x ∷ xs) h) in
    rw one_left (
      Returns-value {P = Dequeued q (x ∷ xs) out} (
        Returns-bind
          (memcpy-Written out 0 q.queue_ptr (q.front * q.data_size) q.data_size (omega arith)
            (omega (arith, h.block, place_in q.front q.node_cnt q.data_size h.front_in)))
          λ o w. returns (
            refl,
            rw h.places.0 at w,
            record {
              block = h.block;
              front_in = mod-lt _ (omega (arith, h.front_in));
              fits = omega (arith, h.fits);
              rear_at =
                  h.rear_at
                  ∙ sym (step-step q.node_cnt q.front (length xs) (omega (arith, h.front_in)));
              places = h.places.1;
            },
            (refl, refl),
          )))

-- For a length below INT_MAX and any item size, when both allocations succeed, `InitSeqQueue`
-- returns a queue of those sizes that holds no item.
pub init_seq_queue-Holds :
    (queue_len data_size : ℕ)
    → queue_len + 1 < int_limit
    → (q : SeqQueue) × (init_seq_queue true true queue_len data_size ≡ some (some q))
      × Holds q []
      × (q.node_cnt ≡ queue_len + 1)
      × (q.data_size ≡ data_size)
unfolding init_seq_queue
init_seq_queue-Holds queue_len data_size fits = (
  record {
    front = 0;
    rear = 0;
    data_size = data_size;
    node_cnt = queue_len + 1;
    queue_ptr = replicate ((queue_len + 1) * data_size) 0;
  },
  rw (lt→ltb (queue_len + 1) int_limit fits),
  record {
    block = length-replicate ((queue_len + 1) * data_size) 0;
    front_in = omega arith;
    fits = omega arith;
    rear_at = ground (arith, mod-eq_of_lt {n = 0} {m = queue_len + 1});
    places = tt;
  },
  refl,
  refl,
)

-- The tests do not use the caller's size, so a block shorter than an item is read past its end:
-- on every queue with a place left, `EnSeqQueue` faults.
pub en_seq_queue-overrun :
    (q : SeqQueue) (items : List (List ℕ)) (bytes : List ℕ)
    → Holds q items
    → suc (length items) < q.node_cnt
    → length bytes < q.data_size
    → en_seq_queue q bytes ≡ none
unfolding en_seq_queue memcpy
en_seq_queue-overrun q items bytes h room short =
    let more : (q.rear + 1) % q.node_cnt == q.front ≡ false = ground (arith, full_iff q items h) in
    rw (more, read_bytes-overrun bytes 0 q.data_size (omega arith) (omega arith))
