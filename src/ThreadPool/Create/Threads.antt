-- ===== src/ThreadPool/Create/Threads.antt =====
-- Which threads a pool makes, and which ones it cancels.
use practice_project.Prelude.{
  ℕ, zero, suc, ◌+◌, ◌≤◌, ◌<◌, ◌≡◌, ◌≢◌, refl, List, [], ◌∷◌, Option, none, some, true, false,
  arith, leb, lt→ltb, le→ltb, if◌then◌else◌, length, get_elem?, set, length-set, replicate,
  length-replicate, Returns, returns, Returns-bind, Returns-value, ◌∙◌,
}
use mathlib.Core.Path.{subst}
use native.Mathlib.Decide.{dec_lt, ℕ_discrete}
use practice_project.ThreadPool.Create.{
  Pool, add_thread, create_udp_threads, create_udp_pool, create_sock_threads, create_sock_pool,
  cancel_threads, destroy_pool,
}

-- The first `n` ids from round `i` on.
abbrev pub ids_from : (ℕ → ℕ) → ℕ → ℕ → List ℕ
ids_from id i zero = []
ids_from id i (suc n) = id i ∷ ids_from id (i + 1) n

-- The places before `n` hold the ids, and there are `size` places.
pub record Made (id : ℕ → ℕ) (size n : ℕ) (p : Pool) : Type 0 where
  pub room : length p.tids ≡ size
  pub counted : p.cur_threads_cnt ≡ n
  pub written : (i : ℕ) → i < n → get_elem? p.tids i ≡ some (some (id i))

get_elem?-set_self :
    {A : Type 0} (xs : List A) (i : ℕ) (x : A) → i < length xs → get_elem? (set xs i x) i ≡ some x
get_elem?-set_self [] i x h = absurd (omega arith)
get_elem?-set_self (y ∷ xs) zero x h = refl
get_elem?-set_self (y ∷ xs) (suc i) x h = get_elem?-set_self xs i x (omega arith)

get_elem?-set_ne :
    {A : Type 0} (xs : List A) (i j : ℕ) (x : A) → i ≢ j → get_elem? (set xs i x) j ≡ get_elem? xs j
get_elem?-set_ne [] i j x ne = refl
get_elem?-set_ne (y ∷ xs) zero zero x ne = absurd (ne refl)
get_elem?-set_ne (y ∷ xs) zero (suc j) x ne = refl
get_elem?-set_ne (y ∷ xs) (suc i) zero x ne = refl
get_elem?-set_ne (y ∷ xs) (suc i) (suc j) x ne = get_elem?-set_ne xs i j x (omega arith)

abbrev empty_pool : ℕ → Pool
empty_pool n = record { tids = replicate n none; cur_threads_cnt = 0 }

empty_pool-Made : (id : ℕ → ℕ) (n : ℕ) → Made id n 0 (empty_pool n)
empty_pool-Made id n = record {
  room = length-replicate n none;
  counted = refl;
  written = λ i lt. absurd (omega arith);
}

add_thread-Made :
    (id : ℕ → ℕ) (size n : ℕ) (p : Pool)
    → n < size
    → Made id size n p
    → (q : Pool) × (add_thread n (some (id n)) p ≡ some q) × Made id size (n + 1) q
add_thread-Made id size n p lt v =
    let q : Pool = record {
      tids = set p.tids n (some (id n));
      cur_threads_cnt = p.cur_threads_cnt + 1;
    } in
    let inside : n < length p.tids = omega (arith, v.room) in
    (
      q,
      rw (lt→ltb n (length p.tids) inside),
      record {
        room = length-set p.tids n (some (id n)) ∙ v.room;
        counted = omega (arith, v.counted);
        written = λ i h. elim (ℕ_discrete n i) [
          | yes here ↦ rw (← here) (get_elem?-set_self p.tids n (some (id n)) inside)
          | no other ↦ get_elem?-set_ne p.tids n i (some (id n)) other ∙ v.written i (omega arith)
        ];
      },
    )

cancel_threads-Made :
    (id : ℕ → ℕ) (size n : ℕ) (p : Pool) (k i : ℕ)
    → Made id size n p
    → i + k ≤ n
    → cancel_threads k i p.tids ≡ some (ids_from id i k)
unfolding cancel_threads
cancel_threads-Made id size n p zero i v h = refl
cancel_threads-Made id size n p (suc k) i v h =
    rw (v.written i (omega arith), cancel_threads-Made id size n p k (i + 1) v (omega arith))

destroy_pool-Made :
    (id : ℕ → ℕ) (size n : ℕ) (p : Pool)
    → Made id size n p
    → destroy_pool p ≡ some (ids_from id 0 n)
unfolding destroy_pool
destroy_pool-Made id size n p v = rw v.counted (cancel_threads-Made id size n p n 0 v (omega arith))

module _ (create : ℕ → Option ℕ) (id : ℕ → ℕ) (all_made : (i : ℕ) → create i ≡ some (id i)) where
  create_sock_threads-Made :
      (size k i : ℕ) (p : Pool)
      → i + k ≡ size
      → Made id size i p
      → (q : Pool) × (create_sock_threads create k i p ≡ some q) × Made id size size q
  unfolding create_sock_threads
  create_sock_threads-Made size zero i p e v =
      (p, refl, subst (λ n. Made id size n p) (omega arith) v)
  create_sock_threads-Made size (suc k) i p e v =
      let (q, one, v') = add_thread-Made id size i p (omega arith) v in
      let (r, rest, w) = create_sock_threads-Made size k (i + 1) q (omega arith) v' in
      (r, rw (all_made i, one) rest, w)

  create_udp_threads-Made :
      (size max_cnt k i : ℕ) (p : Pool)
      → i ≤ size
      → i ≤ max_cnt
      → i + k ≡ max_cnt
      → Made id size i p
      → (n : ℕ) × (q : Pool) × (create_udp_threads create size max_cnt k i p ≡ some q)
        × Made id size n q
        × (n ≡ (if leb size max_cnt then size else max_cnt))
  unfolding create_udp_threads
  create_udp_threads-Made size max_cnt zero i p hs hm e v = (i, p, refl, v, ground arith)
  create_udp_threads-Made size max_cnt (suc k) i p hs hm e v = elim (dec_lt i size) [
    | yes more ↦
        let (q, one, v') = add_thread-Made id size i p more v in
        let (n, r, rest, w, least) =
          create_udp_threads-Made size max_cnt k (i + 1) q (omega arith) (omega arith) (omega arith)
            v' in
        let below : leb max_cnt p.cur_threads_cnt ≡ false = ground (arith, v.counted) in
        let below' : leb size p.cur_threads_cnt ≡ false = ground (arith, v.counted) in
        (n, r, rw (below, below', all_made i, one) rest, w, least)
    | no full ↦
        let at : leb size p.cur_threads_cnt ≡ true = ground (arith, v.counted) in
        let below : leb max_cnt p.cur_threads_cnt ≡ false = ground (arith, v.counted) in
        (i, p, rw (below, at), v, ground arith)
  ]

  -- If every call of `pthread_create` gives an id, the pools are made without a fault, and their
  -- destruction cancels just the ids that were given, in that order: in socket `init_cnt` of them,
  -- in socket_udp the lesser of `init_cnt` and `max_cnt`.
  pub destroy_pool-create_pool :
      (init_cnt max_cnt : ℕ)
      → (p q : Pool) × (create_sock_pool create init_cnt ≡ some p)
        × (destroy_pool p ≡ some (ids_from id 0 init_cnt))
        × (create_udp_pool create init_cnt max_cnt ≡ some q)
        × (destroy_pool q
            ≡ some (ids_from id 0 (if leb init_cnt max_cnt then init_cnt else max_cnt)))
  unfolding create_sock_pool create_udp_pool
  destroy_pool-create_pool init_cnt max_cnt =
      let (p, sock, v) =
        create_sock_threads-Made init_cnt init_cnt 0 (empty_pool init_cnt) (omega arith)
          (empty_pool-Made id init_cnt) in
      let (n, q, udp, w, least) =
        create_udp_threads-Made init_cnt max_cnt max_cnt 0 (empty_pool init_cnt) (omega arith)
          (omega arith) (omega arith) (empty_pool-Made id init_cnt) in
      (
        p,
        q,
        sock,
        destroy_pool-Made id init_cnt init_cnt p v,
        udp,
        rw (← least) (destroy_pool-Made id init_cnt n q w),
      )

add_thread-within :
    (size i : ℕ) (made : Option ℕ) (p : Pool)
    → i < size
    → length p.tids ≡ size
    → p.cur_threads_cnt ≤ i
    → Returns (λ q. (length q.tids ≡ size) × (q.cur_threads_cnt ≤ i + 1)) (add_thread i made p)
add_thread-within size i none p lt room few = returns (room, omega arith)
add_thread-within size i (some tid) p lt room few =
    rw (lt→ltb i (length p.tids) (omega arith))
      (returns (length-set p.tids i (some tid) ∙ room, omega arith))

create_sock_threads-within :
    (create : ℕ → Option ℕ) (size k i : ℕ) (p : Pool)
    → i + k ≡ size
    → length p.tids ≡ size
    → p.cur_threads_cnt ≤ i
    → Returns
        (λ q. (length q.tids ≡ size) × (q.cur_threads_cnt ≤ size))
        (create_sock_threads create k i p)
unfolding create_sock_threads
create_sock_threads-within create size zero i p e room few = returns (room, omega arith)
create_sock_threads-within create size (suc k) i p e room few =
    Returns-bind (add_thread-within size i (create i) p (omega arith) room few)
      λ q (room', few'). create_sock_threads-within create size k (i + 1) q (omega arith) room' few'

-- Whatever `pthread_create` gives, `create_thread_pool` writes no id outside its block, and counts
-- at most `init_cnt` threads.
pub create_sock_pool-within :
    (create : ℕ → Option ℕ) (init_cnt : ℕ)
    → (p : Pool) × (create_sock_pool create init_cnt ≡ some p)
      × (length p.tids ≡ init_cnt)
      × (p.cur_threads_cnt ≤ init_cnt)
unfolding create_sock_pool
create_sock_pool-within create init_cnt =
    let (p, e, (room, few)) = Returns-value (
      create_sock_threads-within create init_cnt init_cnt 0 (empty_pool init_cnt) (omega arith)
        (length-replicate init_cnt none) (omega arith)) in
    (p, e, room, few)

create_udp_threads-late :
    (create : ℕ → Option ℕ) (size max_cnt k i : ℕ) (p : Pool)
    → ((j : ℕ) → 0 < j → (tid : ℕ) × (create j ≡ some tid))
    → size < max_cnt
    → 0 < i
    → i + k ≡ max_cnt
    → i ≤ size
    → p.cur_threads_cnt + 1 ≡ i
    → length p.tids ≡ size
    → create_udp_threads create size max_cnt k i p ≡ none
unfolding create_udp_threads
create_udp_threads-late create size max_cnt zero i p made wide pos e hi late room =
    absurd (omega arith)
create_udp_threads-late create size max_cnt (suc k) i p made wide pos e hi late room =
    let (tid, got) = made i pos in
    let below : leb max_cnt p.cur_threads_cnt ≡ false = ground arith in
    let below' : leb size p.cur_threads_cnt ≡ false = ground arith in
    elim (dec_lt i size) [
      | yes more ↦
          rw (below, below', got, lt→ltb i (length p.tids) (omega arith))
            (create_udp_threads-late create size max_cnt k (i + 1) _ made wide (omega arith)
              (omega arith) (omega arith) (omega arith) (length-set p.tids i (some tid) ∙ room))
      | no full ↦ rw (below, below', got, le→ltb i (length p.tids) (omega arith))
    ]

-- In socket_udp the rounds go on to `max_cnt` while the block has `init_cnt` places: if that is less,
-- and just the first call of `pthread_create` fails, the last id is written past the block.
pub create_udp_pool-overrun :
    (create : ℕ → Option ℕ) (init_cnt max_cnt : ℕ)
    → 0 < init_cnt
    → init_cnt < max_cnt
    → create 0 ≡ none
    → ((j : ℕ) → 0 < j → (tid : ℕ) × (create j ≡ some tid))
    → create_udp_pool create init_cnt max_cnt ≡ none
unfolding create_udp_pool create_udp_threads
create_udp_pool-overrun create init_cnt (suc m) pos wide fails made =
    let below : leb init_cnt 0 ≡ false = ground arith in
    let below' : leb (suc m) 0 ≡ false = ground arith in
    rw (below, below', fails)
      (create_udp_threads-late create init_cnt (suc m) m 1 (empty_pool init_cnt) made wide
        (omega arith) (omega arith) (omega arith) refl (length-replicate init_cnt none))
create_udp_pool-overrun create init_cnt zero pos wide fails made = absurd (omega arith)
