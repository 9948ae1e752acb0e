-- ===== src/Sort/Bubble/Missed.antt =====
-- The outer loop of `lc_bubble_sort` is one round short.
use practice_project.Prelude.{
  ℕ, zero, suc, ◌+◌, ◌-◌, ◌/◌, ◌≤◌, ◌<◌, ◌≡◌, ◌≢◌, List, some, arith, length, Returns, returns,
  Returns-bind, Returns-mono, Returns-value,
}
use practice_project.Array.{get!, sizeof_int}
use practice_project.Sort.Bubble.{bubble_pass, bubble_rounds, lc_bubble_sort}
use practice_project.Sort.Bubble.Correct.{Stepped, bubble_step-Stepped}

-- The only greatest of the first `cnt` elements stands at `m`.
pub record GreatestAt (a : List ℕ) (cnt m : ℕ) : Type 0 where
  pub within : m < cnt
  pub room : cnt ≤ length a
  pub greatest : (p : ℕ) → p < cnt → p ≢ m → get! a p < get! a m

-- A comparison before the greatest element leaves it where it is.
GreatestAt-before :
    (a : List ℕ) (cnt m i : ℕ) (b : List ℕ)
    → i + 1 < m
    → Stepped a i b
    → GreatestAt a cnt m
    → GreatestAt b cnt m
GreatestAt-before a cnt m i b h s g = record {
  within = g.within;
  room = omega (arith, g.room, s.same_length);
  greatest = λ p hp ne. ground (
    arith,
    s.others p,
    s.others m,
    s.pair,
    g.greatest p,
    g.greatest i,
    g.greatest (i + 1),
    g.within,
  );
}

-- The comparison with its neighbour moves it one place to the front.
GreatestAt-swap :
    (a : List ℕ) (cnt i : ℕ) (b : List ℕ)
    → Stepped a i b
    → GreatestAt a cnt (i + 1)
    → GreatestAt b cnt i
GreatestAt-swap a cnt i b s g = record {
  within = omega (arith, g.within);
  room = omega (arith, g.room, s.same_length);
  greatest = λ p hp ne. ground (arith, s.others p, s.pair, g.greatest p, g.greatest i, g.within);
}

-- A pass that ends with that comparison moves it by one.
bubble_pass-GreatestAt :
    (n i cnt : ℕ) (a : List ℕ)
    → GreatestAt a cnt (suc n + i)
    → Returns (λ b. GreatestAt b cnt (n + i)) (bubble_pass (suc n) i a)
unfolding bubble_pass
bubble_pass-GreatestAt zero i cnt a g =
    let here : suc zero + i ≡ i + 1 = omega arith in
    let there : zero + i ≡ i = omega arith in
    Returns-bind (bubble_step-Stepped a i (omega (arith, g.within, g.room)))
      λ b s. rw there (returns (GreatestAt-swap a cnt i b s (rw here at g)))
bubble_pass-GreatestAt (suc n) i cnt a g =
    let here : suc (suc n) + i ≡ suc n + (i + 1) = omega arith in
    let there : suc n + i ≡ n + (i + 1) = omega arith in
    Returns-bind (bubble_step-Stepped a i (omega (arith, g.within, g.room))) λ b s. rw there (
      bubble_pass-GreatestAt n (i + 1) cnt b
        (rw here at (GreatestAt-before a cnt (suc (suc n) + i) i b (omega arith) s g)))

bubble_rounds-GreatestAt :
    (cnt n k m : ℕ) (a : List ℕ)
    → n + k + 1 + m ≡ cnt
    → 0 < m
    → GreatestAt a cnt (n + m)
    → Returns (λ b. GreatestAt b cnt m) (bubble_rounds cnt n k a)
unfolding bubble_rounds
bubble_rounds-GreatestAt cnt zero k m a e pos g =
    let here : zero + m ≡ m = omega arith in returns (rw here at g)
bubble_rounds-GreatestAt cnt (suc n) k m a e pos g =
    let rounds : cnt - k - 1 ≡ suc (n + m) = omega arith in
    let here : suc n + m ≡ suc (n + m) + 0 = omega arith in
    let there : n + m + 0 ≡ n + m = omega arith in
    rw rounds (
      Returns-bind (bubble_pass-GreatestAt (n + m) 0 cnt a (rw here at g))
        λ b g'. bubble_rounds-GreatestAt cnt n (k + 1) m b (omega arith) pos (rw there at g'))

-- For every array whose last element is greater than all others, of at least two elements,
-- `lc_bubble_sort` returns with that element at index 1: the first element is smaller than the
-- second, so the array is not sorted from the greatest to the least.
pub lc_bubble_sort-misses :
    (a : List ℕ) (size : ℕ)
    → 2 ≤ size / sizeof_int
    → GreatestAt a (size / sizeof_int) (size / sizeof_int - 1)
    → (b : List ℕ) × (lc_bubble_sort a size ≡ some b) × (get! b 0 < get! b 1)
unfolding lc_bubble_sort
lc_bubble_sort-misses a size two g =
    let here : size / sizeof_int - 1 ≡ size / sizeof_int - 2 + 1 = omega arith in
    Returns-value (
      Returns-mono
        (bubble_rounds-GreatestAt (size / sizeof_int) (size / sizeof_int - 2) 0 1 a (omega arith)
          (omega arith) (rw here at g))
        λ b g'. g'.greatest 0 (omega arith) (omega arith))
