-- ===== src/Sort/Bubble/Correct.antt =====
-- What the passes of `lc_bubble_sort` put in place.
use practice_project.Prelude.{
  ℕ, zero, suc, ◌+◌, ◌-◌, ◌/◌, ◌≤◌, ◌<◌, ◌≡◌, refl, List, some, arith, ltb, ltb→lt, ltb→le,
  if◌then◌else◌, ◌==◌, length, Returns, returns, Returns-bind, Returns-if, Returns-mono,
  Returns-value, ◌⊎◌, inl, inr,
}
use practice_project.Array.{
  get!, swap, load-ok, get!-swap, swap-SameItems, store-store, length-swap, sizeof_int,
}
use practice_project.Sort.Spec.{Rearranged, Rearranged-refl, Rearranged-trans}
use practice_project.Sort.Bubble.{bubble_step, bubble_pass, bubble_rounds, lc_bubble_sort}

-- What one comparison does: a least of the two ends up behind.
pub record Stepped (a : List ℕ) (i : ℕ) (b : List ℕ) : Type 0 where
  pub same_length : length b ≡ length a
  pub moved : Rearranged a (i + 2) b
  pub others : (q : ℕ) → (q < i) ⊎ (i + 1 < q) → get! b q ≡ get! a q
  pub pair :
      ((get! a (i + 1) ≤ get! a i) × (get! b i ≡ get! a i) × (get! b (i + 1) ≡ get! a (i + 1)))
      ⊎ ((get! a i < get! a (i + 1)) × (get! b i ≡ get! a (i + 1)) × (get! b (i + 1) ≡ get! a i))

pub bubble_step-Stepped :
    (a : List ℕ) (i : ℕ) → i + 1 < length a → Returns (Stepped a i) (bubble_step i a)
unfolding bubble_step
bubble_step-Stepped a i h =
    rw (load-ok a i inside, load-ok a (i + 1) h)
      (Returns-if (ltb (get! a i) (get! a (i + 1)))
        (λ lt. rw (store-store a i (i + 1) inside h) (
          returns (record {
            same_length = length-swap a i (i + 1);
            moved = record {
              same_length = length-swap a i (i + 1);
              same_items = swap-SameItems a i (i + 1) inside h;
              same_rest = λ q out. ground (arith, swapped q);
            };
            others = λ q away. ground (arith, swapped q);
            pair = inr (ltb→lt _ _ lt, ground (arith, swapped i), ground (arith, swapped (i + 1)));
          })))
        (λ ge. returns (record {
          same_length = refl;
          moved = Rearranged-refl a (i + 2);
          others = λ q away. refl;
          pair = inl (ltb→le _ _ ge, refl, refl);
        })))
  where
    inside : i < length a
    inside = omega arith

    swapped :
        (q : ℕ)
        → get! (swap a i (i + 1)) q
          ≡ (if i + 1 == q then get! a i else if i == q then get! a (i + 1) else get! a q)
    swapped = get!-swap a i (i + 1) inside h

-- The elements from `m` on are in place: none is greater than one before it.
abbrev pub Settled : List ℕ → ℕ → ℕ → Type 0
Settled a m cnt = (p q : ℕ) → p < q → m ≤ q → q < cnt → get! a q ≤ get! a p

-- In a pass: the element at `i` is a least of those up to it.
record Carried (a : List ℕ) (m cnt i : ℕ) : Type 0 where
  settled : Settled a m cnt
  least : (p : ℕ) → p < i → get! a i ≤ get! a p

Carried-step :
    (a : List ℕ) (m cnt i : ℕ) (b : List ℕ)
    → i + 1 < m
    → Stepped a i b
    → Carried a m cnt i
    → Carried b m cnt (i + 1)
Carried-step a m cnt i b h s c = record {
  settled = λ p q lt lo hi.
      ground
        (arith, s.others p, s.others q, s.pair, c.settled p q, c.settled i q, c.settled (i + 1) q);
  least = λ p lt. ground (arith, s.others p, s.pair, c.least p);
}

bubble_pass-Carried :
    (n i m cnt : ℕ) (a : List ℕ)
    → n + i + 1 ≡ m
    → m ≤ cnt
    → cnt ≤ length a
    → Carried a m cnt i
    → Returns (λ b. Carried b m cnt (n + i) × Rearranged a cnt b) (bubble_pass n i a)
unfolding bubble_pass
bubble_pass-Carried zero i m cnt a e hm h c =
    let same : zero + i ≡ i = omega arith in rw same (returns (c, Rearranged-refl a cnt))
bubble_pass-Carried (suc n) i m cnt a e hm h c =
    Returns-bind (bubble_step-Stepped a i (omega arith)) λ b s.
      let same : suc n + i ≡ n + (i + 1) = omega arith in
      rw same (
        Returns-mono
          (bubble_pass-Carried n (i + 1) m cnt b (omega arith) hm (omega (arith, s.same_length))
            (Carried-step a m cnt i b (omega arith) s c))
          λ d (c', r). (
            c',
            Rearranged-trans a b d cnt cnt (omega arith)
                (record {
                  same_length = s.same_length;
                  same_items = s.moved.same_items;
                  same_rest = λ q out. s.moved.same_rest q (omega arith);
                })
                r,
          ))

-- A pass over the first `m` puts a least of them at `m - 1`.
bubble_pass-Settled :
    (m cnt : ℕ) (a : List ℕ)
    → suc m ≤ cnt
    → cnt ≤ length a
    → Settled a (suc m) cnt
    → Returns (λ b. Settled b m cnt × Rearranged a cnt b) (bubble_pass m 0 a)
bubble_pass-Settled m cnt a hm h settled =
    Returns-mono
      (bubble_pass-Carried m 0 (suc m) cnt a (omega arith) hm h
        (record { settled = settled; least = λ p lt. absurd (omega arith) }))
      λ b (c, r). (λ p q lt lo hi. ground (arith, c.settled p q, c.least p), r)

pub bubble_rounds-Settled :
    (cnt n k : ℕ) (a : List ℕ)
    → n + k < cnt
    → cnt ≤ length a
    → Settled a (cnt - k) cnt
    → Returns (λ b. Settled b (cnt - (n + k)) cnt × Rearranged a cnt b) (bubble_rounds cnt n k a)
unfolding bubble_rounds
bubble_rounds-Settled cnt zero k a lt h settled =
    returns (λ p q pq lo. settled p q pq (omega arith), Rearranged-refl a cnt)
bubble_rounds-Settled cnt (suc n) k a lt h settled =
    Returns-bind
      (bubble_pass-Settled (cnt - k - 1) cnt a (omega arith) h
        λ p q pq lo. settled p q pq (omega arith))
      λ b (settled', r).
        Returns-mono
          (bubble_rounds-Settled cnt n (k + 1) b (omega arith) (omega (arith, r.same_length))
            λ p q pq lo. settled' p q pq (omega arith))
          λ c (done, s). (
            λ p q pq lo. done p q pq (omega arith),
            Rearranged-trans a b c cnt cnt (omega arith) r s,
          )

-- For every array of at least `size / sizeof(int)` elements `lc_bubble_sort` stays in bounds and
-- returns: the elements are the same as before, each as often, those past the count are unchanged,
-- and of the others each one from index 2 on is at most as great as every element before it. (The
-- order of the first two is not promised.)
pub lc_bubble_sort-Settled :
    (a : List ℕ) (size : ℕ)
    → size / sizeof_int ≤ length a
    → (b : List ℕ) × (lc_bubble_sort a size ≡ some b)
      × (Settled b 2 (size / sizeof_int) × Rearranged a (size / sizeof_int) b)
unfolding lc_bubble_sort bubble_rounds
lc_bubble_sort-Settled a size h = Returns-value (sort (size / sizeof_int) h)
  where
    sort :
        (cnt : ℕ)
        → cnt ≤ length a
        → Returns (λ b. Settled b 2 cnt × Rearranged a cnt b) (bubble_rounds cnt (cnt - 2) 0 a)
    sort zero le = returns (λ p q pq lo hi. absurd (omega arith), Rearranged-refl a 0)
    sort (suc n) le =
        Returns-mono
          (bubble_rounds-Settled (suc n) (suc n - 2) 0 a (omega arith) le
            λ p q pq lo hi. absurd (omega arith))
          λ b (done, r). (λ p q pq lo hi. done p q pq (omega arith) hi, r)
