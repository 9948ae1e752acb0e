-- ===== src/Sort/Selection/Correct.antt =====
-- `lc_selection_sort` sorts downwards.
use practice_project.Prelude.{
  ℕ, zero, suc, ◌+◌, ◌-◌, ◌/◌, ◌≤◌, ◌<◌, ◌≡◌, List, some, arith, ltb, ◌==◌, if◌then◌else◌,
  Bool-cases, length, Returns, returns, Returns-bind, Returns-if, Returns-mono, Returns-value, inl,
  inr, ==_iff,
}
use practice_project.Array.{
  get!, load-ok, get!-swap, swap-SameItems, store-store, length-swap, sizeof_int,
}
use practice_project.Sort.Spec.{IsDesc, Rearranged, Rearranged-refl, Rearranged-trans}
use practice_project.Sort.Selection.{find_greatest, select_one, select_rounds, lc_selection_sort}

-- `m` holds a greatest element of those at `k ≤ q < i`.
record Greatest (a : List ℕ) (k cnt i m : ℕ) : Type 0 where
  from : k ≤ m
  before : m < cnt
  covers : (q : ℕ) → k ≤ q → q < i → get! a q ≤ get! a m

find_greatest-Greatest :
    (n i k cnt m : ℕ) (a : List ℕ)
    → n + i ≡ cnt
    → cnt ≤ length a
    → k ≤ i
    → Greatest a k cnt i m
    → Returns (Greatest a k cnt cnt) (find_greatest n i m a)
unfolding find_greatest
find_greatest-Greatest zero i k cnt m a e h ki g =
    returns
      (record { from = g.from; before = g.before; covers = λ q lo hi. g.covers q lo (omega arith) })
find_greatest-Greatest (suc n) i k cnt m a e h ki g =
    rw (load-ok a m (omega (arith, g.before)), load-ok a i (omega arith))
      (find_greatest-Greatest n (i + 1) k cnt (if ltb (get! a m) (get! a i) then i else m) a
        (omega arith) h (omega arith)
        (elim (Bool-cases (ltb (get! a m) (get! a i))) [
          | inl lt ↦ rw lt (record {
            from = ki;
            before = omega arith;
            covers = λ q lo hi. ground (arith, g.covers q);
          })
          | inr ge ↦ rw ge (record {
            from = g.from;
            before = g.before;
            covers = λ q lo hi. ground (arith, g.covers q);
          })
        ]))

-- The elements before `k` are in place: each is at least as great as all that follow it.
abbrev Placed : List ℕ → ℕ → ℕ → Type 0
Placed a k cnt = (p q : ℕ) → p < k → p < q → q < cnt → get! a q ≤ get! a p

select_one-Placed :
    (cnt k : ℕ) (a : List ℕ)
    → k < cnt
    → cnt ≤ length a
    → Placed a k cnt
    → Returns (λ b. Placed b (suc k) cnt × Rearranged a cnt b) (select_one cnt k a)
unfolding select_one
select_one-Placed cnt k a hk h placed =
    Returns-bind (find_greatest-Greatest (cnt - k) k k cnt k a (omega arith) h (omega arith) start)
      λ m g.
        let inside : k < length a = omega arith in
        let inside' : m < length a = omega (arith, g.before) in
        let swapped = λ (q : ℕ). get!-swap a k m inside inside' q in
        rw (load-ok a k inside, load-ok a m inside')
          (Returns-if (get! a k == get! a m)
            (λ same. returns (
              λ p q lt lt' hi. ground (arith, placed p q, g.covers q, ==_iff (get! a k) (get! a m)),
              Rearranged-refl a cnt,
            ))
            (λ other. rw (store-store a k m inside inside') (
              returns (
                λ p q lt lt' hi. ground (
                  arith,
                  swapped p,
                  swapped q,
                  placed p q,
                  placed p m,
                  placed p k,
                  g.covers q,
                  g.covers k,
                  g.from,
                  g.before,
                ),
                record {
                  same_length = length-swap a k m;
                  same_items = swap-SameItems a k m inside inside';
                  same_rest = λ q out. ground (arith, swapped q, g.before);
                },
              ))))
  where
    start : Greatest a k cnt k k
    start = record { from = omega arith; before = hk; covers = λ q lo hi. absurd (omega arith) }

select_rounds-Placed :
    (cnt n k : ℕ) (a : List ℕ)
    → n + k < cnt
    → cnt ≤ length a
    → Placed a k cnt
    → Returns (λ b. Placed b (n + k) cnt × Rearranged a cnt b) (select_rounds cnt n k a)
unfolding select_rounds
select_rounds-Placed cnt zero k a lt h placed =
    returns (λ p q pk. placed p q (omega arith), Rearranged-refl a cnt)
select_rounds-Placed cnt (suc n) k a lt h placed =
    Returns-bind (select_one-Placed cnt k a (omega arith) h placed) λ b (placed', r).
      Returns-mono
        (select_rounds-Placed cnt n (k + 1) b (omega arith) (omega (arith, r.same_length))
          λ p q pk. placed' p q (omega arith))
        λ c (done, s).
          (λ p q pk. done p q (omega arith), Rearranged-trans a b c cnt cnt (omega arith) r s)

-- For every array of at least `asize / sizeof(int)` elements `lc_selection_sort` stays in bounds
-- and returns: those elements are sorted from the greatest to the least, they are the same
-- elements as before, each as often, and every later element is unchanged.
pub lc_selection_sort-IsDesc :
    (a : List ℕ) (asize : ℕ)
    → asize / sizeof_int ≤ length a
    → (b : List ℕ) × (lc_selection_sort a asize ≡ some b)
      × (IsDesc b 0 (asize / sizeof_int) × Rearranged a (asize / sizeof_int) b)
unfolding lc_selection_sort select_rounds
lc_selection_sort-IsDesc a asize h = Returns-value (sort (asize / sizeof_int) h)
  where
    sort :
        (cnt : ℕ)
        → cnt ≤ length a
        → Returns (λ b. IsDesc b 0 cnt × Rearranged a cnt b) (select_rounds cnt (cnt - 1) 0 a)
    sort zero le = returns (λ p q low lt lt'. absurd (omega arith), Rearranged-refl a 0)
    sort (suc n) le =
        Returns-mono
          (select_rounds-Placed (suc n) (suc n - 1) 0 a (omega arith) le
            λ p q lt. absurd (omega arith))
          λ b (done, r). (λ p q low lt lt'. done p q (omega arith) lt lt', r)
