-- ===== src/Sort/Insertion/Correct.antt =====
-- `lc_insert_sort` sorts downwards and touches nothing past `cnt`.
use practice_project.Prelude.{
  ℕ, zero, suc, ◌+◌, ◌-◌, ◌≤◌, ◌≡◌, List, some, arith, length, Returns, returns, Returns-bind,
  Returns-mono, Returns-value,
}
use practice_project.Sort.Spec.{IsDesc, Rearranged, Rearranged-refl, Rearranged-trans}
use practice_project.Sort.Insertion.{insert_rounds, lc_insert_sort}
use practice_project.Sort.Insertion.Inner.{insert_one-IsDesc}

-- From a sorted part of length `i`, `n` rounds give one of length `n + i`.
pub insert_rounds-IsDesc :
    (n i m : ℕ) (a : List ℕ)
    → n + i ≡ m
    → m ≤ length a
    → IsDesc a 0 i
    → Returns (λ b. IsDesc b 0 m × Rearranged a m b) (insert_rounds n i a)
unfolding insert_rounds
insert_rounds-IsDesc zero i m a e h sorted =
    returns (λ p q low lt lt'. sorted p q low lt (omega arith), Rearranged-refl a m)
insert_rounds-IsDesc (suc n) i m a e h sorted =
    Returns-bind (insert_one-IsDesc a i (omega arith) sorted) λ b (sorted', r).
      Returns-mono
        (insert_rounds-IsDesc n (i + 1) m b (omega arith) (omega (arith, r.same_length))
          λ p q low lt lt'. sorted' p q low lt (omega arith))
        λ c (done, s). (done, Rearranged-trans a b c (suc i) m (omega arith) r s)

-- For every array of at least `cnt` elements `lc_insert_sort` stays in bounds and returns: the
-- first `cnt` elements are sorted from the greatest to the least, they are the same elements as
-- before, each as often, and every element from `cnt` on is unchanged.
pub lc_insert_sort-IsDesc :
    (a : List ℕ) (cnt : ℕ)
    → cnt ≤ length a
    → (b : List ℕ) × (lc_insert_sort a cnt ≡ some b) × (IsDesc b 0 cnt × Rearranged a cnt b)
unfolding lc_insert_sort insert_rounds
lc_insert_sort-IsDesc a cnt h = Returns-value (sort cnt h)
  where
    sort :
        (n : ℕ) → n ≤ length a → Returns (λ b. IsDesc b 0 n × Rearranged a n b) (lc_insert_sort a n)
    sort zero le = returns (λ p q low lt lt'. absurd (omega arith), Rearranged-refl a 0)
    sort (suc n) le =
        insert_rounds-IsDesc (suc n - 1) 1 (suc n) a (omega arith) le
          λ p q low lt lt'. absurd (omega arith)
