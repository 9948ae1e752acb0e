-- ===== src/Sort/Shell/Correct.antt =====
-- `lc_shell_sort` sorts downwards: the pass with the last gap, 1, is an insertion sort.
use practice_project.Prelude.{
  ℕ, zero, suc, ◌+◌, ◌/◌, ◌≤◌, ◌<◌, ◌≡◌, refl, List, some, arith, ltb, ltb→lt, ltb→le, length,
  Returns, returns, Returns-bind, Returns-if, Returns-mono, Returns-value,
}
use native.Mathlib.Decide.{dec_lt}
use practice_project.Sort.Spec.{IsDesc, Rearranged, Rearranged-refl, Rearranged-trans}
use practice_project.Sort.Insertion.Correct.{insert_rounds-IsDesc}
use practice_project.Sort.Shell.{gap_pass, gap_loop, lc_shell_sort}
use practice_project.Sort.Shell.Passes.{gap_pass-Rearranged, gap_pass-one}

-- What the loop over the gaps gives, started at `gap`.
record Shelled (cnt gap : ℕ) (a b : List ℕ) : Type 0 where
  moved : Rearranged a cnt b
  sorted : 0 < gap → IsDesc b 0 cnt

last_pass :
    (cnt : ℕ) (a : List ℕ)
    → cnt ≤ length a
    → Returns (λ b. IsDesc b 0 cnt × Rearranged a cnt b) (gap_pass 1 cnt 0 a)
last_pass cnt a h =
    rw (gap_pass-one cnt 0 a)
      (insert_rounds-IsDesc cnt 0 cnt a (omega arith) h λ p q low lt lt'. absurd (omega arith))

-- After the pass with gap 1 the loop ends.
gap_loop-zero : (f cnt : ℕ) (a : List ℕ) → 0 < f → gap_loop f cnt 0 a ≡ some a
unfolding gap_loop
gap_loop-zero zero cnt a pos = absurd (omega arith)
gap_loop-zero (suc f) cnt a pos = refl

gap_loop-Shelled :
    (f cnt gap : ℕ) (a : List ℕ)
    → gap < f
    → cnt ≤ length a
    → Returns (Shelled cnt gap a) (gap_loop f cnt gap a)
unfolding gap_loop
gap_loop-Shelled zero cnt gap a fuel h = absurd (omega arith)
gap_loop-Shelled (suc f) cnt gap a fuel h =
    Returns-if (ltb 0 gap)
      (λ t.
        let pos : 0 < gap = ltb→lt 0 gap t in
        elim (dec_lt 1 gap) [
          | yes more ↦ Returns-bind (gap_pass-Rearranged gap cnt 0 cnt a pos (omega arith) h) λ b r.
              Returns-mono
                (gap_loop-Shelled f cnt (gap / 2) b (omega arith) (omega (arith, r.same_length)))
                λ c s. record {
                  moved = Rearranged-trans a b c cnt cnt (omega arith) r s.moved;
                  sorted = λ _. s.sorted (omega arith);
                }
          | no last ↦
              let one : gap ≡ 1 = omega arith in
              let over : gap / 2 ≡ 0 = omega arith in
              rw (over, one)
                (Returns-bind (last_pass cnt a h) λ b (sorted, r).
                  rw (gap_loop-zero f cnt b (omega arith))
                    (returns (record { moved = r; sorted = λ _. sorted })))
        ])
      (λ done. returns (record {
        moved = Rearranged-refl a cnt;
        sorted = λ pos. absurd (omega (arith, ltb→le 0 gap done));
      }))

-- For every array of at least `cnt` elements `lc_shell_sort` stays in bounds and returns: the
-- first `cnt` elements are sorted from the greatest to the least, they are the same elements as
-- before, each as often, and every element from `cnt` on is unchanged.
pub lc_shell_sort-IsDesc :
    (a : List ℕ) (cnt : ℕ)
    → cnt ≤ length a
    → (b : List ℕ) × (lc_shell_sort a cnt ≡ some b) × (IsDesc b 0 cnt × Rearranged a cnt b)
unfolding lc_shell_sort
lc_shell_sort-IsDesc a cnt h = Returns-value (
    Returns-mono (gap_loop-Shelled (cnt / 2 + 1) cnt (cnt / 2) a (omega arith) h)
      λ b s. (λ p q low lt lt'. s.sorted (omega arith) p q low lt lt', s.moved))
