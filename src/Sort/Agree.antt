-- ===== src/Sort/Agree.antt =====
-- Two programs that sort the same way return the same array.
use practice_project.Prelude.{
  ℕ, zero, suc, ◌/◌, ◌≤◌, ◌<◌, ◌≡◌, ◌≢◌, refl, ap, sym, ◌∙◌, List, [], ◌∷◌, some, arith, length,
}
use mathlib.Core.Path.{ap₂}
use native.Mathlib.Decide.{dec_lt}
use practice_project.Array.{sizeof_int, get!, count, SameItems}
use practice_project.Sort.Spec.{IsDesc, Rearranged}
use practice_project.Sort.Insertion.{lc_insert_sort}
use practice_project.Sort.Insertion.Correct.{lc_insert_sort-IsDesc}
use practice_project.Sort.Selection.{lc_selection_sort}
use practice_project.Sort.Selection.Correct.{lc_selection_sort-IsDesc}
use practice_project.Sort.Shell.{lc_shell_sort}
use practice_project.Sort.Shell.Correct.{lc_shell_sort-IsDesc}

-- A value that `c` does not have before `n` is there at most as often as in an array that is the
-- same from `n` on.
count_le :
    (v n : ℕ) (b c : List ℕ)
    → length b ≡ length c
    → ((k : ℕ) → n ≤ k → get! b k ≡ get! c k)
    → ((k : ℕ) → k < n → k < length c → get! c k ≢ v)
    → count v c ≤ count v b
unfolding get! count
count_le v n [] [] len rest none_in = omega arith
count_le v n [] (y ∷ c) len rest none_in = absurd (omega arith)
count_le v n (x ∷ b) [] len rest none_in = absurd (omega arith)
count_le v zero (x ∷ b) (y ∷ c) len rest none_in =
    let same : x ≡ y = rest 0 (omega arith) in
    let tail =
      count_le v 0 b c (omega arith) (λ k h. rest (suc k) (omega arith))
        (λ k h. absurd (omega arith)) in
    ground (arith, same, tail)
count_le v (suc n) (x ∷ b) (y ∷ c) len rest none_in =
    let other : y ≢ v = none_in 0 (omega arith) (omega arith) in
    let tail =
      count_le v n b c (omega arith) (λ k h. rest (suc k) (omega arith))
        (λ k h h'. none_in (suc k) (omega arith) (omega arith)) in
    ground (arith, other, tail)

-- The first element of a sorted part is the greatest, so not greater than that of another one with the
-- same elements.
first_le :
    (n x y : ℕ) (b c : List ℕ)
    → length b ≡ length c
    → SameItems (x ∷ b) (y ∷ c)
    → ((k : ℕ) → suc n ≤ k → get! (x ∷ b) k ≡ get! (y ∷ c) k)
    → IsDesc (y ∷ c) 0 (suc n)
    → x ≤ y
unfolding get! count
first_le n x y b c len same rest sorted = elim (dec_lt y x) [
  | no le ↦ omega arith
  | yes gt ↦
      let few =
        count_le x n b c len (λ k h. rest (suc k) (omega arith))
          (λ k h h' at.
            absurd (omega (arith, sorted 0 (suc k) (omega arith) (omega arith) (omega arith)))) in
      absurd (ground (arith, same x, few, gt))
]

-- Two arrays that are sorted before `n`, with the same elements and the same rest, are the same.
sorted_unique :
    (n : ℕ) (b c : List ℕ)
    → length b ≡ length c
    → SameItems b c
    → ((k : ℕ) → n ≤ k → get! b k ≡ get! c k)
    → IsDesc b 0 n
    → IsDesc c 0 n
    → b ≡ c
unfolding get! count
sorted_unique n [] [] len same rest sb sc = refl
sorted_unique n [] (y ∷ c) len same rest sb sc = absurd (omega arith)
sorted_unique n (x ∷ b) [] len same rest sb sc = absurd (omega arith)
sorted_unique zero (x ∷ b) (y ∷ c) len same rest sb sc =
    let first : x ≡ y = rest 0 (omega arith) in
    let tail =
      sorted_unique 0 b c (omega arith) (λ v. ground (arith, same v, first))
        (λ k h. rest (suc k) (omega arith)) (λ i j lo ij h. absurd (omega arith))
        (λ i j lo ij h. absurd (omega arith)) in
    ap₂ (◌∷◌) first tail
sorted_unique (suc n) (x ∷ b) (y ∷ c) len same rest sb sc =
    let le = first_le n x y b c (omega arith) same rest sc in
    let ge = first_le n y x c b (omega arith) (λ v. sym (same v)) (λ k h. sym (rest k h)) sb in
    let first : x ≡ y = omega arith in
    let tail =
      sorted_unique n b c (omega arith) (λ v. ground (arith, same v, first))
        (λ k h. rest (suc k) (omega arith))
        (λ i j lo ij h. sb (suc i) (suc j) (omega arith) (omega arith) (omega arith))
        (λ i j lo ij h. sc (suc i) (suc j) (omega arith) (omega arith) (omega arith)) in
    ap₂ (◌∷◌) first tail

Rearranged-unique :
    (n : ℕ) (a b c : List ℕ)
    → IsDesc b 0 n × Rearranged a n b
    → IsDesc c 0 n × Rearranged a n c
    → b ≡ c
Rearranged-unique n a b c (sb, rb) (sc, rc) =
    sorted_unique n b c (rb.same_length ∙ sym rc.same_length)
      (λ v. rb.same_items v ∙ sym (rc.same_items v))
      (λ k h. rb.same_rest k h ∙ sym (rc.same_rest k h)) sb sc

-- For every array and every size in bytes within it, `lc_insert_sort` and `lc_shell_sort`, given the
-- number of elements, and `lc_selection_sort`, given the size, return, all with the same array.
pub desc_sorts_agree :
    (a : List ℕ) (asize : ℕ)
    → asize / sizeof_int ≤ length a
    → (b : List ℕ) × (lc_insert_sort a (asize / sizeof_int) ≡ some b)
      × (lc_shell_sort a (asize / sizeof_int) ≡ some b)
      × (lc_selection_sort a asize ≡ some b)
desc_sorts_agree a asize h =
    let n = asize / sizeof_int in
    let (b, e, v) = lc_insert_sort-IsDesc a n h in
    let (c, e', v') = lc_shell_sort-IsDesc a n h in
    let (d, e'', v'') = lc_selection_sort-IsDesc a asize h in
    (
      b,
      e,
      e' ∙ ap some (Rearranged-unique n a c b v' v),
      e'' ∙ ap some (Rearranged-unique n a d b v'' v),
    )
