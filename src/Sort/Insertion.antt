-- ===== src/Sort/Insertion.antt =====
-- `lc_insert_sort` of practice_srcs/sort_algo/insert_sort.c, without the lines that print.
pub mod Inner
pub mod Correct
use practice_project.Prelude.{
  ℕ, zero, suc, ◌+◌, ◌-◌, List, Option, none, some, ◌>>=◌, ltb, if◌then◌else◌,
}
use practice_project.Array.{load, store}

-- `for (j = i; j > 0 && tmp > a[j - 1]; j--) a[j] = a[j - 1];`, with the array and the last `j`.
unfoldable pub make_room : List ℕ → ℕ → ℕ → Option (List ℕ × ℕ)
make_room a tmp zero = some (a, zero)
make_room a tmp (suc j) = do
  x ← load a j
  let moved = store a (suc j) x >>= λ b. make_room b tmp j
  if ltb x tmp then moved else some (a, suc j)

-- One round of the outer loop.
unfoldable pub insert_one : List ℕ → ℕ → Option (List ℕ)
insert_one a i = do tmp ← load a i; (b, j) ← make_room a tmp i; store b j tmp

-- The outer loop, from `i`, with the rounds that are left.
unfoldable pub insert_rounds : ℕ → ℕ → List ℕ → Option (List ℕ)
insert_rounds zero i a = some a
insert_rounds (suc n) i a = do b ← insert_one a i; insert_rounds n (i + 1) b

unfoldable pub lc_insert_sort : List ℕ → ℕ → Option (List ℕ)
lc_insert_sort a cnt = insert_rounds (cnt - 1) 1 a
