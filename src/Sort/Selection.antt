-- ===== src/Sort/Selection.antt =====
-- `lc_selection_sort` of practice_srcs/sort_algo/selection_sort.c, without the lines that print.
pub mod Correct
use practice_project.Prelude.{
  ℕ, zero, suc, ◌+◌, ◌-◌, ◌/◌, List, Option, some, ◌>>=◌, ltb, ◌==◌, if◌then◌else◌,
}
use practice_project.Array.{load, store, sizeof_int}

-- `for (i = k; i < cnt; i++) if (a[tmp_i] < a[i]) tmp_i = i;`, with the rounds that are left.
unfoldable pub find_greatest : ℕ → ℕ → ℕ → List ℕ → Option ℕ
find_greatest zero i tmp_i a = some tmp_i
find_greatest (suc n) i tmp_i a = do
  x ← load a tmp_i
  y ← load a i
  find_greatest n (i + 1) (if ltb x y then i else tmp_i) a

-- One round of the outer loop.
unfoldable pub select_one : ℕ → ℕ → List ℕ → Option (List ℕ)
select_one cnt k a = do
  m ← find_greatest (cnt - k) k k a
  x ← load a k
  y ← load a m
  if x == y then some a else store a k y >>= λ b. store b m x

unfoldable pub select_rounds : ℕ → ℕ → ℕ → List ℕ → Option (List ℕ)
select_rounds cnt zero k a = some a
select_rounds cnt (suc n) k a = do b ← select_one cnt k a; select_rounds cnt n (k + 1) b

-- `asize` is in bytes.
unfoldable pub lc_selection_sort : List ℕ → ℕ → Option (List ℕ)
lc_selection_sort a asize = let cnt = asize / sizeof_int in select_rounds cnt (cnt - 1) 0 a
