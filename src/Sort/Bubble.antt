-- ===== src/Sort/Bubble.antt =====
-- `lc_bubble_sort` of practice_srcs/sort_algo/bubble_sort.c, without the lines that print.
pub mod Correct
pub mod Missed
use practice_project.Prelude.{
  ℕ, zero, suc, ◌+◌, ◌-◌, ◌/◌, List, Option, some, ◌>>=◌, ltb, if◌then◌else◌,
}
use practice_project.Array.{load, store, sizeof_int}

-- The body of the inner loop.
unfoldable pub bubble_step : ℕ → List ℕ → Option (List ℕ)
bubble_step i a = do
  x ← load a i
  y ← load a (i + 1)
  if ltb x y then (do b ← store a i y; store b (i + 1) x) else some a

-- The inner loop, with the rounds that are left.
unfoldable pub bubble_pass : ℕ → ℕ → List ℕ → Option (List ℕ)
bubble_pass zero i a = some a
bubble_pass (suc n) i a = do b ← bubble_step i a; bubble_pass n (i + 1) b

-- The outer loop.
unfoldable pub bubble_rounds : ℕ → ℕ → ℕ → List ℕ → Option (List ℕ)
bubble_rounds cnt zero k a = some a
bubble_rounds cnt (suc n) k a = do b ← bubble_pass (cnt - k - 1) 0 a; bubble_rounds cnt n (k + 1) b

-- `size` is in bytes. The outer loop runs while `k < cnt - 2`; both sides are `int`, so for
-- `cnt < 2` it does not run.
unfoldable pub lc_bubble_sort : List ℕ → ℕ → Option (List ℕ)
lc_bubble_sort a size = let cnt = size / sizeof_int in bubble_rounds cnt (cnt - 2) 0 a
