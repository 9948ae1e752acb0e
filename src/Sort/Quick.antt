-- ===== src/Sort/Quick.antt =====
-- `lc_quick_sort` of practice_srcs/sort_algo/quick_sort.c, without the lines that print: the
-- first element is the pivot, and ranges still to be sorted wait on an explicit stack.
pub mod Within
pub mod Scan
pub mod Partition
pub mod Stack
pub mod Correct
use practice_project.Prelude.{
  ℕ, zero, suc, ◌+◌, ◌-◌, ◌*◌, List, [], ◌∷◌, Option, none, some, ◌>>=◌, ltb, leb, ◌&&◌,
  if◌then◌else◌, true, false, length,
}
use practice_project.Array.{load, store}

-- `range_t`.
pub record Range : Type 0 where
  pub start : ℕ
  pub end : ℕ

abbrev pub new_range : ℕ → ℕ → Range
new_range s e = record { start = s; end = e }

-- `swap_int(&a[i], &a[j])`.
unfoldable pub swap_int : List ℕ → ℕ → ℕ → Option (List ℕ)
swap_int a i j = do x ← load a i; y ← load a j; b ← store a i y; store b j x

-- `while (a[left] < *key && left < right) left++;`, on fuel, with `key` as an index.
unfoldable pub scan_left : ℕ → List ℕ → (key left right : ℕ) → Option ℕ
scan_left zero a key left right = none
scan_left (suc f) a key left right = do
  x ← load a left
  k ← load a key
  let further = scan_left f a key (left + 1) right
  if ltb x k && ltb left right then further else some left

-- `while (a[right] >= *key && left < right) right--;`, on fuel.
unfoldable pub scan_right : ℕ → List ℕ → (key left right : ℕ) → Option ℕ
scan_right zero a key left right = none
scan_right (suc f) a key left right = do
  x ← load a right
  k ← load a key
  let further = scan_right f a key left (right - 1)
  if leb k x && ltb left right then further else some right

-- The loop `while (left < right)`, on fuel; returns the array and the last `left`.
unfoldable pub partition_loop : ℕ → List ℕ → (key left right : ℕ) → Option (List ℕ × ℕ)
partition_loop zero a key left right = none
partition_loop (suc f) a key left right =
    let round : Option (List ℕ × ℕ) = do
      l ← scan_left (right - left + 1) a key left right
      r ← scan_right (right - l + 1) a key l right
      b ← if ltb l r then swap_int a l r else some a
      partition_loop f b key l r
    in if ltb left right then round else some (a, left)

-- From `key = &a[cur_r.start]` to the pivot's move; returns the array and the pivot's index. Each
-- round but the first moves `left` or `right`, so `2 * (end - start) + 2` rounds are enough.
unfoldable pub place_pivot : List ℕ → Range → Option (List ℕ × ℕ)
place_pivot a cur = do
  (b, left) ← partition_loop (2 * (cur.end - cur.start) + 2) a cur.start (cur.start + 1) cur.end
  x ← load b left
  k ← load b cur.start
  let here = swap_int b left cur.start >>= λ c. some (c, left)
  let before = swap_int b (left - 1) cur.start >>= λ c. some (c, left - 1)
  if ltb x k then here else before

-- `range[stack_top++] = r`: the stack's array has `cnt` places. The list has the top first.
unfoldable pub push : ℕ → Range → List Range → Option (List Range)
push cnt r st = if ltb (length st) cnt then some (r ∷ st) else none

-- The loop's body for a range with `start < end`.
unfoldable pub split_range : ℕ → Range → List Range → List ℕ → Option (List ℕ × List Range)
split_range cnt cur st a = do
  (b, left) ← place_pivot a cur
  st' ← if ltb cur.start (left - 1) then push cnt (new_range cur.start (left - 1)) st else some st
  st'' ← if ltb (left + 1) cur.end then push cnt (new_range (left + 1) cur.end) st' else some st'
  some (b, st'')

-- `while (stack_top)`, on fuel.
unfoldable pub quick_loop : ℕ → ℕ → List Range → List ℕ → Option (List ℕ)
quick_loop zero cnt st a = none
quick_loop (suc f) cnt [] a = some a
quick_loop (suc f) cnt (cur ∷ st) a = elim (leb cur.end cur.start) [
  | true ↦ quick_loop f cnt st a
  | false ↦ split_range cnt cur st a >>= λ (b, st'). quick_loop f cnt st' b
]

-- A range on the stack holds an index that no other one holds, and each round takes one away for
-- good, so `cnt + 1` rounds are enough. With `cnt = 0` the first push is out of bounds.
unfoldable pub lc_quick_sort : List ℕ → ℕ → Option (List ℕ)
lc_quick_sort a cnt = do st ← push cnt (new_range 0 (cnt - 1)) []; quick_loop (cnt + 1) cnt st a
