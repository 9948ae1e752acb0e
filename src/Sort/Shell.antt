-- ===== src/Sort/Shell.antt =====
-- `lc_shell_sort` of practice_srcs/sort_algo/shell_sort.c, without the lines that print.
pub mod Passes
pub mod Correct
use practice_project.Prelude.{
  ℕ, zero, suc, ◌+◌, ◌-◌, ◌/◌, List, Option, none, some, ◌>>=◌, ltb, if◌then◌else◌,
}
use practice_project.Array.{load, store}

-- `for (j = i; j >= gap && tmp > a[j - gap]; j -= gap) a[j] = a[j - gap];`, on fuel; returns the
-- array and the last `j`.
unfoldable pub shift_by : ℕ → ℕ → List ℕ → ℕ → ℕ → Option (List ℕ × ℕ)
shift_by zero gap a tmp j = none
shift_by (suc f) gap a tmp j =
    let further : Option (List ℕ × ℕ) = do
      x ← load a (j - gap)
      let moved = store a j x >>= λ b. shift_by f gap b tmp (j - gap)
      if ltb x tmp then moved else some (a, j)
    in if ltb j gap then some (a, j) else further

-- The body of the loop over `i`. A gap is positive, so `i + 1` rounds are enough.
unfoldable pub gap_insert : ℕ → List ℕ → ℕ → Option (List ℕ)
gap_insert gap a i = do tmp ← load a i; (b, j) ← shift_by (i + 1) gap a tmp i; store b j tmp

-- The loop over `i`, with the rounds that are left.
unfoldable pub gap_pass : ℕ → ℕ → ℕ → List ℕ → Option (List ℕ)
gap_pass gap zero i a = some a
gap_pass gap (suc n) i a = do b ← gap_insert gap a i; gap_pass gap n (i + 1) b

-- `for (; gap > 0; gap >>= 1)`, on fuel.
unfoldable pub gap_loop : ℕ → ℕ → ℕ → List ℕ → Option (List ℕ)
gap_loop zero cnt gap a = none
gap_loop (suc f) cnt gap a =
    let rounds = gap_pass gap cnt 0 a >>= λ b. gap_loop f cnt (gap / 2) b in
    if ltb 0 gap then rounds else some a

-- The gap at least halves, so `cnt / 2 + 1` rounds are enough.
unfoldable pub lc_shell_sort : List ℕ → ℕ → Option (List ℕ)
lc_shell_sort a cnt = gap_loop (cnt / 2 + 1) cnt (cnt / 2) a
