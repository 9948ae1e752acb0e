-- ===== src/Sort/Tests.antt =====
-- The sorts on small arrays.
use practice_project.Prelude.{
  ◌-◌, zero, suc, ◌/◌, ◌≡◌, ◌<◌, refl, List, [], ◌∷◌, some, arith, ℕ, ◌≢◌,
}
use practice_project.Array.{get!, sizeof_int}
use practice_project.Sort.Spec.{IsDesc, IsAsc, Rearranged}
use practice_project.Sort.Insertion.{make_room, insert_one, insert_rounds, lc_insert_sort}
use practice_project.Sort.Insertion.Correct.{lc_insert_sort-IsDesc}
use practice_project.Sort.Selection.{find_greatest, select_one, select_rounds, lc_selection_sort}
use practice_project.Sort.Bubble.{bubble_step, bubble_pass, bubble_rounds, lc_bubble_sort}
use practice_project.Sort.Bubble.Correct.{Settled, lc_bubble_sort-Settled}
use practice_project.Sort.Bubble.Missed.{GreatestAt, lc_bubble_sort-misses}
use practice_project.Sort.Shell.{shift_by, gap_insert, gap_pass, gap_loop, lc_shell_sort}
use practice_project.Sort.Shell.Correct.{lc_shell_sort-IsDesc}
use practice_project.Sort.Agree.{desc_sorts_agree}
use practice_project.Sort.Quick.{
  swap_int, scan_left, scan_right, partition_loop, place_pivot, push, split_range, quick_loop,
  lc_quick_sort,
}
use practice_project.Sort.Quick.Correct.{lc_quick_sort-IsAsc}

abbrev mixed : List ℕ
mixed = 3 ∷ 1 ∷ 4 ∷ 1 ∷ 5 ∷ []

abbrev rising : List ℕ
rising = 1 ∷ 2 ∷ 9 ∷ []

lc_insert_sort-mixed : lc_insert_sort mixed 4 ≡ some (4 ∷ 3 ∷ 1 ∷ 1 ∷ 5 ∷ [])
unfolding make_room insert_one insert_rounds lc_insert_sort
lc_insert_sort-mixed = refl

lc_selection_sort-mixed : lc_selection_sort mixed 20 ≡ some (5 ∷ 4 ∷ 3 ∷ 1 ∷ 1 ∷ [])
unfolding find_greatest select_one select_rounds lc_selection_sort
lc_selection_sort-mixed = refl

lc_bubble_sort-rising : lc_bubble_sort rising 12 ≡ some (2 ∷ 9 ∷ 1 ∷ [])
unfolding bubble_step bubble_pass bubble_rounds lc_bubble_sort
lc_bubble_sort-rising = refl

lc_shell_sort-mixed : lc_shell_sort mixed 5 ≡ some (5 ∷ 4 ∷ 3 ∷ 1 ∷ 1 ∷ [])
unfolding shift_by gap_insert gap_pass gap_loop lc_shell_sort
lc_shell_sort-mixed = refl

lc_quick_sort-mixed : lc_quick_sort mixed 5 ≡ some (1 ∷ 1 ∷ 3 ∷ 4 ∷ 5 ∷ [])
unfolding swap_int scan_left scan_right partition_loop place_pivot push split_range quick_loop
    lc_quick_sort
lc_quick_sort-mixed = refl

lc_insert_sort-IsDesc_example :
    (b : List ℕ) × (lc_insert_sort mixed 4 ≡ some b) × (IsDesc b 0 4 × Rearranged mixed 4 b)
lc_insert_sort-IsDesc_example = lc_insert_sort-IsDesc mixed 4 (omega arith)

lc_bubble_sort-Settled_example :
    (b : List ℕ) × (lc_bubble_sort mixed 20 ≡ some b)
    × (Settled b 2 (20 / sizeof_int) × Rearranged mixed (20 / sizeof_int) b)
lc_bubble_sort-Settled_example = lc_bubble_sort-Settled mixed 20 (omega arith)

rising-GreatestAt : GreatestAt rising (12 / sizeof_int) (12 / sizeof_int - 1)
unfolding get!
rising-GreatestAt = record { within = omega arith; room = omega arith; greatest = below }
  where
    below : (p : ℕ) → p < 3 → p ≢ 2 → get! rising p < get! rising 2
    below zero h ne = omega arith
    below (suc zero) h ne = omega arith
    below (suc (suc p)) h ne = absurd (omega arith)

lc_bubble_sort-misses_example :
    (b : List ℕ) × (lc_bubble_sort rising 12 ≡ some b) × (get! b 0 < get! b 1)
lc_bubble_sort-misses_example = lc_bubble_sort-misses rising 12 (omega arith) rising-GreatestAt

lc_shell_sort-IsDesc_example :
    (b : List ℕ) × (lc_shell_sort mixed 5 ≡ some b) × (IsDesc b 0 5 × Rearranged mixed 5 b)
lc_shell_sort-IsDesc_example = lc_shell_sort-IsDesc mixed 5 (omega arith)

lc_quick_sort-IsAsc_example :
    (b : List ℕ) × (lc_quick_sort mixed 5 ≡ some b) × (IsAsc b 0 5 × Rearranged mixed 5 b)
lc_quick_sort-IsAsc_example = lc_quick_sort-IsAsc mixed 5 (omega arith) (omega arith)

desc_sorts_agree_example :
    (b : List ℕ) × (lc_insert_sort mixed (20 / sizeof_int) ≡ some b)
    × (lc_shell_sort mixed (20 / sizeof_int) ≡ some b)
    × (lc_selection_sort mixed 20 ≡ some b)
desc_sorts_agree_example = desc_sorts_agree mixed 20 (omega arith)
