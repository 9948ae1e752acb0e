-- ===== src/SockServer/Database/Rows.antt =====
-- Searches in the rows of the table, and what the statements make of them.
use practice_project.Prelude.{
  ℕ, ◌≡◌, ◌≢◌, refl, ap, sym, ◌∙◌, ◌⊎◌, List, [], ◌∷◌, ◌++◌, Option, none, some, Bool, true, false,
  arith, ◌==◌, if◌then◌else◌, Bool-cases, inl, inr,
}
use mathlib.Core.Option.{some-injective}
use native.Mathlib.Decide.{ℕ_discrete}
use practice_project.Search.{lookup_by}
use practice_project.SqlApi.{Row, keep_unless, replace_at}
use practice_project.SockServer.Database.{
  SocketHandle, unset, tcp_link, udp_link, row_handle, select_result_handler, select_rows,
}

abbrev pub find_row : ℕ → List Row → Option Row
find_row = lookup_by Row.endid

pub find_row-append :
    (k : ℕ) (rs : List Row) (r : Row)
    → find_row r.endid rs ≡ none
    → find_row k (rs ++ r ∷ []) ≡ (if r.endid == k then some r else find_row k rs)
find_row-append k [] r absent = refl
find_row-append k (x ∷ rs) r absent = ground (arith, find_row-append k rs r)

find_row-replace_ne :
    (e k : ℕ) (rs : List Row) (new : Row)
    → e ≢ k
    → new.endid ≡ e
    → find_row k (replace_at e new rs) ≡ find_row k rs
find_row-replace_ne e k [] new ne same = refl
find_row-replace_ne e k (x ∷ rs) new ne same = elim (ℕ_discrete x.endid e) [
  | yes here ↦ ground (arith, find_row-replace_ne e k rs new ne same)
  | no other ↦ ground (arith, find_row-replace_ne e k rs new ne same)
]

find_row-replace_self :
    (e : ℕ) (rs : List Row) (old new : Row)
    → find_row e rs ≡ some old
    → new.endid ≡ e
    → find_row e (replace_at e new rs) ≡ some new
find_row-replace_self e [] old new known same = absurd (ground arith)
find_row-replace_self e (x ∷ rs) old new known same = elim (ℕ_discrete x.endid e) [
  | yes here ↦ ground arith
  | no other ↦ ground (arith, find_row-replace_self e rs old new)
]

pub find_row-replace_at :
    (e k : ℕ) (rs : List Row) (old new : Row)
    → find_row e rs ≡ some old
    → new.endid ≡ e
    → find_row k (replace_at e new rs) ≡ (if e == k then some new else find_row k rs)
find_row-replace_at e k rs old new known same = elim (ℕ_discrete e k) [
  | yes here ↦ ground (arith, find_row-replace_self e rs old new known same)
  | no other ↦ ground (arith, find_row-replace_ne e k rs new other same)
]

-- DELETE leaves a row that the condition does not hold of.
pub find_row-keep_unless :
    (p : Row → Bool) (k : ℕ) (rs : List Row) (r : Row)
    → find_row k rs ≡ some r
    → p r ≡ false
    → find_row k (keep_unless p rs) ≡ some r
find_row-keep_unless p k [] r known other = absurd (ground arith)
find_row-keep_unless p k (x ∷ rs) r known other = elim (ℕ_discrete x.endid k) [
  | yes here ↦
      let first : x ≡ r = some-injective x r (ground arith) in
      let kept : p x ≡ false = rw first other in rw kept (ground arith)
  | no ne ↦ elim (Bool-cases (p x)) [
    | inl goes ↦ rw goes (find_row-keep_unless p k rs r (ground arith) other)
    | inr stays ↦ rw stays (ground (arith, find_row-keep_unless p k rs r))
  ]
]

-- The condition holds of no row that DELETE leaves.
pub find_row-kept :
    (p : Row → Bool) (k : ℕ) (rs : List Row) (r : Row)
    → find_row k (keep_unless p rs) ≡ some r
    → p r ≡ false
find_row-kept p k [] r there = absurd (ground arith)
find_row-kept p k (x ∷ rs) r there = elim (Bool-cases (p x)) [
  | inl goes ↦ find_row-kept p k rs r (rw goes at there)
  | inr stays ↦
      let rest : find_row k (x ∷ keep_unless p rs) ≡ some r = rw stays at there in
      elim (ℕ_discrete x.endid k) [
        | yes here ↦ rw (some-injective x r (ground arith)) at stays
        | no other ↦ find_row-kept p k rs r (ground arith)
      ]
]

-- A handle that is set stays.
select_rows-set :
    (e : ℕ) (rs : List Row) (h : SocketHandle) → h ≢ unset → select_rows e rs h ≡ some h
unfolding select_rows select_result_handler
select_rows-set e [] h set = refl
select_rows-set e (r ∷ rs) unset set = absurd (set refl)
select_rows-set e (r ∷ rs) (tcp_link fd) set =
    ground (arith, select_rows-set e rs (tcp_link fd) set)
select_rows-set e (r ∷ rs) (udp_link a p) set =
    ground (arith, select_rows-set e rs (udp_link a p) set)

-- The first row of the end decides, if it gives a link.
pub select_rows-find_row :
    (e : ℕ) (rs : List Row) (r : Row) (h : SocketHandle)
    → find_row e rs ≡ some r
    → row_handle r ≡ some h
    → h ≢ unset
    → select_rows e rs unset ≡ some h
unfolding select_rows select_result_handler
select_rows-find_row e [] r h known gives set = absurd (ground arith)
select_rows-find_row e (x ∷ rs) r h known gives set = elim (ℕ_discrete x.endid e) [
  | yes here ↦
      let first : x ≡ r = some-injective x r (ground arith) in
      let at : (x.endid == e) ≡ true = ground arith in
      rw (at, first, gives) (select_rows-set e rs h set)
  | no other ↦ ground (arith, select_rows-find_row e rs r h)
]

pub row_cases : (o : Option Row) → (o ≡ none) ⊎ ((r : Row) × (o ≡ some r))
row_cases none = inl refl
row_cases (some r) = inr (r, refl)

pub find_row-endid : (e : ℕ) (rs : List Row) (r : Row) → find_row e rs ≡ some r → r.endid ≡ e
find_row-endid e [] r known = absurd (ground arith)
find_row-endid e (x ∷ rs) r known = elim (ℕ_discrete x.endid e) [
  | yes here ↦ ap Row.endid (sym (some-injective x r (ground arith))) ∙ here
  | no other ↦ ground (arith, find_row-endid e rs r)
]
