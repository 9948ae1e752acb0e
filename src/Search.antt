-- ===== src/Search.antt =====
-- Linear search in a list of structs by a number that each of them has, as `list_for_each` with an
-- early exit does it, and the list as a map from these numbers.
use practice_project.Prelude.{
  ℕ, zero, suc, ◌≡◌, refl, List, [], ◌∷◌, Option, none, some, arith, ◌==◌, if◌then◌else◌, get_elem?,
  false,
}
use native.Mathlib.Decide.{ℕ_discrete}
use practice_project.ListApi.{remove_at}

-- One place further on.
abbrev pub next_place : Option ℕ → Option ℕ
next_place none = none
next_place (some i) = some (suc i)

module _ {A : Type 0} (key : A → ℕ) where
  -- The index of the first struct with the number.
  abbrev pub index_by : ℕ → List A → Option ℕ
  index_by n [] = none
  index_by n (c ∷ cs) =
      let rest = next_place (index_by n cs) in if key c == n then some zero else rest

  -- The first struct with the number.
  abbrev pub lookup_by : ℕ → List A → Option A
  lookup_by n [] = none
  lookup_by n (c ∷ cs) = let rest = lookup_by n cs in if key c == n then some c else rest

  -- The two ways a search ends.
  pub data Search (n : ℕ) (cs : List A) : Type 0 where
    missing : lookup_by n cs ≡ none → index_by n cs ≡ none → Search n cs
    found :
        (i : ℕ) (c : A)
        → lookup_by n cs ≡ some c
        → index_by n cs ≡ some i
        → get_elem? cs i ≡ some c
        → key c ≡ n
        → ((k : ℕ) → (n == k) ≡ false → lookup_by k (remove_at i cs) ≡ lookup_by k cs)
        → Search n cs

  pub index_by-Search : (n : ℕ) (cs : List A) → Search n cs
  index_by-Search n [] = missing refl refl
  index_by-Search n (c ∷ cs) = elim (ℕ_discrete (key c) n) [
    | yes same ↦ found zero c (ground arith) (ground arith) refl same (λ k ne. ground arith)
    | no other ↦ elim (index_by-Search n cs) [
      | missing e f ↦ missing (ground arith) (ground arith)
      | found i d e f g same removed ↦
          found (suc i) d (ground arith) (ground arith) g same
            (λ k ne. ground (arith, removed k ne))
    ]
  ]
