-- ===== src/Sort/Spec.antt =====
-- What a sort promises of its array.
use practice_project.Prelude.{ℕ, ◌≤◌, ◌<◌, ◌≡◌, refl, ◌∙◌, List, length, arith}
use practice_project.Array.{get!, SameItems}

-- The elements at `lo ≤ i < hi` do not increase.
abbrev pub IsDesc : List ℕ → ℕ → ℕ → Type 0
IsDesc a lo hi = (i j : ℕ) → lo ≤ i → i < j → j < hi → get! a j ≤ get! a i

-- The elements at `lo ≤ i < hi` do not decrease.
abbrev pub IsAsc : List ℕ → ℕ → ℕ → Type 0
IsAsc a lo hi = (i j : ℕ) → lo ≤ i → i < j → j < hi → get! a i ≤ get! a j

-- `b` is `a` with the elements before `n` rearranged.
pub record Rearranged (a : List ℕ) (n : ℕ) (b : List ℕ) : Type 0 where
  pub same_length : length b ≡ length a
  pub same_items : SameItems b a
  pub same_rest : (k : ℕ) → n ≤ k → get! b k ≡ get! a k

pub Rearranged-refl : (a : List ℕ) (n : ℕ) → Rearranged a n a
Rearranged-refl a n = record { same_length = refl; same_items = λ v. refl; same_rest = λ k h. refl }

pub Rearranged-trans :
    (a b c : List ℕ) (n m : ℕ) → n ≤ m → Rearranged a n b → Rearranged b m c → Rearranged a m c
Rearranged-trans a b c n m le r s = record {
  same_length = s.same_length ∙ r.same_length;
  same_items = λ v. s.same_items v ∙ r.same_items v;
  same_rest = λ k h. s.same_rest k h ∙ r.same_rest k (omega arith);
}
