-- ===== src/Sort/Quick/Within.antt =====
-- Rearranging the elements of one range.
use practice_project.Prelude.{ℕ, ◌≤◌, ◌<◌, ◌≡◌, refl, ◌∙◌, ◌⊎◌, inl, inr, List, some, arith, length}
use native.Mathlib.Decide.{dec_lt}
use practice_project.Array.{
  get!, SameItems, swap, load-ok, store-store, get!-swap, swap-SameItems, length-swap,
}
use practice_project.Sort.Quick.{swap_int}

-- `b` is `a` with the elements at `s ≤ q ≤ e` rearranged. A bound of those stays a bound.
pub record Within (s e : ℕ) (a b : List ℕ) : Type 0 where
  pub same_length : length b ≡ length a
  pub same_items : SameItems b a
  pub outside : (k : ℕ) → (k < s) ⊎ (e < k) → get! b k ≡ get! a k
  pub upper :
      (x : ℕ) → ((q : ℕ) → s ≤ q → q ≤ e → get! a q ≤ x) → (q : ℕ) → s ≤ q → q ≤ e → get! b q ≤ x
  pub lower :
      (x : ℕ) → ((q : ℕ) → s ≤ q → q ≤ e → x ≤ get! a q) → (q : ℕ) → s ≤ q → q ≤ e → x ≤ get! b q

pub Within-refl : (s e : ℕ) (a : List ℕ) → Within s e a a
Within-refl s e a = record {
  same_length = refl;
  same_items = λ v. refl;
  outside = λ k out. refl;
  upper = λ x h. h;
  lower = λ x h. h;
}

pub Within-trans : {s e : ℕ} {a b c : List ℕ} → Within s e a b → Within s e b c → Within s e a c
Within-trans v w = record {
  same_length = w.same_length ∙ v.same_length;
  same_items = λ x. w.same_items x ∙ v.same_items x;
  outside = λ k out. w.outside k out ∙ v.outside k out;
  upper = λ x h. w.upper x (v.upper x h);
  lower = λ x h. w.lower x (v.lower x h);
}

module _ (a : List ℕ) (i j : ℕ) (hi : i < length a) (hj : j < length a) where
  pub swap_int-ok : swap_int a i j ≡ some (swap a i j)
  unfolding swap_int
  swap_int-ok = rw (load-ok a i hi, load-ok a j hj) (store-store a i j hi hj)

  pub swap-Within : (s e : ℕ) → s ≤ i → i ≤ e → s ≤ j → j ≤ e → Within s e a (swap a i j)
  swap-Within s e si ie sj je = record {
    same_length = length-swap a i j;
    same_items = swap-SameItems a i j hi hj;
    outside = λ k out. ground (arith, get!-swap a i j hi hj k);
    upper = λ x h q lo up. ground (arith, get!-swap a i j hi hj q, h q, h i, h j);
    lower = λ x h q lo up. ground (arith, get!-swap a i j hi hj q, h q, h i, h j);
  }

-- Rearranging a part is rearranging the whole.
pub Within-widen :
    (s e s' e' : ℕ) (a b : List ℕ) → s' ≤ s → e ≤ e' → Within s e a b → Within s' e' a b
Within-widen s e s' e' a b ls le w = record {
  same_length = w.same_length;
  same_items = w.same_items;
  outside =
      λ k out. w.outside k (elim out [ inl h ↦ inl (omega arith) | inr h ↦ inr (omega arith) ]);
  upper = λ x h q lo hi.
      let inside = w.upper x (λ k lk hk. h k (omega arith) (omega arith)) q in
      elim (dec_lt q s) [
        | yes before ↦ rw (w.outside q (inl before)) (h q lo hi)
        | no away ↦ elim (dec_lt e q) [
          | yes behind ↦ rw (w.outside q (inr behind)) (h q lo hi)
          | no past ↦ inside (omega arith) (omega arith)
        ]
      ];
  lower = λ x h q lo hi.
      let inside = w.lower x (λ k lk hk. h k (omega arith) (omega arith)) q in
      elim (dec_lt q s) [
        | yes before ↦ rw (w.outside q (inl before)) (h q lo hi)
        | no away ↦ elim (dec_lt e q) [
          | yes behind ↦ rw (w.outside q (inr behind)) (h q lo hi)
          | no past ↦ inside (omega arith) (omega arith)
        ]
      ];
}
