-- ===== src/Sort/Insertion/Inner.antt =====
-- One round of insertion: `tmp` finds its place in the sorted part before it.
use practice_project.Prelude.{
  ℕ, zero, suc, ◌+◌, ◌≤◌, ◌<◌, ◌≡◌, refl, List, arith, length, length-set, set, ltb, ltb→lt, ltb→le,
  ◌≢◌, ◌==◌, if◌then◌else◌, Returns, returns, Returns-bind, Returns-if,
}
use practice_project.Array.{get!, count, hit, load-ok, store-ok, get!-set, count-set}
use practice_project.Sort.Spec.{IsDesc, Rearranged}
use practice_project.Sort.Insertion.{make_room, insert_one}

-- After moving up, from `b` with its hole at `j`: `a` is the array at the start, `tmp` was at `i`.
pub record Room (a : List ℕ) (i tmp : ℕ) (b : List ℕ) (j : ℕ) : Type 0 where
  pub place : j ≤ i
  pub same_length : length b ≡ length a
  pub items : (v : ℕ) → count v b + hit v tmp ≡ count v a + hit v (get! b j)
  pub rest : (k : ℕ) → i < k → get! b k ≡ get! a k
  pub others : (p q : ℕ) → p < q → q ≤ i → p ≢ j → q ≢ j → get! b q ≤ get! b p
  pub smaller : (q : ℕ) → j < q → q ≤ i → get! b q < tmp

-- The hole has found the place of `tmp`.
abbrev pub Fits : ℕ → List ℕ × ℕ → Type 0
Fits tmp (b, j) = (p : ℕ) → p < j → tmp ≤ get! b p

Room-step :
    (a : List ℕ) (i tmp : ℕ) (b : List ℕ) (j : ℕ)
    → i < length a
    → Room a i tmp b (suc j)
    → get! b j < tmp
    → Room a i tmp (set b (suc j) (get! b j)) j
Room-step a i tmp b j hi r lt = record {
  place = omega (arith, r.place);
  same_length = omega (arith, r.same_length, length-set b (suc j) (get! b j));
  items = λ v. ground (arith, r.items v, written j, count-set v b (suc j) (get! b j) inside);
  rest = λ k out. ground (arith, r.rest k, written k);
  others = λ p q lt' le np nq.
      ground (arith, written p, written q, r.others p q, r.others j q, r.others p j);
  smaller = λ q above le. ground (arith, written q, r.smaller q);
}
  where
    inside : suc j < length b
    inside = omega (arith, r.place, r.same_length)

    written :
        (k : ℕ) → get! (set b (suc j) (get! b j)) k ≡ (if suc j == k then get! b j else get! b k)
    written k = get!-set b (suc j) k (get! b j) inside

-- The inner loop stays in bounds, keeps `Room`, and stops where `tmp` fits.
pub make_room-Room :
    (a : List ℕ) (i tmp : ℕ) (b : List ℕ) (j : ℕ)
    → i < length a
    → Room a i tmp b j
    → Returns (λ (c, k). Room a i tmp c k × Fits tmp (c, k)) (make_room b tmp j)
unfolding make_room
make_room-Room a i tmp b zero hi r = returns (r, λ p h. absurd (omega arith))
make_room-Room a i tmp b (suc j) hi r =
    rw (load-ok b j inside, store-ok b (suc j) (get! b j) inside')
      (Returns-if (ltb (get! b j) tmp)
        (λ lt.
          make_room-Room a i tmp (set b (suc j) (get! b j)) j hi
            (Room-step a i tmp b j hi r (ltb→lt _ _ lt)))
        (λ ge. returns (r, λ p h. fits (ltb→le _ _ ge) p h)))
  where
    inside' : suc j < length b
    inside' = omega (arith, r.place, r.same_length)

    inside : j < length b
    inside = omega arith

    fits : tmp ≤ get! b j → (p : ℕ) → p < suc j → tmp ≤ get! b p
    fits ge p h = ground (arith, r.others p j, r.place)

-- A round keeps the part before it sorted, and grows it by one.
pub insert_one-IsDesc :
    (a : List ℕ) (i : ℕ)
    → i < length a
    → IsDesc a 0 i
    → Returns (λ b. IsDesc b 0 (suc i) × Rearranged a (suc i) b) (insert_one a i)
unfolding insert_one
insert_one-IsDesc a i hi sorted = rw (load-ok a i hi) (
    Returns-bind (make_room-Room a i (get! a i) a i hi start) λ (c, k) (r, fits).
      let inside : k < length c = omega (arith, r.place, r.same_length) in
      let written = λ (q : ℕ). get!-set c k q (get! a i) inside in
      rw (store-ok c k (get! a i) inside) (
        returns (
          λ p q low lt le. ground (arith, written p, written q, r.others p q, fits p, r.smaller q),
          record {
            same_length = omega (arith, r.same_length, length-set c k (get! a i));
            same_items = λ v. omega (arith, r.items v, count-set v c k (get! a i) inside);
            same_rest = λ q out. ground (arith, written q, r.rest q, r.place);
          },
        )))
  where
    start : Room a i (get! a i) a i
    start = record {
      place = omega arith;
      same_length = refl;
      items = λ v. refl;
      rest = λ k h. refl;
      others = λ p q lt le np nq. ground (arith, sorted p q);
      smaller = λ q h le. absurd (omega arith);
    }
