-- ===== src/Sort/Quick/Correct.antt =====
-- `lc_quick_sort` sorts upwards.
use practice_project.Prelude.{
  ℕ, zero, suc, ◌+◌, ◌-◌, ◌≤◌, ◌<◌, ◌≡◌, refl, ◌⊎◌, inl, inr, List, [], ◌∷◌, none, some, arith,
  length, leb, ltb, true, Bool-cases, Returns, returns, Returns-bind, Returns-mono, Returns-value,
}
use native.Mathlib.Decide.{dec_lt}
use practice_project.Array.{get! }
use practice_project.Sort.Spec.{IsAsc, Rearranged}
use practice_project.Sort.Quick.{Range, new_range, push, split_range, quick_loop, lc_quick_sort}
use practice_project.Sort.Quick.Within.{Within, Within-refl, Within-trans, Within-widen}
use practice_project.Sort.Quick.Partition.{Split, place_pivot-Split}
use practice_project.Sort.Quick.Stack.{
  Chain, Chain-mono, InOne, InOne-lt, waiting, push-LeftPushed, Pushed, push-Pushed,
}

-- Two elements out of order wait together in a range of the stack.
record Waits (cnt : ℕ) (a : List ℕ) (st : List Range) : Type 0 where
  room : cnt ≤ length a
  chain : Chain cnt st
  order : (i j : ℕ) → i < j → j < cnt → (get! a i ≤ get! a j) ⊎ InOne i j st

-- What the loop's body does for a range on top of `st`.
record SplitRange (cnt : ℕ) (cur : Range) (a : List ℕ) (st : List Range) (out : List ℕ × List Range)
    : Type 0 where
  waits : Waits cnt out.0 out.1
  moved : Within cur.start cur.end a out.0
  fewer : waiting out.1 < waiting (cur ∷ st)

-- Split at its pivot, a range leaves the order outside it alone.
module _ (cnt : ℕ) (cur : Range) (st : List Range) (a b : List ℕ) (m : ℕ) (st' : List Range)
    (w : Waits cnt a (cur ∷ st)) (p : Split cur.start cur.end a b m)
    (u : Pushed cur.start cur.end m cnt st st') where
  -- An element of the range and one behind it.
  order_behind :
      (i j : ℕ) → cur.start ≤ i → i ≤ cur.end → cur.end < j → j < cnt → get! b i ≤ get! b j
  order_behind i j lo hi out jc =
      rw (p.moved.outside j (inr out)) (p.moved.upper (get! a j) bound i lo hi)
    where
      bound : (q : ℕ) → cur.start ≤ q → q ≤ cur.end → get! a q ≤ get! a j
      bound q ql qh = elim (w.order q j (omega arith) jc) [
        | inl le ↦ le
        | inr (inl h) ↦ absurd (omega arith)
        | inr (inr h) ↦ absurd (omega (arith, w.chain, InOne-lt st cur.start q j w.chain.2 h))
      ]

  -- An element of the range and one before it.
  order_before : (i j : ℕ) → i < cur.start → cur.start ≤ j → j ≤ cur.end → get! b i ≤ get! b j
  order_before i j out lo hi =
      rw (p.moved.outside i (inl out)) (p.moved.lower (get! a i) bound j lo hi)
    where
      bound : (q : ℕ) → cur.start ≤ q → q ≤ cur.end → get! a i ≤ get! a q
      bound q ql qh = elim (w.order i q (omega arith) (omega (arith, w.chain.0))) [
        | inl le ↦ le
        | inr (inl h) ↦ absurd (omega arith)
        | inr (inr h) ↦ absurd (omega (arith, InOne-lt st cur.start i q w.chain.2 h))
      ]

  -- Two elements of the range.
  order_inside :
      (i j : ℕ) → i < j → cur.start ≤ i → j ≤ cur.end → (get! b i ≤ get! b j) ⊎ InOne i j st'
  order_inside i j ij lo hi = elim (dec_lt j m) [
    | yes before ↦ inr (u.left_part i j lo ij before)
    | no off ↦ elim (dec_lt m i) [
      | yes behind ↦ inr (u.right_part i j behind ij hi)
      | no away ↦ inl (ground (arith, p.below i, p.above j))
    ]
  ]

  -- Two elements outside it.
  order_outside :
      (i j : ℕ)
      → i < j
      → j < cnt
      → (i < cur.start) ⊎ (cur.end < i)
      → (j < cur.start) ⊎ (cur.end < j)
      → (get! b i ≤ get! b j) ⊎ InOne i j st'
  order_outside i j ij jc oi oj =
      rw (p.moved.outside i oi, p.moved.outside j oj)
        (elim (w.order i j ij jc) [
          | inl le ↦ inl le
          | inr (inl h) ↦ absurd (omega arith)
          | inr (inr h) ↦ inr (u.kept i j h)
        ])

  order_split : (i j : ℕ) → i < j → j < cnt → (get! b i ≤ get! b j) ⊎ InOne i j st'
  order_split i j ij jc = elim (dec_lt i cur.start) [
    | yes i_before ↦ elim (dec_lt j cur.start) [
      | yes j_before ↦ order_outside i j ij jc (inl i_before) (inl j_before)
      | no away ↦ elim (dec_lt cur.end j) [
        | yes j_behind ↦ order_outside i j ij jc (inl i_before) (inr j_behind)
        | no past ↦ inl (order_before i j i_before (omega arith) (omega arith))
      ]
    ]
    | no off ↦ elim (dec_lt cur.end i) [
      | yes i_behind ↦ order_outside i j ij jc (inr i_behind) (inr (omega arith))
      | no away ↦ elim (dec_lt cur.end j) [
        | yes j_behind ↦ inl (order_behind i j (omega arith) (omega arith) j_behind jc)
        | no past ↦ order_inside i j ij (omega arith) (omega arith)
      ]
    ]
  ]

split_range-SplitRange :
    (cnt : ℕ) (cur : Range) (st : List Range) (a : List ℕ)
    → cur.start < cur.end
    → Waits cnt a (cur ∷ st)
    → Returns (SplitRange cnt cur a st) (split_range cnt cur st a)
unfolding split_range
split_range-SplitRange cnt cur st a lt w =
    Returns-bind (place_pivot-Split a cur lt (omega (arith, w.room, w.chain.0))) λ (b, m) p.
      Returns-bind
        (push-LeftPushed cnt cur.start m st (omega (arith, p.high, w.chain.0)) p.low w.chain.2)
        λ st1 l.
          Returns-bind
            (push-Pushed cnt cnt cur.start cur.end m st st1 (omega arith) w.chain.0 p.low p.high l)
            λ st2 u. returns (record {
              waits = record {
                room = omega (arith, w.room, p.moved.same_length);
                chain = u.chain;
                order = order_split cnt cur st a b m st2 w p u;
              };
              moved = p.moved;
              fewer = u.fewer;
            })

quick_loop-IsAsc :
    (f cnt : ℕ) (st : List Range) (a : List ℕ)
    → waiting st < f
    → Waits cnt a st
    → Returns (λ b. IsAsc b 0 cnt × Within 0 (cnt - 1) a b) (quick_loop f cnt st a)
unfolding quick_loop
quick_loop-IsAsc zero cnt st a fuel w = absurd (omega arith)
quick_loop-IsAsc (suc f) cnt [] a fuel w = returns (
  λ i j lo ij jc. elim (w.order i j ij jc) [ inl le ↦ le | inr empty ↦ absurd empty ],
  Within-refl 0 (cnt - 1) a,
)
quick_loop-IsAsc (suc f) cnt (cur ∷ st) a fuel w = elim (Bool-cases (leb cur.end cur.start)) [
  | inl t ↦
      let one : cur.end ≤ cur.start = ground arith in
      rw (t, quick_loop)
        (quick_loop-IsAsc f cnt st a (omega arith) (record {
          room = w.room;
          chain = Chain-mono st cur.start cnt (omega (arith, w.chain.0, w.chain.1)) w.chain.2;
          order = λ i j ij jc. elim (w.order i j ij jc) [
            | inl le ↦ inl le
            | inr (inl h) ↦ absurd (omega arith)
            | inr (inr h) ↦ inr h
          ];
        }))
  | inr t ↦
      let more : cur.start < cur.end = ground arith in
      rw (t, quick_loop)
        (Returns-bind (split_range-SplitRange cnt cur st a more w) λ (b, st') s.
          Returns-mono (quick_loop-IsAsc f cnt st' b (omega (arith, s.fewer)) s.waits)
            λ c (sorted, v). (
              sorted,
              Within-trans
                  (Within-widen cur.start cur.end 0 (cnt - 1) a b (omega arith)
                    (omega (arith, w.chain.0)) s.moved)
                  v,
            ))
]

-- For every array of at least `cnt` elements, `cnt` positive, `lc_quick_sort` stays in bounds of
-- the array and of its stack, and returns: the first `cnt` elements are sorted from the least to
-- the greatest, they are the same elements as before, each as often, and every element from `cnt`
-- on is unchanged.
pub lc_quick_sort-IsAsc :
    (a : List ℕ) (cnt : ℕ)
    → 0 < cnt
    → cnt ≤ length a
    → (b : List ℕ) × (lc_quick_sort a cnt ≡ some b) × (IsAsc b 0 cnt × Rearranged a cnt b)
unfolding lc_quick_sort push
lc_quick_sort-IsAsc a (suc n) pos h = rw first (
    Returns-value (
      Returns-mono
        (quick_loop-IsAsc (suc n + 1) (suc n) (new_range 0 (suc n - 1) ∷ []) a (omega arith)
          (record {
            room = h;
            chain = (omega arith, omega arith, tt);
            order = λ i j ij jc. inr (inl (omega arith, omega arith));
          }))
        λ b (sorted, w). (
          sorted,
          record {
            same_length = w.same_length;
            same_items = w.same_items;
            same_rest = λ k out. w.outside k (inr (omega arith));
          },
        )))
  where
    first : ltb 0 (suc n) ≡ true
    first = ground arith
lc_quick_sort-IsAsc a zero pos h = absurd (omega arith)

-- With a count of 0 the first push is past the end of the stack's array, whatever the array.
pub lc_quick_sort-zero : (a : List ℕ) → lc_quick_sort a 0 ≡ none
unfolding lc_quick_sort push
lc_quick_sort-zero a = refl
