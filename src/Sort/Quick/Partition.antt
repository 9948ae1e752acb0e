-- ===== src/Sort/Quick/Partition.antt =====
-- A range is split at its pivot: smaller elements before it, the others behind.
use practice_project.Prelude.{
  ℕ, zero, suc, ◌+◌, ◌-◌, ◌*◌, ◌≤◌, ◌<◌, ◌≡◌, List, some, arith, length, ltb, ltb→lt, ltb→le,
  Returns, returns, Returns-if, Returns-bind, if◌then◌else◌, ◌==◌,
}
use practice_project.Array.{get!, swap, load-ok, get!-swap}
use practice_project.Sort.Quick.{Range, swap_int, partition_loop, place_pivot}
use practice_project.Sort.Quick.Within.{Within, Within-refl, Within-trans, swap_int-ok, swap-Within}
use practice_project.Sort.Quick.Scan.{LeftStop, RightStop, scan_left-LeftStop, scan_right-RightStop}

-- In the loop: `a` is the array at the start, the pivot is still at `s`.
record Parting (s e : ℕ) (a b : List ℕ) (l r : ℕ) : Type 0 where
  low : s < l
  meet : l ≤ r
  high : r ≤ e
  moved : Within s e a b
  below : (q : ℕ) → s < q → q < l → get! b q < get! b s
  above : (q : ℕ) → r < q → q ≤ e → get! b s ≤ get! b q

-- 1 where the next round may leave `left` where it is.
abbrev slack : List ℕ → ℕ → ℕ → ℕ
slack b s l = if ltb (get! b l) (get! b s) then 0 else 1

-- The scans done, the two elements found change places.
record Round (s e : ℕ) (a b : List ℕ) (l r : ℕ) (l' r' : ℕ) (c : List ℕ) : Type 0 where
  parting : Parting s e a c l' r'
  shorter : 2 * (r' - l') + slack c s l' < 2 * (r - l) + slack b s l

Round-swap :
    (s e : ℕ) (a b : List ℕ) (l r l' r' : ℕ)
    → e < length b
    → l < r
    → Parting s e a b l r
    → LeftStop b s l r l'
    → RightStop b s l' r r'
    → l' < r'
    → Round s e a b l r l' r' (swap b l' r')
Round-swap s e a b l r l' r' he lt p u v found = record {
  parting = record {
    low = omega (arith, p.low, u.from);
    meet = omega arith;
    high = omega (arith, p.high, v.from);
    moved = Within-trans p.moved (
        swap-Within b l' r' inside inside' s e (omega (arith, p.low, u.from))
          (omega (arith, p.high, u.to)) (omega (arith, p.low, v.to, u.from))
          (omega (arith, p.high, v.from)));
    below =
        λ q lo hi. ground (arith, swapped q, swapped s, p.below q, u.passed q, p.low, u.from, v.to);
    above =
        λ q lo hi. ground (arith, swapped q, swapped s, p.above q, v.passed q, p.low, u.from, v.to);
  };
  shorter =
      ground
        (arith, swapped s, swapped l', u.passed l, u.stop, v.stop, p.low, u.from, u.to, v.from);
}
  where
    inside : l' < length b
    inside = omega (arith, u.to, p.high)

    inside' : r' < length b
    inside' = omega (arith, v.from, p.high)

    swapped :
        (q : ℕ)
        → get! (swap b l' r') q
          ≡ (if r' == q then get! b l' else if l' == q then get! b r' else get! b q)
    swapped = get!-swap b l' r' inside inside'

Round-met :
    (s e : ℕ) (a b : List ℕ) (l r l' r' : ℕ)
    → l < r
    → Parting s e a b l r
    → LeftStop b s l r l'
    → RightStop b s l' r r'
    → r' ≤ l'
    → Round s e a b l r l' r' b
Round-met s e a b l r l' r' lt p u v met = record {
  parting = record {
    low = omega (arith, p.low, u.from);
    meet = v.to;
    high = omega (arith, p.high, v.from);
    moved = p.moved;
    below = λ q lo hi. ground (arith, p.below q, u.passed q);
    above = λ q lo hi. ground (arith, p.above q, v.passed q);
  };
  shorter = ground (arith, u.passed l, u.stop, u.from, u.to, v.from);
}

partition_loop-Parting :
    (f s e : ℕ) (a b : List ℕ) (l r : ℕ)
    → 2 * (r - l) + slack b s l < f
    → e < length a
    → Parting s e a b l r
    → Returns (λ (c, m). Parting s e a c m m) (partition_loop f b s l r)
unfolding partition_loop
partition_loop-Parting zero s e a b l r fuel he p = absurd (omega arith)
partition_loop-Parting (suc f) s e a b l r fuel he p =
    Returns-if (ltb l r)
      (λ t.
        let lt : l < r = ltb→lt l r t in
        Returns-bind
          (scan_left-LeftStop (r - l + 1) b s l r (omega arith) p.meet (omega (arith, p.high))
            (omega (arith, p.low, p.meet, p.high)))
          λ l' u.
            Returns-bind
              (scan_right-RightStop (r - l' + 1) b s l' r (omega arith) u.to (omega (arith, p.high))
                (omega (arith, p.low, p.meet, p.high)))
              λ r' v. Returns-bind (exchange l' r' lt u v) λ c round.
                partition_loop-Parting f s e a c l' r' (omega (arith, round.shorter)) he
                  round.parting)
      (λ t. let same : r ≡ l = omega (arith, p.meet, ltb→le l r t) in returns (rw same at p))
  where
    he' : e < length b
    he' = omega (arith, p.moved.same_length)

    exchange :
        (l' r' : ℕ)
        → l < r
        → LeftStop b s l r l'
        → RightStop b s l' r r'
        → Returns (Round s e a b l r l' r') (if ltb l' r' then swap_int b l' r' else some b)
    exchange l' r' lt u v =
        Returns-if (ltb l' r')
          (λ t.
            rw (swap_int-ok b l' r' (omega (arith, u.to, p.high)) (omega (arith, v.from, p.high)))
              (returns (Round-swap s e a b l r l' r' he' lt p u v (ltb→lt l' r' t))))
          (λ t. returns (Round-met s e a b l r l' r' lt p u v (ltb→le l' r' t)))

-- The pivot is at `m`, with the smaller elements of the range before it and the others behind.
pub record Split (s e : ℕ) (a b : List ℕ) (m : ℕ) : Type 0 where
  pub low : s ≤ m
  pub high : m ≤ e
  pub moved : Within s e a b
  pub below : (q : ℕ) → s ≤ q → q < m → get! b q < get! b m
  pub above : (q : ℕ) → m < q → q ≤ e → get! b m ≤ get! b q

-- The pivot changes places with the last of the smaller elements.
Split-swap :
    (s e : ℕ) (a b : List ℕ) (m : ℕ)
    → e < length b
    → s ≤ m
    → m ≤ e
    → Within s e a b
    → ((q : ℕ) → s < q → q ≤ m → get! b q < get! b s)
    → ((q : ℕ) → m < q → q ≤ e → get! b s ≤ get! b q)
    → Split s e a (swap b m s) m
Split-swap s e a b m he lo hi moved below above = record {
  low = lo;
  high = hi;
  moved =
      Within-trans moved (swap-Within b m s inside inside' s e lo hi (omega arith) (omega arith));
  below = λ q lo' hi'. ground (arith, swapped q, swapped m, below q, below m);
  above = λ q lo' hi'. ground (arith, swapped q, swapped m, above q);
}
  where
    inside : m < length b
    inside = omega arith

    inside' : s < length b
    inside' = omega arith

    swapped :
        (q : ℕ)
        → get! (swap b m s) q ≡ (if s == q then get! b m else if m == q then get! b s else get! b q)
    swapped = get!-swap b m s inside inside'

pub place_pivot-Split :
    (a : List ℕ) (cur : Range)
    → cur.start < cur.end
    → cur.end < length a
    → Returns (λ (b, m). Split cur.start cur.end a b m) (place_pivot a cur)
unfolding place_pivot
place_pivot-Split a cur lt he =
    Returns-bind
      (partition_loop-Parting (2 * (cur.end - cur.start) + 2) cur.start cur.end a a (cur.start + 1)
        cur.end (ground arith) he start)
      λ (b, m) p.
        let he' : cur.end < length b = omega (arith, p.moved.same_length) in
        let inside : m < length b = omega (arith, p.high) in
        let inside' : cur.start < length b = omega arith in
        rw (load-ok b m inside, load-ok b cur.start inside')
          (Returns-if (ltb (get! b m) (get! b cur.start))
            (λ t. rw (swap_int-ok b m cur.start inside inside') (
              returns (
                Split-swap cur.start cur.end a b m he' (omega (arith, p.low)) p.high p.moved
                  (λ q lo hi. ground (arith, p.below q)) p.above)))
            (λ t. rw (swap_int-ok b (m - 1) cur.start (omega arith) inside') (
              returns (
                Split-swap cur.start cur.end a b (m - 1) he' (omega (arith, p.low))
                  (omega (arith, p.high)) p.moved (λ q lo hi. p.below q lo (omega (arith, p.low)))
                  (λ q lo hi. ground (arith, p.above q))))))
  where
    start : Parting cur.start cur.end a a (cur.start + 1) cur.end
    start = record {
      low = omega arith;
      meet = omega arith;
      high = omega arith;
      moved = Within-refl cur.start cur.end a;
      below = λ q lo hi. absurd (omega arith);
      above = λ q lo hi. absurd (omega arith);
    }
