-- ===== src/Sort/Shell/Passes.antt =====
-- A pass of `lc_shell_sort` rearranges; the pass with gap 1 is an insertion sort.
use practice_project.Prelude.{
  ℕ, zero, suc, ◌+◌, ◌-◌, ◌≤◌, ◌<◌, ◌≡◌, refl, List, some, arith, length, length-set, set, ltb,
  ltb→le, ◌==◌, if◌then◌else◌, Returns, returns, Returns-bind, Returns-if, Returns-mono, ap, false,
  ◌>>=◌,
}
use mathlib.Core.Path.{fun_ext}
use practice_project.Array.{store, get!, count, hit, load, load-ok, store-ok, get!-set, count-set}
use practice_project.Sort.Spec.{Rearranged, Rearranged-refl, Rearranged-trans}
use practice_project.Sort.Insertion.{make_room, insert_one, insert_rounds}
use practice_project.Sort.Shell.{shift_by, gap_insert, gap_pass}

-- While elements move up: `a` is the array at the start, `tmp` was at `i`, the hole is at `j`.
record GapRoom (a : List ℕ) (i tmp : ℕ) (b : List ℕ) (j : ℕ) : Type 0 where
  place : j ≤ i
  same_length : length b ≡ length a
  items : (v : ℕ) → count v b + hit v tmp ≡ count v a + hit v (get! b j)
  rest : (k : ℕ) → i < k → get! b k ≡ get! a k

shift_by-GapRoom :
    (f gap i tmp j : ℕ) (a b : List ℕ)
    → 0 < gap
    → j < f
    → i < length a
    → GapRoom a i tmp b j
    → Returns (λ (c, k). GapRoom a i tmp c k) (shift_by f gap b tmp j)
unfolding shift_by
shift_by-GapRoom zero gap i tmp j a b pos fuel hi r = absurd (omega arith)
shift_by-GapRoom (suc f) gap i tmp j a b pos fuel hi r =
    Returns-if (ltb j gap) (λ near. returns r)
      (λ far.
        let behind : j - gap < j = omega (arith, ltb→le j gap far) in
        rw (load-ok b (j - gap) (omega arith), store-ok b j (get! b (j - gap)) inside)
          (Returns-if (ltb (get! b (j - gap)) tmp)
            (λ lt.
              shift_by-GapRoom f gap i tmp (j - gap) a (set b j (get! b (j - gap))) pos
                (omega arith) hi
                (record {
                  place = omega (arith, r.place);
                  same_length = omega (arith, r.same_length, length-set b j (get! b (j - gap)));
                  items = λ v. ground (
                    arith,
                    r.items v,
                    written (j - gap),
                    count-set v b j (get! b (j - gap)) inside,
                  );
                  rest = λ k out. ground (arith, r.rest k, written k, r.place);
                }))
            (λ ge. returns r)))
  where
    inside : j < length b
    inside = omega (arith, r.place, r.same_length)

    written :
        (k : ℕ)
        → get! (set b j (get! b (j - gap))) k ≡ (if j == k then get! b (j - gap) else get! b k)
    written k = get!-set b j k (get! b (j - gap)) inside

gap_insert-Rearranged :
    (gap i n : ℕ) (a : List ℕ)
    → 0 < gap
    → i < n
    → n ≤ length a
    → Returns (Rearranged a n) (gap_insert gap a i)
unfolding gap_insert
gap_insert-Rearranged gap i n a pos hi h = rw (load-ok a i (omega arith)) (
    Returns-bind
      (shift_by-GapRoom (i + 1) gap i (get! a i) i a a pos (omega arith) (omega arith) (record {
        place = omega arith;
        same_length = refl;
        items = λ v. refl;
        rest = λ k out. refl;
      }))
      λ (c, k) r.
        let inside : k < length c = omega (arith, r.place, r.same_length) in
        rw (store-ok c k (get! a i) inside) (
          returns (record {
            same_length = omega (arith, r.same_length, length-set c k (get! a i));
            same_items = λ v. omega (arith, r.items v, count-set v c k (get! a i) inside);
            same_rest =
                λ q out. ground (arith, get!-set c k q (get! a i) inside, r.rest q, r.place);
          })))

pub gap_pass-Rearranged :
    (gap n i cnt : ℕ) (a : List ℕ)
    → 0 < gap
    → n + i ≡ cnt
    → cnt ≤ length a
    → Returns (Rearranged a cnt) (gap_pass gap n i a)
unfolding gap_pass
gap_pass-Rearranged gap zero i cnt a pos e h = returns (Rearranged-refl a cnt)
gap_pass-Rearranged gap (suc n) i cnt a pos e h =
    Returns-bind (gap_insert-Rearranged gap i cnt a pos (omega arith) h) λ b r.
      Returns-mono
        (gap_pass-Rearranged gap n (i + 1) cnt b pos (omega arith) (omega (arith, r.same_length)))
        λ c s. Rearranged-trans a b c cnt cnt (omega arith) r s

-- With gap 1 the inner loop is that of `lc_insert_sort`.
shift_by-one : (f tmp j : ℕ) (a : List ℕ) → j < f → shift_by f 1 a tmp j ≡ make_room a tmp j
unfolding shift_by make_room
shift_by-one zero tmp j a h = absurd (omega arith)
shift_by-one (suc f) tmp zero a h = refl
shift_by-one (suc f) tmp (suc j) a h =
    let here : suc j - 1 ≡ j = omega arith in
    let far : ltb (suc j) 1 ≡ false = ground arith in
    rw (far, here)
      (ap (λ k. load a j >>= k)
        (fun_ext λ x.
          ap (λ k. if ltb x tmp then (store a (suc j) x >>= k) else some (a, suc j))
            (fun_ext λ b. shift_by-one f tmp j b (omega arith))))

gap_insert-one : (i : ℕ) (a : List ℕ) → gap_insert 1 a i ≡ insert_one a i
unfolding gap_insert insert_one
gap_insert-one i a =
    ap (λ k. load a i >>= k)
      (fun_ext
        λ tmp. ap (λ m. m >>= λ (b, j). store b j tmp) (shift_by-one (i + 1) tmp i a (omega arith)))

pub gap_pass-one : (n i : ℕ) (a : List ℕ) → gap_pass 1 n i a ≡ insert_rounds n i a
unfolding gap_pass insert_rounds
gap_pass-one zero i a = refl
gap_pass-one (suc n) i a =
    rw (gap_insert-one i a) (ap (λ k. insert_one a i >>= k) (fun_ext λ b. gap_pass-one n (i + 1) b))
