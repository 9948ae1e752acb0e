-- ===== src/Array.antt =====
-- `int` arrays. Elements are only compared and moved, so an `int` x stands here as the number
-- x + 2 ^ 31, which keeps `<`, `>` and `==`. A load or store out of bounds is a fault.
use practice_project.Prelude.{
  ℕ, zero, suc, ◌+◌, ◌<◌, ◌≡◌, refl, List, [], ◌∷◌, Option, none, some, arith, ltb, ◌==◌,
  if◌then◌else◌, length, get_elem?, set, lt→ltb, length-set, ◌>>=◌,
}

-- `sizeof(a[0])`.
abbrev pub sizeof_int : ℕ
sizeof_int = 4

-- `a[i]` read.
abbrev pub load : List ℕ → ℕ → Option ℕ
load a i = get_elem? a i

-- `a[i] = v`.
abbrev pub store : List ℕ → ℕ → ℕ → Option (List ℕ)
store a i v = if ltb i (length a) then some (set a i v) else none

-- The element at an index, 0 outside.
unfoldable pub get! : List ℕ → ℕ → ℕ
get! [] i = 0
get! (x ∷ xs) zero = x
get! (x ∷ xs) (suc i) = get! xs i

-- 1 where the two are equal.
abbrev pub hit : ℕ → ℕ → ℕ
hit v x = if x == v then 1 else 0

-- How often `v` stands in an array.
unfoldable pub count : ℕ → List ℕ → ℕ
count v [] = 0
count v (x ∷ xs) = hit v x + count v xs

-- Two arrays hold the same elements, each as often.
abbrev pub SameItems : List ℕ → List ℕ → Type 0
SameItems xs ys = (v : ℕ) → count v xs ≡ count v ys

pub load-ok : (a : List ℕ) (i : ℕ) → i < length a → load a i ≡ some (get! a i)
unfolding get!
load-ok [] i h = absurd (omega arith)
load-ok (x ∷ a) zero h = refl
load-ok (x ∷ a) (suc i) h = load-ok a i (omega arith)

pub store-ok : (a : List ℕ) (i v : ℕ) → i < length a → store a i v ≡ some (set a i v)
store-ok a i v h = ground (arith, lt→ltb i (length a))

pub get!-set :
    (xs : List ℕ) (k l w : ℕ)
    → k < length xs
    → get! (set xs k w) l ≡ (if k == l then w else get! xs l)
unfolding get!
get!-set [] k l w inside = absurd (omega arith)
get!-set (x ∷ xs) (suc k) (suc l) w inside = ground (arith, get!-set xs k l w)
get!-set (x ∷ xs) zero zero w inside = refl
get!-set (x ∷ xs) (suc k) zero w inside = ground arith
get!-set (x ∷ xs) zero (suc l) w inside = ground arith

-- A write trades the old element for the new one.
pub count-set :
    (w : ℕ) (a : List ℕ) (i v : ℕ)
    → i < length a
    → count w (set a i v) + hit w (get! a i) ≡ count w a + hit w v
unfolding get! count
count-set w [] i v h = absurd (omega arith)
count-set w (x ∷ a) zero v h = omega arith
count-set w (x ∷ a) (suc i) v h = omega (arith, count-set w a i v)

-- The array with two elements exchanged.
abbrev pub swap : List ℕ → ℕ → ℕ → List ℕ
swap a i j = set (set a i (get! a j)) j (get! a i)

module _ (a : List ℕ) (i j : ℕ) (hi : i < length a) (hj : j < length a) where
  pub get!-swap :
      (k : ℕ)
      → get! (swap a i j) k ≡ (if j == k then get! a i else if i == k then get! a j else get! a k)
  get!-swap k = rw (
    get!-set (set a i (get! a j)) j k (get! a i) (rw length-set hj),
    get!-set a i k (get! a j) hi,
  )

  pub swap-SameItems : SameItems (swap a i j) a
  swap-SameItems v = ground (
    arith,
    count-set v a i (get! a j) hi,
    count-set v (set a i (get! a j)) j (get! a i) (rw length-set hj),
    get!-set a i j (get! a j) hi,
  )

  -- `x = a[i]; y = a[j]; a[i] = y; a[j] = x;`
  pub store-store : (store a i (get! a j) >>= λ b. store b j (get! a i)) ≡ some (swap a i j)
  store-store =
      rw (store-ok a i (get! a j) hi)
        (store-ok (set a i (get! a j)) j (get! a i) (rw length-set hj))

pub length-swap : (a : List ℕ) (i j : ℕ) → length (swap a i j) ≡ length a
length-swap a i j = simp length-set
