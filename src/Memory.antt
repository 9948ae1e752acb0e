-- ===== src/Memory.antt =====
-- Blocks of bytes and `memcpy`, byte by byte. A copy past the end of a block is a fault.
use practice_project.Prelude.{
  ℕ, zero, suc, ◌+◌, ◌≤◌, ◌<◌, ◌≡◌, refl, ap, ◌⊎◌, List, [], ◌∷◌, Option, none, some, ◌>>=◌, arith,
  length, length-set, set, replicate, Returns, returns, Returns-mono, Returns-value, ◌∙◌, sym,
}
use mathlib.Core.Path.{ap₂, subst}
use native.Mathlib.Numerals.{add-one}
use native.Mathlib.Decide.{dec_lt}
use practice_project.Array.{load, store, get!, load-ok, store-ok, get!-set}

-- The `n` bytes of `m` from `off` on.
unfoldable pub read_bytes : List ℕ → ℕ → ℕ → Option (List ℕ)
read_bytes m off zero = some []
read_bytes m off (suc n) = do x ← load m off; xs ← read_bytes m (off + 1) n; some (x ∷ xs)

-- `m` with the bytes `xs` from `off` on.
unfoldable pub write_bytes : List ℕ → ℕ → List ℕ → Option (List ℕ)
write_bytes m off [] = some m
write_bytes m off (x ∷ xs) = do b ← store m off x; write_bytes b (off + 1) xs

-- `memcpy(to + to_off, from + from_off, n)`.
unfoldable pub memcpy : List ℕ → ℕ → List ℕ → ℕ → ℕ → Option (List ℕ)
memcpy to to_off from from_off n = do xs ← read_bytes from from_off n; write_bytes to to_off xs

-- The bytes that a read in bounds gives.
abbrev pub bytes_at : List ℕ → ℕ → ℕ → List ℕ
bytes_at m off zero = []
bytes_at m off (suc n) = get! m off ∷ bytes_at m (off + 1) n

pub read_bytes-ok :
    (m : List ℕ) (off n : ℕ) → off + n ≤ length m → read_bytes m off n ≡ some (bytes_at m off n)
unfolding read_bytes
read_bytes-ok m off zero h = refl
read_bytes-ok m off (suc n) h =
    rw (load-ok m off (omega arith), read_bytes-ok m (off + 1) n (omega arith))

pub read_bytes-overrun :
    (m : List ℕ) (off n : ℕ) → length m < off + n → off ≤ length m → read_bytes m off n ≡ none
unfolding read_bytes
read_bytes-overrun m off zero h le = absurd (omega arith)
read_bytes-overrun m off (suc n) h le = elim (dec_lt off (length m)) [
  | yes lt ↦ rw (load-ok m off lt, read_bytes-overrun m (off + 1) n (omega arith) (omega arith))
  | no ge ↦ rw (load_past m off (omega arith))
]
  where
    load_past : (m : List ℕ) (i : ℕ) → length m ≤ i → load m i ≡ none
    load_past [] i h = refl
    load_past (x ∷ m) zero h = absurd (omega arith)
    load_past (x ∷ m) (suc i) h = load_past m i (omega arith)

pub length-bytes_at : (m : List ℕ) (off n : ℕ) → length (bytes_at m off n) ≡ n
length-bytes_at m off zero = refl
length-bytes_at m off (suc n) = ap suc (length-bytes_at m (off + 1) n)

-- What a write in bounds leaves: the bytes written, and the others as they were.
pub record Written (m : List ℕ) (off : ℕ) (xs : List ℕ) (b : List ℕ) : Type 0 where
  pub same_length : length b ≡ length m
  pub there : bytes_at b off (length xs) ≡ xs
  pub others : (k : ℕ) → (k < off) ⊎ (off + length xs ≤ k) → get! b k ≡ get! m k

pub write_bytes-Written :
    (xs : List ℕ) (m : List ℕ) (off : ℕ)
    → off + length xs ≤ length m
    → Returns (Written m off xs) (write_bytes m off xs)
unfolding write_bytes
write_bytes-Written [] m off h =
    returns (record { same_length = refl; there = refl; others = λ k out. refl })
write_bytes-Written (x ∷ xs) m off h = rw (store-ok m off x (omega arith)) (
    Returns-mono
      (write_bytes-Written xs (set m off x) (off + 1) (omega (arith, length-set m off x)))
      λ b w. record {
        same_length = omega (arith, w.same_length, length-set m off x);
        there = ap₂ ◌∷◌ (ground (arith, w.others off, get!-set m off off x (omega arith))) w.there;
        others = λ k out. ground (arith, w.others k, get!-set m off k x (omega arith));
      })

-- One of the bytes of a read.
pub get!-bytes_at :
    (m : List ℕ) (off n i : ℕ) → i < n → get! (bytes_at m off n) i ≡ get! m (off + i)
unfolding get!
get!-bytes_at m off zero i h = absurd (omega arith)
get!-bytes_at m off (suc n) zero h = ap (get! m) (omega arith)
get!-bytes_at m off (suc n) (suc i) h =
    get!-bytes_at m (off + 1) n i (omega arith) ∙ ap (get! m) (omega arith)

pub get!-replicate : (n v i : ℕ) → i < n → get! (replicate n v) i ≡ v
unfolding get!
get!-replicate zero v i h = absurd (omega arith)
get!-replicate (suc n) v zero h = refl
get!-replicate (suc n) v (suc i) h = get!-replicate n v i (omega arith)

-- Blocks that agree on a stretch read alike there.
pub bytes_at-same :
    (b m : List ℕ) (off n : ℕ)
    → ((k : ℕ) → off ≤ k → k < off + n → get! b k ≡ get! m k)
    → bytes_at b off n ≡ bytes_at m off n
bytes_at-same b m off zero same = refl
bytes_at-same b m off (suc n) same =
    ap₂ ◌∷◌ (same off (omega arith) (omega arith))
      (bytes_at-same b m (off + 1) n λ k lo hi. same k (omega arith) (omega arith))

-- A copy in bounds: the target holds the source's bytes there, and keeps the others.
pub memcpy-Written :
    (to : List ℕ) (to_off : ℕ) (from : List ℕ) (from_off n : ℕ)
    → to_off + n ≤ length to
    → from_off + n ≤ length from
    → Returns (Written to to_off (bytes_at from from_off n)) (memcpy to to_off from from_off n)
unfolding memcpy
memcpy-Written to to_off from from_off n ht hf = rw (read_bytes-ok from from_off n hf) (
    write_bytes-Written (bytes_at from from_off n) to to_off
      (omega (arith, length-bytes_at from from_off n)))

-- A block is its bytes.
bytes_at-cons : (x : ℕ) (m : List ℕ) (off n : ℕ) → bytes_at (x ∷ m) (off + 1) n ≡ bytes_at m off n
unfolding get!
bytes_at-cons x m off zero = refl
bytes_at-cons x m off (suc n) =
    let here : get! (x ∷ m) (off + 1) ≡ get! m off = rw add-one in
    ap₂ ◌∷◌ here (bytes_at-cons x m (off + 1) n)

pub bytes_at_self : (m : List ℕ) → bytes_at m 0 (length m) ≡ m
unfolding get!
bytes_at_self [] = refl
bytes_at_self (x ∷ m) = ap (◌∷◌ x) (bytes_at-cons x m 0 (length m) ∙ bytes_at_self m)

-- A copy over a whole block.
pub memcpy_whole :
    (to from : List ℕ)
    → length to ≤ length from
    → memcpy to 0 from 0 (length to) ≡ some (bytes_at from 0 (length to))
memcpy_whole to from h =
    let (b, e, w) =
      Returns-value (memcpy-Written to 0 from 0 (length to) (omega arith) (omega arith)) in
    let size : length (bytes_at from 0 (length to)) ≡ length b =
      length-bytes_at from 0 (length to) ∙ sym w.same_length in
    e
    ∙ ap some (
        sym (bytes_at_self b)
        ∙ subst (λ n. bytes_at b 0 n ≡ bytes_at from 0 (length to)) size w.there)

-- A write over a whole block.
pub write_bytes_whole : (xs m : List ℕ) → length xs ≡ length m → write_bytes m 0 xs ≡ some xs
write_bytes_whole xs m size =
    let (b, e, w) = Returns-value (write_bytes-Written xs m 0 (omega arith)) in
    let same : length xs ≡ length b = size ∙ sym w.same_length in
    e ∙ ap some (sym (bytes_at_self b) ∙ subst (λ n. bytes_at b 0 n ≡ xs) same w.there)
