-- ===== src/Sort/Quick/Stack.antt =====
-- The ranges on the stack lie apart, from right to left, so `cnt` places are enough for them.
use practice_project.Prelude.{
  ℕ, suc, ◌+◌, ◌-◌, ◌≤◌, ◌<◌, ◌≡◌, ◌⊎◌, inl, inr, List, [], ◌∷◌, some, arith, length, ltb, ltb→lt,
  ltb→le, if◌then◌else◌, Returns, returns, Returns-if,
}
use practice_project.Sort.Quick.{Range, new_range, push}

-- Every range ends before `hi`, and before the start of the one above it.
abbrev pub Chain : ℕ → List Range → Type 0
Chain hi [] = Unit
Chain hi (r ∷ st) = (r.end < hi) × (r.start ≤ r.end) × Chain r.start st

-- `i` and `j` lie in one range of the stack.
abbrev pub InOne : ℕ → ℕ → List Range → Type 0
InOne i j [] = ⊥
InOne i j (r ∷ st) = ((r.start ≤ i) × (j ≤ r.end)) ⊎ InOne i j st

-- The number of elements that wait in ranges.
abbrev pub waiting : List Range → ℕ
waiting [] = 0
waiting (r ∷ st) = suc (r.end - r.start) + waiting st

pub Chain-mono : (st : List Range) (hi hi' : ℕ) → hi ≤ hi' → Chain hi st → Chain hi' st
Chain-mono [] hi hi' le c = tt
Chain-mono (r ∷ st) hi hi' le c = (omega (arith, c.0), c.1, c.2)

pub length-le-Chain : (st : List Range) (hi : ℕ) → Chain hi st → length st ≤ hi
length-le-Chain [] hi c = omega arith
length-le-Chain (r ∷ st) hi c = omega (arith, c.0, c.1, length-le-Chain st r.start c.2)

pub InOne-lt : (st : List Range) (hi i j : ℕ) → Chain hi st → InOne i j st → j < hi
InOne-lt [] hi i j c h = absurd h
InOne-lt (r ∷ st) hi i j c (inl h) = omega (arith, c.0, h.1)
InOne-lt (r ∷ st) hi i j c (inr h) = omega (arith, c.0, c.1, InOne-lt st r.start i j c.2 h)

-- A push onto a chain finds a place.
push-ok :
    (cnt hi : ℕ) (r : Range) (st : List Range)
    → hi ≤ cnt
    → Chain hi (r ∷ st)
    → push cnt r st ≡ some (r ∷ st)
unfolding push
push-ok cnt hi r st le c = ground (arith, length-le-Chain st r.start c.2, c.0, c.1)

-- After the push of the part of `s..e` before `m`, if there is one.
pub record LeftPushed (s m : ℕ) (st st' : List Range) : Type 0 where
  pub chain : Chain m st'
  pub size : waiting st' ≤ m - s + waiting st
  pub kept : (i j : ℕ) → InOne i j st → InOne i j st'
  pub part : (i j : ℕ) → s ≤ i → i < j → j < m → InOne i j st'

pub push-LeftPushed :
    (cnt s m : ℕ) (st : List Range)
    → m ≤ cnt
    → s ≤ m
    → Chain s st
    → Returns
        (LeftPushed s m st)
        (if ltb s (m - 1) then push cnt (new_range s (m - 1)) st else some st)
push-LeftPushed cnt s m st le sm c =
    Returns-if (ltb s (m - 1))
      (λ t.
        let two : s < m - 1 = ltb→lt s (m - 1) t in
        let chain : Chain m (new_range s (m - 1) ∷ st) = (omega arith, omega arith, c) in
        rw (push-ok cnt m (new_range s (m - 1)) st le chain) (
          returns (record {
            chain = chain;
            size = omega arith;
            kept = λ i j h. inr h;
            part = λ i j si ij jm. inl (si, omega arith);
          })))
      (λ t.
        let one : m - 1 ≤ s = ltb→le s (m - 1) t in
        returns (record {
          chain = Chain-mono st s m sm c;
          size = omega arith;
          kept = λ i j h. h;
          part = λ i j si ij jm. absurd (omega arith);
        }))

-- After the push of the part of `s..e` behind `m` too.
pub record Pushed (s e m hi : ℕ) (st st' : List Range) : Type 0 where
  pub chain : Chain hi st'
  pub fewer : waiting st' < suc (e - s) + waiting st
  pub kept : (i j : ℕ) → InOne i j st → InOne i j st'
  pub left_part : (i j : ℕ) → s ≤ i → i < j → j < m → InOne i j st'
  pub right_part : (i j : ℕ) → m < i → i < j → j ≤ e → InOne i j st'

pub push-Pushed :
    (cnt hi s e m : ℕ) (st st' : List Range)
    → hi ≤ cnt
    → e < hi
    → s ≤ m
    → m ≤ e
    → LeftPushed s m st st'
    → Returns
        (Pushed s e m hi st)
        (if ltb (m + 1) e then push cnt (new_range (m + 1) e) st' else some st')
push-Pushed cnt hi s e m st st' le he sm me p =
    Returns-if (ltb (m + 1) e)
      (λ t.
        let two : m + 1 < e = ltb→lt (m + 1) e t in
        let chain : Chain hi (new_range (m + 1) e ∷ st') =
          (he, omega arith, Chain-mono st' m (m + 1) (omega arith) p.chain) in
        rw (push-ok cnt hi (new_range (m + 1) e) st' le chain) (
          returns (record {
            chain = chain;
            fewer = omega (arith, p.size);
            kept = λ i j h. inr (p.kept i j h);
            left_part = λ i j si ij jm. inr (p.part i j si ij jm);
            right_part = λ i j mi ij je. inl (omega arith, je);
          })))
      (λ t.
        let one : e ≤ m + 1 = ltb→le (m + 1) e t in
        returns (record {
          chain = Chain-mono st' m hi (omega arith) p.chain;
          fewer = omega (arith, p.size);
          kept = p.kept;
          left_part = p.part;
          right_part = λ i j mi ij je. absurd (omega arith);
        }))
