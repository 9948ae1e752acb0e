-- ===== src/Sort/Quick/Scan.antt =====
-- The two scans towards each other.
use practice_project.Prelude.{
  ℕ, zero, suc, ◌+◌, ◌-◌, ◌≤◌, ◌<◌, ◌≡◌, ◌⊎◌, List, arith, length, ltb, leb, ◌&&◌, Returns, returns,
  Returns-if, Returns-mono,
}
use practice_project.Array.{get!, load-ok}
use practice_project.Sort.Quick.{scan_left, scan_right}

-- Where the scan from the left stops: at an element that is not smaller, or at `right`.
pub record LeftStop (a : List ℕ) (key left right l : ℕ) : Type 0 where
  pub from : left ≤ l
  pub to : l ≤ right
  pub passed : (q : ℕ) → left ≤ q → q < l → get! a q < get! a key
  pub stop : (l ≡ right) ⊎ (get! a key ≤ get! a l)

pub scan_left-LeftStop :
    (f : ℕ) (a : List ℕ) (key left right : ℕ)
    → right - left < f
    → left ≤ right
    → right < length a
    → key < length a
    → Returns (LeftStop a key left right) (scan_left f a key left right)
unfolding scan_left
scan_left-LeftStop zero a key left right fuel le hr hk = absurd (omega arith)
scan_left-LeftStop (suc f) a key left right fuel le hr hk =
    rw (load-ok a left (omega arith), load-ok a key hk)
      (Returns-if (ltb (get! a left) (get! a key) && ltb left right)
        (λ t.
          let less : get! a left < get! a key = ground arith in
          let more : left < right = ground arith in
          Returns-mono
            (scan_left-LeftStop f a key (left + 1) right (omega arith) (omega arith) hr hk)
            λ l s. record {
              from = omega (arith, s.from);
              to = s.to;
              passed = λ q lo hi. ground (arith, s.passed q);
              stop = s.stop;
            })
        (λ t. returns (record {
          from = omega arith;
          to = le;
          passed = λ q lo hi. absurd (omega arith);
          stop = ground arith;
        })))

-- Where the scan from the right stops: at a smaller element, or at `left`.
pub record RightStop (a : List ℕ) (key left right r : ℕ) : Type 0 where
  pub from : r ≤ right
  pub to : left ≤ r
  pub passed : (q : ℕ) → r < q → q ≤ right → get! a key ≤ get! a q
  pub stop : (r ≡ left) ⊎ (get! a r < get! a key)

pub scan_right-RightStop :
    (f : ℕ) (a : List ℕ) (key left right : ℕ)
    → right - left < f
    → left ≤ right
    → right < length a
    → key < length a
    → Returns (RightStop a key left right) (scan_right f a key left right)
unfolding scan_right
scan_right-RightStop zero a key left right fuel le hr hk = absurd (omega arith)
scan_right-RightStop (suc f) a key left right fuel le hr hk =
    rw (load-ok a right hr, load-ok a key hk)
      (Returns-if (leb (get! a key) (get! a right) && ltb left right)
        (λ t.
          let great : get! a key ≤ get! a right = ground arith in
          let more : left < right = ground arith in
          Returns-mono
            (scan_right-RightStop f a key left (right - 1) (omega arith) (omega arith) (omega arith)
              hk)
            λ r s. record {
              from = omega (arith, s.from);
              to = s.to;
              passed = λ q lo hi. ground (arith, s.passed q);
              stop = s.stop;
            })
        (λ t. returns (record {
          from = omega arith;
          to = le;
          passed = λ q lo hi. absurd (omega arith);
          stop = ground arith;
        })))
