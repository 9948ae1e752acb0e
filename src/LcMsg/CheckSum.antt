-- ===== src/LcMsg/CheckSum.antt =====
-- What the checksum promises.
use practice_project.Prelude.{
  ℕ, zero, suc, ◌+◌, ◌%◌, ◌^◌, ◌≤◌, ◌<◌, ◌≡◌, ◌≢◌, refl, List, some, arith, length, length-set, set,
}
use native.Mathlib.Decide.{dec_lt, ℕ_discrete}
use practice_project.Array.{get!, load-ok, store-ok, get!-set}
use practice_project.LcMsg.{msg_size, sum_bytes, set_check_sum, check_check_sum}

-- The sum of `n` bytes from `i` on.
add_up : ℕ → ℕ → List ℕ → ℕ
add_up zero i m = 0
add_up (suc n) i m = get! m i + add_up n (i + 1) m

sum_bytes-add_up :
    (n i sum : ℕ) (m : List ℕ)
    → sum < 2 ^ 8
    → i + n ≤ length m
    → sum_bytes n i sum m ≡ some ((sum + add_up n i m) % 2 ^ 8)
unfolding sum_bytes add_up
sum_bytes-add_up zero i sum m small room = ground arith
sum_bytes-add_up (suc n) i sum m small room =
    ground (arith, load-ok m i, sum_bytes-add_up n (i + 1) ((sum + get! m i) % 2 ^ 8) m)

-- A write outside the bytes that are added up.
add_up-outside :
    (n i k v : ℕ) (m : List ℕ) → i + n ≤ k → k < length m → add_up n i (set m k v) ≡ add_up n i m
unfolding add_up
add_up-outside zero i k v m out room = refl
add_up-outside (suc n) i k v m out room =
    ground (arith, get!-set m k i v room, add_up-outside n (i + 1) k v m)

add_up-before :
    (n i k v : ℕ) (m : List ℕ) → k < i → k < length m → add_up n i (set m k v) ≡ add_up n i m
unfolding add_up
add_up-before zero i k v m out room = refl
add_up-before (suc n) i k v m out room =
    ground (arith, get!-set m k i v room, add_up-before n (i + 1) k v m)

-- A write to one of them.
add_up-set :
    (n i k v : ℕ) (m : List ℕ)
    → i ≤ k
    → k < i + n
    → k < length m
    → add_up n i (set m k v) + get! m k ≡ add_up n i m + v
unfolding add_up
add_up-set zero i k v m lo hi room = absurd (omega arith)
add_up-set (suc n) i k v m lo hi room = elim (ℕ_discrete i k) [
  | yes here ↦ ground (arith, get!-set m k i v room, add_up-before n (i + 1) k v m)
  | no later ↦ ground (arith, get!-set m k i v room, add_up-set n (i + 1) k v m)
]

sum_bytes-all :
    (m : List ℕ)
    → msg_size < length m
    → sum_bytes msg_size 0 0 m ≡ some (add_up msg_size 0 m % 2 ^ 8)
sum_bytes-all m room = ground (arith, sum_bytes-add_up msg_size 0 0 m)

check_check_sum-passed :
    (m : List ℕ)
    → msg_size < length m
    → add_up msg_size 0 m % 2 ^ 8 ≡ get! m msg_size
    → check_check_sum m ≡ some 1
unfolding check_check_sum
check_check_sum-passed m room same =
    rw (sum_bytes-all m room, load-ok m msg_size room) (ground arith)

check_check_sum-failed :
    (m : List ℕ)
    → msg_size < length m
    → add_up msg_size 0 m % 2 ^ 8 ≢ get! m msg_size
    → check_check_sum m ≡ some 0
unfolding check_check_sum
check_check_sum-failed m room differ =
    rw (sum_bytes-all m room, load-ok m msg_size room) (ground arith)

-- Sums that differ in one byte.
byte_differs : (a b y v : ℕ) → b + y ≡ a + v → y < 2 ^ 8 → v < 2 ^ 8 → v ≢ y → b % 2 ^ 8 ≢ a % 2 ^ 8
byte_differs a b y v same hy hv ne = omega arith

-- For every message, `SetCheckSum` stays in bounds and writes only the checksum, and then
-- `CheckCheckSum` returns 1.
pub check_check_sum-set_check_sum :
    (m : List ℕ)
    → msg_size < length m
    → (b : List ℕ) × (set_check_sum m ≡ some b)
      × (check_check_sum b ≡ some 1)
      × (length b ≡ length m)
      × ((k : ℕ) → k ≢ msg_size → get! b k ≡ get! m k)
unfolding set_check_sum
check_check_sum-set_check_sum m room =
    let sum = add_up msg_size 0 m % 2 ^ 8 in
    let b = set m msg_size sum in
    let kept : add_up msg_size 0 b ≡ add_up msg_size 0 m =
      add_up-outside msg_size 0 msg_size sum m (omega arith) room in
    let there : get! b msg_size ≡ sum = ground (arith, get!-set m msg_size msg_size sum room) in
    (
      b,
      rw (sum_bytes-all m room) (store-ok m msg_size sum room),
      check_check_sum-passed b (omega (arith, length-set m msg_size sum)) (rw (kept, there)),
      length-set m msg_size sum,
      λ k ne. ground (arith, get!-set m msg_size k sum room),
    )

-- A message that `CheckCheckSum` accepts and in which one byte of the struct, or the checksum, is
-- changed to another byte, is not accepted: `CheckCheckSum` returns 0.
pub check_check_sum-detects :
    (m : List ℕ) (k v : ℕ)
    → msg_size < length m
    → check_check_sum m ≡ some 1
    → k ≤ msg_size
    → get! m k < 2 ^ 8
    → v < 2 ^ 8
    → v ≢ get! m k
    → check_check_sum (set m k v) ≡ some 0
check_check_sum-detects m k v room passed at byte byte' other =
    elim (ℕ_discrete (add_up msg_size 0 m % 2 ^ 8) (get! m msg_size)) [
      | yes same ↦
          check_check_sum-failed (set m k v) (omega (arith, length-set m k v)) (changed same)
      | no differ ↦ absurd (ground (arith, check_check_sum-failed m room differ))
    ]
  where
    changed :
        add_up msg_size 0 m % 2 ^ 8 ≡ get! m msg_size
        → add_up msg_size 0 (set m k v) % 2 ^ 8 ≢ get! (set m k v) msg_size
    changed same = elim (dec_lt k msg_size) [
      | yes within ↦
          let inside : k < length m = omega arith in
          let new = add_up-set msg_size 0 k v m (omega arith) (omega arith) inside in
          let sum : get! (set m k v) msg_size ≡ get! m msg_size =
            ground (arith, get!-set m k msg_size v inside) in
          let apart =
            byte_differs (add_up msg_size 0 m) (add_up msg_size 0 (set m k v)) (get! m k) v new byte
              byte' other in
          rw (sum, ← same) apart
      | no last ↦
          let here : k ≡ msg_size = omega arith in
          let new = add_up-outside msg_size 0 k v m (omega arith) (omega arith) in
          let sum : get! (set m k v) msg_size ≡ v = ground (arith, get!-set m k msg_size v) in
          rw (sum, new, same) (ground arith)
    ]
