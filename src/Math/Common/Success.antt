-- ===== src/Math/Common/Success.antt =====
-- math/common/common.go: exactly when the checked operations succeed, and with what.
use soldex.Base.{ℕ, zero, suc, ◌+◌, ◌-◌, ◌*◌, ◌/◌, ◌≤◌, ◌<◌, ◌≡◌, refl, ◌↔◌, arith, some, none, ok}
use soldex.Base.Int.{pos, negsuc}
use soldex.Base.Words.{u64_mod}
use soldex.Base.Division.{ceil_div}
use soldex.Math.Common.{
  BigInt, nat, ensure_uint_within, mul_checked, add_checked, sub_checked, div_floor, div_ceil,
  big_to_uint64_checked,
}

-- The pointer holds the number `x`, which is at most `max`.
abbrev pub Holds : BigInt → ℕ → ℕ → Type 0
Holds a max x = (a ≡ nat x) × (x ≤ max)

pub ensure_uint_within-ok :
    (a : BigInt) (max x : ℕ) → ensure_uint_within a max ≡ ok x → Holds a max x
unfolding ensure_uint_within
ensure_uint_within-ok none max x h = cc
ensure_uint_within-ok (some (negsuc n)) max x h = cc
ensure_uint_within-ok (some (pos n)) max x h = ground arith

pub ensure_uint_within-nat : (max x : ℕ) → x ≤ max → ensure_uint_within (nat x) max ≡ ok x
unfolding ensure_uint_within
ensure_uint_within-nat max x h = ground arith

-- What a successful call read and returned.
pub mul_checked-nat :
    (a b max c : ℕ)
    → mul_checked (nat a) (nat b) max ≡ ok c
    → (a ≤ max) × (b ≤ max) × (c ≡ a * b) × (c ≤ max)
unfolding mul_checked
mul_checked-nat a b max c h = ground arith

pub mul_checked-of_le :
    (a b max : ℕ) → a ≤ max → b ≤ max → a * b ≤ max → mul_checked (nat a) (nat b) max ≡ ok (a * b)
unfolding mul_checked
mul_checked-of_le a b max h k l = ground arith

pub mul_checked_iff :
    (a b : BigInt) (max c : ℕ)
    → (mul_checked a b max ≡ ok c)
      ↔ ((x : ℕ) × (y : ℕ) × Holds a max x × Holds b max y × (c ≡ x * y) × (c ≤ max))
unfolding mul_checked
mul_checked_iff none b max c = ground arith
mul_checked_iff (some (negsuc m)) b max c = ground arith
mul_checked_iff (some (pos m)) none max c = ground arith
mul_checked_iff (some (pos m)) (some (negsuc n)) max c = ground arith
mul_checked_iff (some (pos m)) (some (pos n)) max c =
    (λ h. (m, n, ground arith, ground arith, ground arith, ground arith), ground arith)

pub add_checked_iff :
    (a b : BigInt) (max c : ℕ)
    → (add_checked a b max ≡ ok c)
      ↔ ((x : ℕ) × (y : ℕ) × Holds a max x × Holds b max y × (c ≡ x + y) × (c ≤ max))
unfolding add_checked
add_checked_iff none b max c = ground arith
add_checked_iff (some (negsuc m)) b max c = ground arith
add_checked_iff (some (pos m)) none max c = ground arith
add_checked_iff (some (pos m)) (some (negsuc n)) max c = ground arith
add_checked_iff (some (pos m)) (some (pos n)) max c =
    (λ h. (m, n, ground arith, ground arith, ground arith, ground arith), ground arith)

pub sub_checked_iff :
    (a b : BigInt) (max c : ℕ)
    → (sub_checked a b max ≡ ok c)
      ↔ ((x : ℕ) × (y : ℕ) × Holds a max x × Holds b max y × (y ≤ x) × (c ≡ x - y))
unfolding sub_checked
sub_checked_iff none b max c = ground arith
sub_checked_iff (some (negsuc m)) b max c = ground arith
sub_checked_iff (some (pos m)) none max c = ground arith
sub_checked_iff (some (pos m)) (some (negsuc n)) max c = ground arith
sub_checked_iff (some (pos m)) (some (pos n)) max c =
    (λ h. (m, n, ground arith, ground arith, ground arith, ground arith), ground arith)

-- For pointers a and b and a bound, each of the three checked operations returns c exactly when both
-- pointers hold numbers x and y within the bound, c is the exact sum, difference or product, and,
-- for the sum and the product, c is within the bound, for the difference y is at most x.
checked_iff :
    (a b : BigInt) (max c : ℕ)
    → ((add_checked a b max ≡ ok c)
        ↔ ((x : ℕ) × (y : ℕ) × Holds a max x × Holds b max y × (c ≡ x + y) × (c ≤ max)))
      × ((sub_checked a b max ≡ ok c)
          ↔ ((x : ℕ) × (y : ℕ) × Holds a max x × Holds b max y × (y ≤ x) × (c ≡ x - y)))
      × ((mul_checked a b max ≡ ok c)
          ↔ ((x : ℕ) × (y : ℕ) × Holds a max x × Holds b max y × (c ≡ x * y) × (c ≤ max)))
checked_iff a b max c =
    (add_checked_iff a b max c, sub_checked_iff a b max c, mul_checked_iff a b max c)

-- Division by a positive number does not fail.
pub div_floor-nat : (n d : ℕ) → 0 < d → div_floor (nat n) (nat d) ≡ ok (n / d)
unfolding div_floor
div_floor-nat n zero h = absurd (omega arith)
div_floor-nat n (suc d) h = refl

pub div_ceil-nat : (n d : ℕ) → 0 < d → div_ceil (nat n) (nat d) ≡ ok (ceil_div n d)
unfolding div_ceil
div_ceil-nat n zero h = absurd (omega arith)
div_ceil-nat n (suc d) h = refl

pub div_floor-ok : (n d : ℕ) {q : ℕ} → div_floor (nat n) (nat d) ≡ ok q → (0 < d) × (q ≡ n / d)
unfolding div_floor
div_floor-ok n zero h = cc
div_floor-ok n (suc d) h = ground arith

pub div_ceil-ok : (n d : ℕ) {q : ℕ} → div_ceil (nat n) (nat d) ≡ ok q → (0 < d) × (q ≡ ceil_div n d)
unfolding div_ceil
div_ceil-ok n zero h = cc
div_ceil-ok n (suc d) h = (omega arith, ground arith)

pub big_to_uint64_checked-nat : (n : ℕ) → n < u64_mod → big_to_uint64_checked (nat n) ≡ ok n
unfolding big_to_uint64_checked
big_to_uint64_checked-nat n h = ground arith

pub big_to_uint64_checked-ok :
    (n : ℕ) {m : ℕ} → big_to_uint64_checked (nat n) ≡ ok m → (m ≡ n) × (m < u64_mod)
unfolding big_to_uint64_checked
big_to_uint64_checked-ok n h = ground arith
