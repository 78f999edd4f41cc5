-- ===== src/Math/Dlmm/MulDiv/Rounds.antt =====
-- math/dlmm/u128x128.go and utils.go: the rounded quotient, against the mathematical one.
use soldex.Base.{
  ℕ, zero, suc, ◌+◌, ◌*◌, ◌/◌, ◌^◌, ◌≤◌, ◌<◌, ◌≡◌, refl, ap, ◌∙◌, ◌↔◌, arith, some, none, ok,
  >>=-eq-ok,
}
use soldex.Base.Int.{pos, negsuc}
use soldex.Base.Words.{u64_mod, max_u128}
use soldex.Base.Division.{ceil_div, div_bounds, ceil_div_bounds, ceil_div_unique, div_unique}
use soldex.Math.Common.{BigInt, nat}
use soldex.Math.Common.Success.{Holds, div_floor-nat, div_ceil-nat}
use soldex.Math.Dlmm.MulDiv.{
  Rounding, rounding_up, rounding_down, div_rounded, mul_div, mul_shr, shl_div, cast_to_unsigned,
  safe_shl_div_cast, safe_mul_shr_cast,
}

-- The quotient that a rounding asks for.
abbrev pub rounded : Rounding → ℕ → ℕ → ℕ
rounded rounding_up n d = ceil_div n d
rounded rounding_down n d = n / d

-- `q` is n / d, rounded.
abbrev pub IsRounded : Rounding → ℕ → ℕ → ℕ → Type 0
IsRounded rounding_up n d q = (n ≤ q * d) × (q * d < n + d)
IsRounded rounding_down n d q = (q * d ≤ n) × (n < q * d + d)

pub rounded-IsRounded : (r : Rounding) (n d : ℕ) → 0 < d → IsRounded r n d (rounded r n d)
rounded-IsRounded rounding_up n d h = ceil_div_bounds n d h
rounded-IsRounded rounding_down n d h = div_bounds n d h

div_rounded-nat :
    (r : Rounding) (n d : ℕ) → 0 < d → div_rounded r (nat n) (nat d) ≡ ok (rounded r n d)
unfolding div_rounded
div_rounded-nat rounding_up n d h = div_ceil-nat n d h
div_rounded-nat rounding_down n d h = div_floor-nat n d h

mul_div-nat_ok :
    (a b d : ℕ) (r : Rounding) {q : ℕ}
    → mul_div (nat a) (nat b) (nat d) r ≡ ok q
    → (a ≤ max_u128)
      × (b ≤ max_u128)
      × (d ≤ max_u128)
      × (0 < d)
      × (q ≡ rounded r (a * b) d)
      × (q ≤ max_u128)
unfolding mul_div
mul_div-nat_ok a b zero rounding_up h = ground arith
mul_div-nat_ok a b zero rounding_down h = ground arith
mul_div-nat_ok a b (suc d) rounding_up h = ground arith
mul_div-nat_ok a b (suc d) rounding_down h = ground arith

mul_div-of_le :
    (a b d : ℕ) (r : Rounding)
    → a ≤ max_u128
    → b ≤ max_u128
    → d ≤ max_u128
    → 0 < d
    → rounded r (a * b) d ≤ max_u128
    → mul_div (nat a) (nat b) (nat d) r ≡ ok (rounded r (a * b) d)
unfolding mul_div
mul_div-of_le a b zero r ha hb hd p hq = absurd (omega arith)
mul_div-of_le a b (suc d) rounding_up ha hb hd p hq = ground arith
mul_div-of_le a b (suc d) rounding_down ha hb hd p hq = ground arith

pub IsRounded-unique : (r : Rounding) (n d q : ℕ) → IsRounded r n d q → rounded r n d ≡ q
IsRounded-unique rounding_up n d q h = ceil_div_unique n d q h.0 h.1
IsRounded-unique rounding_down n d q h = div_unique n d q h.0 h.1

-- What a successful call read and returned.
abbrev pub Divides : BigInt → BigInt → BigInt → Rounding → ℕ → Type 0
Divides x y d r q =
    (a : ℕ) × (b : ℕ) × (c : ℕ) × Holds x max_u128 a
    × Holds y max_u128 b
    × Holds d max_u128 c
    × (0 < c)
    × IsRounded r (a * b) c q
    × (q ≤ max_u128)

mul_div-ok : (x y d : BigInt) (r : Rounding) (q : ℕ) → mul_div x y d r ≡ ok q → Divides x y d r q
unfolding mul_div
mul_div-ok none y d r q h = cc
mul_div-ok (some (negsuc a)) y d r q h = cc
mul_div-ok (some (pos a)) none d r q h = ground arith
mul_div-ok (some (pos a)) (some (negsuc b)) d r q h = ground arith
mul_div-ok (some (pos a)) (some (pos b)) none r q h = ground arith
mul_div-ok (some (pos a)) (some (pos b)) (some (negsuc c)) r q h = ground arith
mul_div-ok (some (pos a)) (some (pos b)) (some (pos c)) r q h =
    let (ha, hb, hc, p, e, hq) = mul_div-nat_ok a b c r h in
    (a, b, c, (refl, ha), (refl, hb), (refl, hc), p, rw e (rounded-IsRounded r (a * b) c p), hq)

-- `MulDiv` returns q exactly when its three pointers hold numbers a, b and c of at most 128 bits, c
-- is not zero, q is a * b / c rounded as asked, up or down, and q has at most 128 bits.
mul_div_iff : (x y d : BigInt) (r : Rounding) (q : ℕ) → (mul_div x y d r ≡ ok q) ↔ Divides x y d r q
mul_div_iff x y d r q = (
  mul_div-ok x y d r q,
  λ (a, b, c, hx, hy, hd, p, e, hq).
      let same = IsRounded-unique r (a * b) c q e in
      rw (hx.0, hy.0, hd.0) (mul_div-of_le a b c r hx.1 hy.1 hd.1 p (omega arith) ∙ ap ok same),
)

-- The quotient of a successful call on numbers.
pub mul_div-IsRounded :
    (a b d : ℕ) (r : Rounding) {q : ℕ}
    → mul_div (nat a) (nat b) (nat d) r ≡ ok q
    → (0 < d) × IsRounded r (a * b) d q
mul_div-IsRounded a b d r h =
    let (ha, hb, hd, p, e, hq) = mul_div-nat_ok a b d r h in
    (p, rw e (rounded-IsRounded r (a * b) d p))

pub cast_to_unsigned-ok :
    (bits n : ℕ) {v : ℕ} → cast_to_unsigned bits (nat n) ≡ ok v → (v ≡ n) × (v < u64_mod)
unfolding cast_to_unsigned
cast_to_unsigned-ok bits n h = ground arith

-- A successful cast of `x << 64 / y`.
pub safe_shl_div_cast-ok :
    (bits a p : ℕ) (r : Rounding) {v : ℕ}
    → safe_shl_div_cast bits (nat a) (nat p) 64 r ≡ ok v
    → (0 < p) × IsRounded r (a * 2 ^ 64) p v × (v < u64_mod)
unfolding safe_shl_div_cast shl_div
safe_shl_div_cast-ok bits a p r {v} h =
    let (w, e, f) = >>=-eq-ok (mul_div (nat a) (nat (2 ^ 64)) (nat p) r) _ h in
    let (positive, rounds) = mul_div-IsRounded a (2 ^ 64) p r e in
    let (same, small) = cast_to_unsigned-ok bits w f in (positive, rw same rounds, small)

-- A successful cast of `x * y >> 64`.
pub safe_mul_shr_cast-ok :
    (bits a p : ℕ) (r : Rounding) {v : ℕ}
    → safe_mul_shr_cast bits (nat a) (nat p) 64 r ≡ ok v
    → IsRounded r (a * p) (2 ^ 64) v × (v < u64_mod)
unfolding safe_mul_shr_cast mul_shr
safe_mul_shr_cast-ok bits a p r {v} h =
    let (w, e, f) = >>=-eq-ok (mul_div (nat a) (nat p) (nat (2 ^ 64)) r) _ h in
    let (positive, rounds) = mul_div-IsRounded a p (2 ^ 64) r e in
    let (same, small) = cast_to_unsigned-ok bits w f in (rw same rounds, small)
