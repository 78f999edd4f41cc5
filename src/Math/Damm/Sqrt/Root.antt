-- ===== src/Math/Damm/Sqrt/Root.antt =====
-- math/damm/utils_math.go: for which radicands `SqrtU256` is the square root.
use mathlib.Core.Path.{subst}
use native.Mathlib.Nat.{pow-le-pow_right, mul-le-mul}
use soldex.Base.{
  ℕ, zero, suc, ◌+◌, ◌-◌, ◌*◌, ◌/◌, ◌^◌, ◌≤◌, ◌<◌, ◌≡◌, refl, sym, ap, ◌∙◌, ◌↔◌, inl, inr, arith,
  some, ltb, leb, ◌==◌, ok, math_overflow, Bool-cases, ltb→lt, ltb→le, leb→le, leb→lt, ==→eq,
}
use soldex.Base.Words.{max_u256}
use soldex.Math.Common.{nat, is_uint_within}
use soldex.Math.Common.Success.{ensure_uint_within-nat}
use soldex.Math.Damm.MulDiv.{bit_len, within}
use soldex.Math.Damm.Sqrt.{
  sqrt_loop, sqrt_shift, sqrt_fuel, sqrt_result, sqrt_of, sqrt_checked, sqrt_u256,
}
use soldex.Math.Damm.Sqrt.Loop.{IsRoot, Finds, finds, pow_suc, pow_pos}

exponent-lt : (a b : ℕ) → 2 ^ a < 2 ^ b → a < b
exponent-lt a b h = elim (Bool-cases (ltb a b)) [
  | inl less ↦ ltb→lt _ _ less
  | inr more ↦ absurd (omega (arith, pow-le-pow_right {n = 2} (omega arith) (ltb→le _ _ more)))
]

bit_len-le : (w n m : ℕ) → n < 2 ^ m → bit_len w n ≤ m
unfolding bit_len
bit_len-le zero n m h = omega arith
bit_len-le (suc w) n m h = elim (Bool-cases (leb (2 ^ w) n)) [
  | inl top ↦ rw top (exponent-lt w m (omega (arith, leb→le _ _ top)))
  | inr rest ↦ rw rest (bit_len-le w n m h)
]

bit_len-gt : (w n m : ℕ) → n < 2 ^ w → 2 ^ m ≤ n → m < bit_len w n
unfolding bit_len
bit_len-gt zero n m h k = absurd (omega (arith, pow_pos m))
bit_len-gt (suc w) n m h k = elim (Bool-cases (leb (2 ^ w) n)) [
  | inl top ↦ rw top (exponent-lt m (suc w) (omega arith))
  | inr rest ↦ rw rest (bit_len-gt w n m (leb→lt _ _ rest) k)
]

-- The first bit covers the radicand if that is below 2 ^ 128, and is below 2 ^ 128 if it is not.
record IsStart (n k : ℕ) : Type 0 where
  even : sqrt_shift n ≡ k + k
  small : k ≤ 127
  covers : n < 2 ^ 128 → 64 ≤ k
  misses : 2 ^ 128 ≤ n → k ≤ 63

sqrt_shift-IsStart : (n : ℕ) → n < 2 ^ 256 → IsStart n ((255 - (bit_len 256 n - 1)) / 2)
unfolding sqrt_shift
sqrt_shift-IsStart n fits = record {
  even = omega arith;
  small = omega arith;
  covers = λ h. omega (arith, bit_len-le 256 n 128 h);
  misses = λ h. omega (arith, bit_len-gt 256 n 128 fits h);
}

-- What `SqrtU256` returns for `n`: the root, exactly if `n` is below 2 ^ 128.
pub record IsRootBelow (n s : ℕ) : Type 0 where
  pub below : s * s ≤ n
  pub exact : (n < (s + 1) * (s + 1)) ↔ (n < 2 ^ 128)

root_start : (n k s : ℕ) → IsStart n k → IsRoot 0 n (2 ^ k) s → IsRootBelow n s
root_start n k s first root = record {
  below = omega (arith, root.below);
  exact = (
    λ h. elim (Bool-cases (ltb n (2 ^ 128))) [
      | inl small ↦ ltb→lt _ _ small
      | inr large ↦ absurd (
          let le = ltb→le _ _ large in
          let bound = pow-le-pow_right {n = 2} (omega arith) (first.misses le) in
          let square : (s + 1) * (s + 1) ≤ 2 ^ 64 * 2 ^ 64 =
            mul-le-mul {n₁ = s + 1} {m₁ = s + 1} {n₂ = 2 ^ 64} {m₂ = 2 ^ 64}
              (omega (arith, root.short)) (omega (arith, root.short)) in
          omega arith)
    ],
    λ h.
        let bound = pow-le-pow_right {n = 2} (omega arith) (first.covers h) in
        let square : 2 ^ 65 * 2 ^ 65 ≤ (0 + 2 * 2 ^ k) * (0 + 2 * 2 ^ k) =
          mul-le-mul {n₁ = 2 ^ 65} {m₁ = 2 ^ 65} {n₂ = 0 + 2 * 2 ^ k} {m₂ = 0 + 2 * 2 ^ k}
            (omega arith) (omega arith) in
        omega (arith, root.above (omega arith)),
  );
}

within-of_le : (max s : ℕ) → s ≤ max → within max math_overflow s ≡ ok s
unfolding within is_uint_within
within-of_le max s h = ground arith

root_le : (s n m : ℕ) → s * s ≤ n → n ≤ m → s ≤ m
root_le s n m h k = grind arith

pow_double : (k : ℕ) → 2 ^ (k + k) ≡ 2 ^ k * 2 ^ k
pow_double zero = refl
pow_double (suc k) =
    let ih = pow_double k in
    let same : suc k + suc k ≡ suc (suc (k + k)) = omega arith in
    let left : 2 ^ suc (suc (k + k)) ≡ 4 * (2 ^ k * 2 ^ k) =
      omega (arith, pow_suc (suc (k + k)), pow_suc (k + k)) in
    let right : 2 * 2 ^ k * (2 * 2 ^ k) ≡ 4 * (2 ^ k * 2 ^ k) = omega arith in
    ap (λ m. 2 ^ m) same ∙ left ∙ sym right ∙ sym (ap (λ p. p * p) (pow_suc k))

start_loop :
    (n k : ℕ)
    → IsStart n k
    → (s : ℕ) × (sqrt_loop sqrt_fuel (2 ^ sqrt_shift n) n 0 ≡ some s) × IsRoot 0 n (2 ^ k) s
unfolding Finds
start_loop n k first =
    let (s, found, root) = finds k sqrt_fuel 0 n (omega (arith, first.small)) in
    let bit : 2 ^ k * 2 ^ k ≡ 2 ^ sqrt_shift n = sym (ap (λ m. 2 ^ m) first.even ∙ pow_double k) in
    let none_yet : 2 * 0 * 2 ^ k ≡ 0 = omega arith in
    (
      s,
      subst (λ b. sqrt_loop sqrt_fuel b n 0 ≡ some s) bit
          (subst (λ m. sqrt_loop sqrt_fuel (2 ^ k * 2 ^ k) n m ≡ some s) none_yet found),
      root,
    )

sqrt_of-IsRootBelow : (n : ℕ) → n ≤ max_u256 → (s : ℕ) × (sqrt_of n ≡ some (ok s)) × IsRootBelow n s
unfolding sqrt_of
sqrt_of-IsRootBelow n fits = elim (Bool-cases (n == 0)) [
  | inl zero_n ↦
      let e = ==→eq _ _ zero_n in
      (
        0,
        rw zero_n refl,
        record { below = omega arith; exact = (λ h. omega arith, λ h. omega arith) },
      )
  | inr more ↦
      let k = (255 - (bit_len 256 n - 1)) / 2 in
      let first = sqrt_shift-IsStart n (omega arith) in
      let (s, found, root) = start_loop n k first in
      let good = root_start n k s first root in
      let fine = within-of_le max_u256 s (root_le s n max_u256 good.below fits) in
      (s, rw more (ap sqrt_result found ∙ unfold sqrt_result in ap some fine), good)
]

-- `SqrtU256` of a number of at most 256 bits always returns, a number whose square is at most the
-- radicand; and it is the square root rounded down if and only if the radicand is below 2 ^ 128.
pub sqrt_u256-IsRootBelow :
    (n : ℕ) → n ≤ max_u256 → (s : ℕ) × (sqrt_u256 (nat n) ≡ some (ok s)) × IsRootBelow n s
unfolding sqrt_u256 sqrt_checked
sqrt_u256-IsRootBelow n fits =
    let (s, e, good) = sqrt_of-IsRootBelow n fits in
    (s, ap sqrt_checked (ensure_uint_within-nat max_u256 n fits) ∙ e, good)
