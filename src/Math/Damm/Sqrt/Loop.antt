-- ===== src/Math/Damm/Sqrt/Loop.antt =====
-- math/damm/utils_math.go: what the loop of `SqrtU256` finds.
use mathlib.Core.Path.{subst}
use soldex.Base.{
  ℕ, zero, suc, ◌+◌, ◌-◌, ◌*◌, ◌/◌, ◌^◌, ◌≤◌, ◌<◌, ◌≡◌, refl, sym, ap, ◌∙◌, inl, inr, arith, some,
  leb, Bool-cases, leb→le, leb→lt,
}
use soldex.Math.Damm.Sqrt.{sqrt_loop}

sqrt_loop-done : (fuel n result : ℕ) → 0 < fuel → sqrt_loop fuel 0 n result ≡ some result
unfolding sqrt_loop
sqrt_loop-done zero n result h = absurd (omega arith)
sqrt_loop-done (suc fuel) n result h = refl

sqrt_loop-taken :
    (fuel bit n result : ℕ)
    → 0 < bit
    → result + bit ≤ n
    → sqrt_loop (suc fuel) bit n result
      ≡ sqrt_loop fuel (bit / 4) (n - (result + bit)) (result / 2 + bit)
unfolding sqrt_loop
sqrt_loop-taken fuel bit n result h k = ground arith

sqrt_loop-passed :
    (fuel bit n result : ℕ)
    → 0 < bit
    → n < result + bit
    → sqrt_loop (suc fuel) bit n result ≡ sqrt_loop fuel (bit / 4) n (result / 2)
unfolding sqrt_loop
sqrt_loop-passed fuel bit n result h k = ground arith

-- `s` is the root of `r * r + n` that the loop finds from the root `r` and the bit `p * p`.
pub record IsRoot (r n p s : ℕ) : Type 0 where
  pub below : s * s ≤ r * r + n
  pub short : s < r + 2 * p
  pub above : r * r + n < (r + 2 * p) * (r + 2 * p) → r * r + n < (s + 1) * (s + 1)

IsRoot-taken :
    (r n p q s : ℕ)
    → p ≡ 2 * q
    → 2 * r * p + p * p ≤ n
    → IsRoot (r + p) (n - (2 * r * p + p * p)) q s
    → IsRoot r n p s
IsRoot-taken r n p q s e h root =
    let square : (r + p) * (r + p) + (n - (2 * r * p + p * p)) ≡ r * r + n = grind arith in
    let reach : (r + p) + 2 * q ≡ r + 2 * p = omega arith in
    record {
      below = rw square at (root.below);
      short = omega (arith, root.short);
      above = rw (square, reach) at (root.above);
    }

IsRoot-passed :
    (r n p q s : ℕ) → p ≡ 2 * q → n < 2 * r * p + p * p → IsRoot r n q s → IsRoot r n p s
IsRoot-passed r n p q s e h root =
    let reach : r + 2 * q ≡ r + p = omega arith in
    let square : r * r + n < (r + p) * (r + p) = grind arith in
    record {
      below = root.below;
      short = omega (arith, root.short);
      above = λ _. rw reach at (root.above) square;
    }

-- The next bit, and half of the result with and without the bit, which is twice the product of the
-- root so far and `p` again.
quarter : (p q : ℕ) → p ≡ 2 * q → p * p / 4 ≡ q * q
quarter p q e =
    let square : 2 * q * (2 * q) ≡ 4 * (q * q) = omega arith in
    subst (λ n. n * n / 4 ≡ q * q) (sym e) (omega arith)

half_passed : (r p q : ℕ) → p ≡ 2 * q → 2 * r * p / 2 ≡ 2 * r * q
half_passed r p q e =
    let product : 2 * r * (2 * q) ≡ 2 * (2 * (r * q)) = omega arith in
    subst (λ n. 2 * r * n / 2 ≡ 2 * r * q) (sym e) (omega arith)

half_taken : (r p q : ℕ) → p ≡ 2 * q → 2 * r * p / 2 + p * p ≡ 2 * (r + p) * q
half_taken r p q e =
    let half = half_passed r p q e in
    let rest : p * p ≡ 2 * p * q = subst (λ n. n * n ≡ 2 * n * q) (sym e) (omega arith) in
    omega arith

pub pow_suc : (k : ℕ) → 2 ^ (suc k) ≡ 2 * 2 ^ k
pow_suc k = omega arith

pub pow_pos : (k : ℕ) → 0 < 2 ^ k
pow_pos zero = omega arith
pow_pos (suc k) = omega (arith, pow_pos k, pow_suc k)

unfoldable pub Finds : ℕ → ℕ → ℕ → ℕ → Type 0
Finds fuel r n p = (s : ℕ) × (sqrt_loop fuel (p * p) n (2 * r * p) ≡ some s) × IsRoot r n p s

Finds-taken :
    (fuel r n p q : ℕ)
    → 0 < p
    → p ≡ 2 * q
    → 2 * r * p + p * p ≤ n
    → Finds fuel (r + p) (n - (2 * r * p + p * p)) q
    → Finds (suc fuel) r n p
unfolding Finds
Finds-taken fuel r n p q positive e h (s, found, root) = (
  s,
  sqrt_loop-taken fuel (p * p) n (2 * r * p) (grind arith) h
      ∙ ap (λ b. sqrt_loop fuel b (n - (2 * r * p + p * p)) (2 * r * p / 2 + p * p)) (quarter p q e)
      ∙ ap (sqrt_loop fuel (q * q) (n - (2 * r * p + p * p))) (half_taken r p q e)
      ∙ found,
  IsRoot-taken r n p q s e h root,
)

Finds-passed :
    (fuel r n p q : ℕ)
    → 0 < p
    → p ≡ 2 * q
    → n < 2 * r * p + p * p
    → Finds fuel r n q
    → Finds (suc fuel) r n p
unfolding Finds
Finds-passed fuel r n p q positive e h (s, found, root) = (
  s,
  sqrt_loop-passed fuel (p * p) n (2 * r * p) (grind arith) h
      ∙ ap (λ b. sqrt_loop fuel b n (2 * r * p / 2)) (quarter p q e)
      ∙ ap (sqrt_loop fuel (q * q) n) (half_passed r p q e)
      ∙ found,
  IsRoot-passed r n p q s e h root,
)

-- The last bit is one.
Finds-last : (fuel r n : ℕ) → 0 < fuel → Finds (suc fuel) r n 1
unfolding Finds
Finds-last fuel r n h = elim (Bool-cases (leb (2 * r * 1 + 1 * 1) n)) [
  | inl taken ↦
      let le = leb→le _ _ taken in
      (
        r + 1,
        sqrt_loop-taken fuel 1 n (2 * r * 1) (omega arith) le
            ∙ sqrt_loop-done fuel _ _ h
            ∙ ap some (omega arith),
        record { below = grind arith; short = omega arith; above = λ k. grind arith },
      )
  | inr passed ↦
      let lt = leb→lt _ _ passed in
      (
        r,
        sqrt_loop-passed fuel 1 n (2 * r * 1) (omega arith) lt
            ∙ sqrt_loop-done fuel _ _ h
            ∙ ap some (omega arith),
        record { below = omega arith; short = omega arith; above = λ k. grind arith },
      )
]

pub finds : (k fuel r n : ℕ) → k + 2 ≤ fuel → Finds fuel r n (2 ^ k)
finds k zero r n h = absurd (omega arith)
finds zero (suc fuel) r n h = Finds-last fuel r n (omega arith)
finds (suc k) (suc fuel) r n h =
    let p = 2 ^ (suc k) in
    elim (Bool-cases (leb (2 * r * p + p * p) n)) [
      | inl taken ↦
          Finds-taken fuel r n p (2 ^ k) (pow_pos (suc k)) (pow_suc k) (leb→le _ _ taken)
            (finds k fuel (r + p) (n - (2 * r * p + p * p)) (omega arith))
      | inr passed ↦
          Finds-passed fuel r n p (2 ^ k) (pow_pos (suc k)) (pow_suc k) (leb→lt _ _ passed)
            (finds k fuel r n (omega arith))
    ]
