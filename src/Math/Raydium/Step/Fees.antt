-- ===== src/Math/Raydium/Step/Fees.antt =====
-- math/raydium/swap_math.go: what a step draws, and the fee that it ends with.
use mathlib.Core.Path.{subst}
use native.Mathlib.Nat.{mul-le-mul_left}
use soldex.Base.{
  ℕ, ◌+◌, ◌-◌, ◌*◌, ◌/◌, ◌≤◌, ◌<◌, ◌≡◌, refl, sym, ap, inl, inr, arith, Bool, true, false, none,
  some, ltb, ◌==◌, if◌then◌else◌, ok, Bool-cases, ==→eq,
}
use soldex.Base.Int.{pos, sub_ℕ}
use soldex.Base.Words.{max_u64, u64_mod}
use soldex.Base.Division.{ceil_div, ceil_div-le, div_bounds, le_of_scaled}
use soldex.Math.Common.{nat}
use soldex.Math.Raydium.Liquidity.{ceil_quo}
use soldex.Math.Raydium.Liquidity.Orca.{ceil_quo-of_pos}
use soldex.Math.Raydium.Step.{
  SwapStep, fee_rate_denominator, fee_complement, amount_for_calc, reaches_target, big_of,
  input_fee, take_fee,
}
use soldex.Math.Raydium.Step.Amounts.{delta_in, delta_out}
use soldex.Math.Raydium.Step.Outcome.{usable, EndsAt, Draws}

pub complement_eq :
    (rate : ℕ) → rate < fee_rate_denominator → fee_complement rate ≡ fee_rate_denominator - rate
unfolding fee_complement
complement_eq rate h = omega arith

spread : (t x c r : ℕ) → t * (c + r) ≤ (x + t) * c → t * r ≤ x * c
spread t x c r h = omega arith

-- The fee that is added to an amount within the input less its fee stays within the input.
added_fee-le :
    (t rem rate c : ℕ)
    → c + rate ≡ fee_rate_denominator
    → 0 < c
    → t ≤ rem * c / fee_rate_denominator
    → t + ceil_div (t * rate) c ≤ rem
added_fee-le t rem rate c h pos_c le =
    let (low, _) = div_bounds (rem * c) fee_rate_denominator (omega arith) in
    let scaled : t * (c + rate) ≤ rem * c = rw h (omega arith) in
    let within : t ≤ rem = le_of_scaled t rem c (omega arith) in
    let whole : (rem - t) + t ≡ rem = omega arith in
    let rest : t * rate ≤ (rem - t) * c = spread t (rem - t) c rate (rw whole scaled) in
    omega (arith, ceil_div-le (t * rate) c (rem - t) pos_c rest)

pub kept_fee-le :
    (out rate : ℕ) → rate < fee_rate_denominator → ceil_div (out * rate) fee_rate_denominator ≤ out
kept_fee-le out rate h =
    ceil_div-le (out * rate) fee_rate_denominator out (omega arith)
      (mul-le-mul_left out (omega arith))

sub_exact : (a b : ℕ) → b ≤ a → sub_ℕ a b ≡ pos (a - b)
sub_exact a b h = ground arith

pub amount-le :
    (rem rate : ℕ) (on_input : Bool)
    → rate < fee_rate_denominator
    → amount_for_calc rem rate on_input ≤ rem
unfolding amount_for_calc
amount-le rem rate true h =
    let less =
      mul-le-mul_left {m = fee_rate_denominator - rate} {n = fee_rate_denominator} rem
        (omega arith) in
    rw (complement_eq rate h) (omega arith)
amount-le rem rate false h = omega arith

pub amount_for_calc-usable :
    (rem rate : ℕ) (on_input : Bool)
    → rate < fee_rate_denominator
    → amount_for_calc rem rate on_input ≡ usable rem rate on_input
unfolding amount_for_calc
amount_for_calc-usable rem rate true h = rw (complement_eq rate h) refl
amount_for_calc-usable rem rate false h = refl

pub apart :
    (current target q l a : ℕ) (z : Bool)
    → a < delta_in current target l z
    → delta_in current q l z ≤ a
    → target == q ≡ false
apart current target q l a z h k = elim (Bool-cases (target == q)) [
  | inl same ↦
      absurd
        (let le = subst (λ n. delta_in current n l z ≤ a) (sym (==→eq _ _ same)) k in omega arith)
  | inr other ↦ other
]

pub eq_self : (n : ℕ) → n == n ≡ true
eq_self n = ground arith

-- The amount to the target, where it is a uint64 and where it is more than the amount at hand.
pub target_reached :
    (t a : ℕ) → t ≤ a → a < u64_mod → (if ltb max_u64 t then none else some t) ≡ some t
target_reached t a h k = ground arith

pub target_missed :
    (t a : ℕ) → a < t → reaches_target (if ltb max_u64 t then none else some t) a ≡ false
unfolding reaches_target
target_missed t a h = elim (Bool-cases (ltb max_u64 t)) [
  | inl large ↦ rw large refl
  | inr small ↦ rw small (ground arith)
]

module _ (current target l rem rate : ℕ) (z : Bool) (rated : rate < fee_rate_denominator) where
  -- The step reaches the target for an amount `t`.
  pub take_fee-max :
      (on_input : Bool) (t out : ℕ)
      → 0 < target
      → t ≤ amount_for_calc rem rate on_input
      → t ≡ delta_in current target l z
      → out ≡ delta_out current target l z
      → (s : SwapStep) × (take_fee target rem rate on_input true (some t) out ≡ ok s)
        × Draws current target l rem rate z on_input s
  unfolding take_fee input_fee big_of amount_for_calc
  take_fee-max true t out pos_t le paid given =
      let c = fee_rate_denominator - rate in
      let fee = ceil_div (t * rate) c in
      let eq_c = complement_eq rate rated in
      let reached : target == target ≡ true = eq_self target in
      let run : ceil_quo (t * rate) (fee_complement rate) ≡ ok fee =
        rw eq_c (ceil_quo-of_pos (t * rate) c (omega arith)) in
      (
        record {
          sqrt_price_next = target;
          amount_in = nat t;
          amount_out = nat out;
          fee_amount = nat fee;
        },
        rw run refl,
        record {
          amount_in = t;
          amount_out = out;
          fee = fee;
          in_eq = refl;
          out_eq = refl;
          fee_eq = refl;
          positive = pos_t;
          drawn = added_fee-le t rem rate c (omega arith) (omega arith) (rw eq_c at le);
          moved = inl (refl, omega (arith, amount_for_calc-usable rem rate true rated));
          paid = paid;
          charged = rw reached refl;
          given = omega arith;
          covered = omega arith;
          ends = inl refl;
        },
      )
  take_fee-max false t out pos_t le paid given =
      let fee = ceil_div (out * rate) fee_rate_denominator in
      let reached : target == target ≡ true = eq_self target in
      let fits = kept_fee-le out rate rated in
      (
        record {
          sqrt_price_next = target;
          amount_in = nat t;
          amount_out = some (sub_ℕ out fee);
          fee_amount = nat fee;
        },
        rw (ceil_quo-of_pos (out * rate) fee_rate_denominator (omega arith)) refl,
        record {
          amount_in = t;
          amount_out = out - fee;
          fee = fee;
          in_eq = refl;
          out_eq = ap some (sub_exact out fee fits);
          fee_eq = refl;
          positive = pos_t;
          drawn = omega arith;
          moved = inl (refl, omega (arith, amount_for_calc-usable rem rate false rated));
          paid = rw reached (omega arith);
          charged = ap (λ n. ceil_div (n * rate) fee_rate_denominator) given;
          given = omega arith;
          covered = omega arith;
          ends = inl refl;
        },
      )

  -- The step stops before the target.
  pub take_fee-short :
      (on_input : Bool) (next t out : ℕ)
      → 0 < next
      → t ≤ rem
      → next == target ≡ false
      → EndsAt current target l (usable rem rate on_input) z next
      → t ≡ delta_in current next l z
      → out ≡ delta_out current next l z
      → (s : SwapStep) × (take_fee next rem rate on_input false (some t) out ≡ ok s)
        × Draws current target l rem rate z on_input s
  unfolding take_fee input_fee big_of
  take_fee-short true next t out pos_n le off moved paid given = (
    record {
      sqrt_price_next = next;
      amount_in = nat t;
      amount_out = nat out;
      fee_amount = some (sub_ℕ rem t);
    },
    refl,
    record {
      amount_in = t;
      amount_out = out;
      fee = rem - t;
      in_eq = refl;
      out_eq = refl;
      fee_eq = ap some (sub_exact rem t le);
      positive = pos_n;
      moved = moved;
      drawn = omega arith;
      paid = paid;
      charged = rw off refl;
      covered = omega arith;
      given = omega arith;
      ends = inr (omega arith);
    },
  )
  take_fee-short false next t out pos_n le off moved paid given =
      let fee = ceil_div (out * rate) fee_rate_denominator in
      let fits = kept_fee-le out rate rated in
      (
        record {
          sqrt_price_next = next;
          amount_in = nat rem;
          amount_out = some (sub_ℕ out fee);
          fee_amount = nat fee;
        },
        rw (ceil_quo-of_pos (out * rate) fee_rate_denominator (omega arith)) refl,
        record {
          amount_in = rem;
          amount_out = out - fee;
          fee = fee;
          in_eq = refl;
          out_eq = ap some (sub_exact out fee fits);
          fee_eq = refl;
          positive = pos_n;
          moved = moved;
          drawn = omega arith;
          paid = rw off refl;
          charged = ap (λ n. ceil_div (n * rate) fee_rate_denominator) given;
          covered = omega arith;
          given = omega arith;
          ends = inr (omega arith);
        },
      )
