-- ===== src/Quote/Raydium/State/Books.antt =====
-- quote/raydium/limit_order.go: what a booked fill changes, and when it is booked.
use mathlib.Core.Path.{subst}
use soldex.Base.{
  ℕ, ◌+◌, ◌-◌, ◌≤◌, ◌≡◌, refl, sym, ap, ◌∙◌, ◌↔◌, arith, Bool, true, false, none, some, ltb,
  if◌then◌else◌, ok, fail_if-ok, amount_overflow, >>=-eq-ok, ok-injective, ltb→le,
}
use soldex.Base.Int.{pos, negsuc}
use soldex.Base.Words.{max_u64}
use soldex.Math.Common.{BigInt, nat}
use soldex.Quote.Raydium.State.{SwapState, to_u64, consumed_input, apply}

-- What any booking leaves as it is, and the input that it never adds.
pub record Books (s s' : SwapState) : Type 0 where
  pub remaining : s'.amount_remaining ≤ s.amount_remaining
  pub out : s.amount_out ≤ s'.amount_out
  pub fits : s.amount_out ≤ max_u64 → s'.amount_out ≤ max_u64
  pub same_price : s'.sqrt_price ≡ s.sqrt_price
  pub same_liquidity : s'.liquidity ≡ s.liquidity
  pub same_tick : s'.tick ≡ s.tick
  pub same_rate : s'.base_fee_rate ≡ s.base_fee_rate
  pub same_dyn : s'.dyn ≡ s.dyn

pub Books-self : (s : SwapState) → Books s s
Books-self s = record {
  remaining = omega arith;
  out = omega arith;
  fits = λ h. h;
  same_price = refl;
  same_liquidity = refl;
  same_tick = refl;
  same_rate = refl;
  same_dyn = refl;
}

-- The amount that a fill draws from the input.
abbrev pub drawn : Bool → ℕ → ℕ → ℕ
drawn on_input amount_in fee = amount_in + (if on_input then fee else 0)

pub to_u64-ok : (n : ℕ) {v : ℕ} → to_u64 (nat n) ≡ ok v → (v ≡ n) × (n ≤ max_u64)
unfolding to_u64
to_u64-ok n h = ground arith

pub to_u64-of_le : (n : ℕ) → n ≤ max_u64 → to_u64 (nat n) ≡ ok n
unfolding to_u64
to_u64-of_le n h = ground arith

-- The state that a booking of `used` and `given` leaves.
abbrev pub booked : SwapState → ℕ → ℕ → SwapState
booked s used given = record s {
  amount_remaining = s.amount_remaining - used;
  amount_out = s.amount_out + given;
}

apply-steps :
    (s : SwapState) (a b c : BigInt) (on_input : Bool) {s' : SwapState}
    → apply s a b c on_input ≡ ok s'
    → (i : ℕ) × (used : ℕ) × (given : ℕ) × (to_u64 a ≡ ok i)
      × (consumed_input i c on_input ≡ ok used)
      × (to_u64 b ≡ ok given)
      × (used ≤ s.amount_remaining)
      × (s.amount_out ≤ max_u64 - given)
      × (booked s used given ≡ s')
unfolding apply
apply-steps s a b c on_input {s'} h =
    let (i, e₁, h₁) = >>=-eq-ok (to_u64 a) _ h in
    let (used, e₂, h₂) = >>=-eq-ok (consumed_input i c on_input) _ h₁ in
    let (t₁, h₃) = fail_if-ok (ltb s.amount_remaining used) amount_overflow _ h₂ in
    let (given, e₃, h₄) = >>=-eq-ok (to_u64 b) _ h₃ in
    let (t₂, h₅) = fail_if-ok (ltb (max_u64 - given) s.amount_out) amount_overflow _ h₄ in
    (i, used, given, e₁, e₂, e₃, ltb→le _ _ t₁, ltb→le _ _ t₂, ok-injective h₅)

u64-le : (b : BigInt) {v : ℕ} → to_u64 b ≡ ok v → v ≤ max_u64
unfolding to_u64
u64-le none h = ground arith
u64-le (some (pos n)) h = ground arith
u64-le (some (negsuc n)) h = cc

pub apply-Books :
    (s : SwapState) (a b c : BigInt) (on_input : Bool) {s' : SwapState}
    → apply s a b c on_input ≡ ok s'
    → Books s s'
apply-Books s a b c on_input h =
    let (i, used, given, e₁, e₂, e₃, le, fits, same) = apply-steps s a b c on_input h in
    subst (Books s) same (record {
      remaining = omega arith;
      out = omega arith;
      fits = λ h. omega (arith, u64-le b e₃);
      same_price = refl;
      same_liquidity = refl;
      same_tick = refl;
      same_rate = refl;
      same_dyn = refl;
    })

consumed_input-ok :
    (i fee : ℕ) (on_input : Bool) {used : ℕ}
    → consumed_input i (nat fee) on_input ≡ ok used
    → used ≡ drawn on_input i fee
unfolding consumed_input to_u64
consumed_input-ok i fee true h = ground arith
consumed_input-ok i fee false h = ground arith

consumed_input-of_le :
    (i fee : ℕ) (on_input : Bool)
    → drawn on_input i fee ≤ max_u64
    → consumed_input i (nat fee) on_input ≡ ok (drawn on_input i fee)
unfolding consumed_input to_u64
consumed_input-of_le i fee true h = ground arith
consumed_input-of_le i fee false h = ground arith

-- Where a booking of natural amounts succeeds, the input loses what is drawn, and the output gains.
pub apply-ok :
    (s : SwapState) (i o fee : ℕ) (on_input : Bool) {s' : SwapState}
    → apply s (nat i) (nat o) (nat fee) on_input ≡ ok s'
    → (drawn on_input i fee ≤ s.amount_remaining)
      × (s.amount_out + o ≤ max_u64)
      × (booked s (drawn on_input i fee) o ≡ s')
apply-ok s i o fee on_input h =
    let (i', used, given, e₁, e₂, e₃, le, fits, same) =
      apply-steps s (nat i) (nat o) (nat fee) on_input h in
    let (same_i, _) = to_u64-ok i e₁ in
    let (same_o, small) = to_u64-ok o e₃ in
    let used_eq : used ≡ drawn on_input i fee =
      consumed_input-ok i fee on_input (rw same_i at e₂) in
    (
      omega arith,
      omega arith,
      ap (λ n. booked s n o) (sym used_eq) ∙ ap (booked s used) (sym same_o) ∙ same,
    )

-- With the fee on the output, the input loses the amount alone.
pub apply-net :
    (s : SwapState) (i : ℕ) (b c : BigInt) {s' : SwapState}
    → apply s (nat i) b c false ≡ ok s'
    → (i ≤ s.amount_remaining) × (s'.amount_remaining ≡ s.amount_remaining - i)
unfolding consumed_input
apply-net s i b c h =
    let (i', used, given, e₁, e₂, e₃, le, fits, same) = apply-steps s (nat i) b c false h in
    let (same_i, _) = to_u64-ok i e₁ in
    let used_eq = ok-injective e₂ in
    (omega arith, ap (λ t. t.amount_remaining) (sym same) ∙ omega arith)

apply-of_fits :
    (s : SwapState) (i o fee : ℕ) (on_input : Bool)
    → s.amount_remaining ≤ max_u64
    → drawn on_input i fee ≤ s.amount_remaining
    → s.amount_out + o ≤ max_u64
    → apply s (nat i) (nat o) (nat fee) on_input ≡ ok (booked s (drawn on_input i fee) o)
unfolding apply
apply-of_fits s i o fee on_input u64 within fits =
    let used = drawn on_input i fee in
    let in_range : ltb s.amount_remaining used ≡ false = ground arith in
    let out_range : ltb (max_u64 - o) s.amount_out ≡ false = ground arith in
    rw
      (
        to_u64-of_le i (omega arith),
        consumed_input-of_le i fee on_input (omega arith),
        in_range,
        to_u64-of_le o (omega arith),
        out_range,
      )
      refl

-- A fill of natural amounts is booked, from a uint64 input, exactly if what it draws, the fee included
-- where that is on the input, is within the input and the output stays a uint64; and then the input
-- loses what is drawn, the output gains the amount given, and nothing else changes.
pub apply_iff :
    (s s' : SwapState) (i o fee : ℕ) (on_input : Bool)
    → s.amount_remaining ≤ max_u64
    → (apply s (nat i) (nat o) (nat fee) on_input ≡ ok s') ↔ (
        (drawn on_input i fee ≤ s.amount_remaining)
        × (s.amount_out + o ≤ max_u64)
        × (booked s (drawn on_input i fee) o ≡ s'))
apply_iff s s' i o fee on_input u64 = (
  λ h. apply-ok s i o fee on_input h,
  λ (within, fits, same). apply-of_fits s i o fee on_input u64 within fits ∙ ap ok same,
)
