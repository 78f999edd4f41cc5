-- ===== src/Base/Outcome.antt =====
-- Fallible code: a value or one of the repository's error values.
use Prim.Native.Nat.{ℕ}
use mathlib.Core.Path.{◌≡◌, refl}
use mathlib.Core.Logic.{◌⊎◌, inl, inr}
use mathlib.Core.Option
use mathlib.Core.Option.{Option, none, some}
use mathlib.Core.Bool.{Bool, true, false}

-- The sentinel errors, `Err…` in the packages; `unsupported_curve` and `unknown_creator_fee_on` carry
-- the byte that `fmt.Errorf` prints; `owes_more_pnl` is the error of `NetReserves`, and
-- `pool_not_quotable` stands for all errors that wrap `ErrPoolNotQuotable`. `panicked` stands for a Go
-- panic (a division by zero, a nil pointer, a bad index), which nothing in the repository recovers.
pub data Error : Type 0 where
  math_overflow divide_by_zero type_cast_failed negative_value : Error
  zero_output insufficient_liquidity price_range_violation compounding_pool : Error
  unsupported_base_fee_mode rate_limiter_needs_amount not_rate_limiter value_out_of_range : Error
  orca_divide_by_zero sqrt_price_out_of_bounds : Error
  invalid_pool amount_overflow negative_liquidity swap_disabled insufficient_data
        invalid_discriminator panicked :
      Error
  owes_more_pnl pool_not_quotable : Error
  unsupported_curve unknown_creator_fee_on : ℕ → Error

pub data Result {ℓ} (T : Type ℓ) : Type ℓ where
  err : Error → Result T
  ok : T → Result T

pub ok-injective {ℓ} : {T : Type ℓ} {x y : T} → ok x ≡ ok y → x ≡ y
ok-injective same = cc

pub some-injective {ℓ} : {T : Type ℓ} {x y : T} → some x ≡ some y → x ≡ y
some-injective same = cc

pub Result-cases {ℓ} :
    {T : Type ℓ} (r : Result T) → ((x : T) × (r ≡ ok x)) ⊎ ((e : Error) × (r ≡ err e))
Result-cases (ok x) = inl (x, refl)
Result-cases (err e) = inr (e, refl)

-- `if test { return …, e }`
abbrev pub fail_if : Bool → Error → Result (Unit {0})
fail_if false _ = ok tt
fail_if true e = err e

-- `x, err := …; if err != nil { return …, err }`
infixl 5 ◌>>=◌
abbrev pub ◌>>=◌ {ℓ κ} : {T : Type ℓ} {U : Type κ} → Result T → (T → Result U) → Result U
err e >>= _ = err e
ok x >>= rest = rest x

-- A chain that ends well ran each of its links.
pub >>=-eq-ok {ℓ κ} :
    {T : Type ℓ} {U : Type κ} (r : Result T) (rest : T → Result U) {y : U}
    → (r >>= rest) ≡ ok y
    → (x : T) × (r ≡ ok x) × (rest x ≡ ok y)
>>=-eq-ok (err e) rest done = cc
>>=-eq-ok (ok x) rest done = (x, refl, done)

infixl 5 ◌>>◌
abbrev pub ◌>>◌ {κ} : {U : Type κ} → Result (Unit {0}) → Result U → Result U
check >> rest = check >>= λ _. rest

-- A guard that is passed.
pub fail_if-ok {ℓ} :
    {T : Type ℓ} (t : Bool) (e : Error) (r : Result T) {v : T}
    → (fail_if t e >> r) ≡ ok v
    → (t ≡ false) × (r ≡ ok v)
fail_if-ok true e r h = cc
fail_if-ok false e r h = (refl, h)

-- A result under `Option.map`.
pub map-some {ℓ κ} :
    {A : Type ℓ} {B : Type κ} (f : A → B) (o : Option A) {b : B}
    → Option.map f o ≡ some b
    → (a : A) × (o ≡ some a) × (f a ≡ b)
map-some f none h = cc
map-some f (some a) h = (a, refl, some-injective h)
