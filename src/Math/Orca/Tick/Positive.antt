-- ===== src/Math/Orca/Tick/Positive.antt =====
-- math/orca/tick_math.go: no tick has the price zero.
use soldex.Base.{
  ℕ, ◌+◌, ◌*◌, ◌/◌, ◌%◌, ◌^◌, ◌≤◌, ◌<◌, ◌≡◌, refl, arith, Bool, true, false, ◌&&◌, List, [], ◌∷◌,
  leb, ◌==◌, if◌then◌else◌, leb→le,
}
use native.Mathlib.Nat.{mul-le-mul_left, mul-le-mul_right}
use soldex.Base.Int.{ℤ, pos, negsuc}
use soldex.Base.Division.{div_bounds, le-div, le_of_scaled}
use soldex.Math.Orca.Tick.{
  positive_odd_seed, positive_tick_multipliers, negative_odd_seed, negative_tick_multipliers,
  mul_shift, fold_bits, sqrt_price_positive_tick, sqrt_price_negative_tick,
  sqrt_price_from_tick_index,
}

-- Each number is at least the bound, or at most.
all_ge : ℕ → List ℕ → Bool
all_ge bound [] = true
all_ge bound (m ∷ ms) = leb bound m && all_ge bound ms

all_le : ℕ → List ℕ → Bool
all_le bound [] = true
all_le bound (m ∷ ms) = leb m bound && all_le bound ms

-- The product with all multipliers, the least that the rounds can find for multipliers of at most one.
all_bits : (shift : ℕ) → List ℕ → ℕ → ℕ
all_bits shift [] ratio = ratio
all_bits shift (m ∷ ms) ratio = all_bits shift ms (mul_shift ratio m shift)

mul_shift-ge : (r m shift : ℕ) → 0 < 2 ^ shift → 2 ^ shift ≤ m → r ≤ mul_shift r m shift
unfolding mul_shift
mul_shift-ge r m shift base h = le-div (r * m) (2 ^ shift) r base (mul-le-mul_left r h)

mul_shift-le : (r m shift : ℕ) → 0 < 2 ^ shift → m ≤ 2 ^ shift → mul_shift r m shift ≤ r
unfolding mul_shift
mul_shift-le r m shift base h =
    let (low, _) = div_bounds (r * m) (2 ^ shift) base in
    let up = mul-le-mul_left r h in
    le_of_scaled (r * m / 2 ^ shift) r (2 ^ shift) (omega (arith, low, up, base))

mul_shift_mono :
    (r s m shift : ℕ) → 0 < 2 ^ shift → r ≤ s → mul_shift r m shift ≤ mul_shift s m shift
unfolding mul_shift
mul_shift_mono r s m shift base h =
    let (low, _) = div_bounds (r * m) (2 ^ shift) base in
    le-div (s * m) (2 ^ shift) (r * m / 2 ^ shift) base (omega (arith, low, mul-le-mul_right m h))

and_true : (a b : Bool) → (a && b) ≡ true → (a ≡ true) × (b ≡ true)
and_true a b h = ground arith

if-le : (t : Bool) (n a b : ℕ) → n ≤ a → n ≤ b → n ≤ (if t then a else b)
if-le true n a b h k = h
if-le false n a b h k = k

if-le_right : (t : Bool) (n a : ℕ) → n ≤ a → n ≤ (if t then a else n)
if-le_right t n a h = if-le t n a n h (omega arith)

fold_bits-ge :
    (shift : ℕ) (ms : List ℕ) (abs ratio : ℕ)
    → 0 < 2 ^ shift
    → all_ge (2 ^ shift) ms ≡ true
    → ratio ≤ fold_bits shift ms abs ratio
unfolding fold_bits all_ge
fold_bits-ge shift [] abs ratio base all = omega arith
fold_bits-ge shift (m ∷ ms) abs ratio base all =
    let (here, there) = and_true (leb (2 ^ shift) m) (all_ge (2 ^ shift) ms) all in
    let next = if (abs % 2) == 1 then mul_shift ratio m shift else ratio in
    let grown : ratio ≤ next =
      if-le_right ((abs % 2) == 1) ratio (mul_shift ratio m shift)
        (mul_shift-ge ratio m shift base (leb→le _ _ here)) in
    omega (arith, grown, fold_bits-ge shift ms (abs / 2) next base there)

fold_bits-all :
    (shift : ℕ) (ms : List ℕ) (abs low ratio : ℕ)
    → 0 < 2 ^ shift
    → all_le (2 ^ shift) ms ≡ true
    → low ≤ ratio
    → all_bits shift ms low ≤ fold_bits shift ms abs ratio
unfolding fold_bits all_le all_bits
fold_bits-all shift [] abs low ratio base all h = h
fold_bits-all shift (m ∷ ms) abs low ratio base all h =
    let (here, there) = and_true (leb m (2 ^ shift)) (all_le (2 ^ shift) ms) all in
    let next = if (abs % 2) == 1 then mul_shift ratio m shift else ratio in
    let m_le : m ≤ 2 ^ shift = leb→le m (2 ^ shift) here in
    let kept : mul_shift low m shift ≤ next =
      if-le ((abs % 2) == 1) (mul_shift low m shift) (mul_shift ratio m shift) ratio
        (mul_shift_mono low ratio m shift base h)
        (omega (arith, mul_shift-le low m shift base m_le)) in
    fold_bits-all shift ms (abs / 2) (mul_shift low m shift) next base there kept

least : 0 < all_bits 64 negative_tick_multipliers negative_odd_seed
unfolding all_bits mul_shift
least = omega arith

positive_tick : (n : ℕ) → 0 < sqrt_price_positive_tick n
unfolding sqrt_price_positive_tick all_ge
positive_tick n =
    let seed = if (n % 2) == 1 then positive_odd_seed else 2 ^ 96 in
    let large : 2 ^ 96 ≤ seed =
      if-le ((n % 2) == 1) (2 ^ 96) positive_odd_seed (2 ^ 96) (omega arith) (omega arith) in
    let grown = fold_bits-ge 96 positive_tick_multipliers (n / 2) seed (omega arith) refl in
    omega (arith, large, grown)

negative_tick : (n : ℕ) → 0 < sqrt_price_negative_tick n
unfolding sqrt_price_negative_tick all_le
negative_tick n =
    let seed = if (n % 2) == 1 then negative_odd_seed else 2 ^ 64 in
    let large : negative_odd_seed ≤ seed =
      if-le ((n % 2) == 1) negative_odd_seed negative_odd_seed (2 ^ 64) (omega arith)
        (omega arith) in
    let kept =
      fold_bits-all 64 negative_tick_multipliers (n / 2) negative_odd_seed seed (omega arith) refl
        large in
    omega (arith, least, kept)

-- The sqrt price of a tick, whichever it is, is not zero.
pub sqrt_price_from_tick_index-pos : (t : ℤ) → 0 < sqrt_price_from_tick_index t
unfolding sqrt_price_from_tick_index
sqrt_price_from_tick_index-pos (pos n) = positive_tick n
sqrt_price_from_tick_index-pos (negsuc n) = negative_tick (n + 1)
