-- ===== src/Quote/Constant/Product.antt =====
-- The curve x * y = k, rounded down, that the constant-product venues share: what it keeps and that
-- it is monotone. No code of its own.
use soldex.Base.{ℕ, zero, suc, ◌+◌, ◌-◌, ◌*◌, ◌/◌, ◌%◌, ◌≤◌, ◌<◌, ◌≡◌, arith}
use native.Mathlib.Nat.{mul-le-mul_right, mul-le-mul_left, mul-le-mul}
use soldex.Base.Words.{u64_mod}
use soldex.Base.Division.{ceil_div, ceil_div_bounds, ceil_div-le, div_bounds, le_of_scaled, le-div}

-- An amount in against an amount out: the reserve covers the output, and the product of the reserves
-- does not fall.
abbrev pub KeepsProduct : (reserve_in reserve_out amount_in amount_out : ℕ) → Type 0
KeepsProduct reserve_in reserve_out amount_in amount_out =
    (amount_out ≤ reserve_out)
    × (reserve_in * reserve_out ≤ (reserve_in + amount_in) * (reserve_out - amount_out))

-- With `rest` what is left of the reserve.
keeps_rest :
    (src net out rest : ℕ)
    → out * (src + net) ≤ (out + rest) * net
    → src * (out + rest) ≤ (src + net) * rest
keeps_rest src net out rest h = omega arith

div-le_of_num : (dst net den : ℕ) → 0 < den → net ≤ den → dst * net / den ≤ dst
div-le_of_num dst net den h k =
    le_of_scaled (dst * net / den) dst den
      (omega (arith, (div_bounds (dst * net) den h).0, mul-le-mul_left dst k))

-- The curve keeps the product.
pub curve-KeepsProduct :
    (src dst net : ℕ) → 0 < src + net → KeepsProduct src dst net (dst * net / (src + net))
curve-KeepsProduct src dst net h =
    let out = dst * net / (src + net) in
    let (low, _) = div_bounds (dst * net) (src + net) h in
    let le = div-le_of_num dst net (src + net) h (omega arith) in
    let sum : out + (dst - out) ≡ dst = omega arith in
    (le, rw sum at (keeps_rest src net out (dst - out) (rw sum low)))

-- With no reserve and no input too.
pub curve-le : (src dst net : ℕ) → dst * net / (src + net) ≤ dst
curve-le zero dst zero = grind arith
curve-le zero dst (suc net) = (curve-KeepsProduct zero dst (suc net) (omega arith)).0
curve-le (suc src) dst net = (curve-KeepsProduct (suc src) dst net (omega arith)).0

pub curve-KeepsProduct_all : (src dst net : ℕ) → KeepsProduct src dst net (dst * net / (src + net))
curve-KeepsProduct_all zero dst zero = (curve-le zero dst zero, omega arith)
curve-KeepsProduct_all zero dst (suc net) = curve-KeepsProduct zero dst (suc net) (omega arith)
curve-KeepsProduct_all (suc src) dst net = curve-KeepsProduct (suc src) dst net (omega arith)

-- Giving less for more keeps it too.
pub KeepsProduct-less :
    (src dst net amount out out' : ℕ)
    → net ≤ amount
    → out' ≤ out
    → KeepsProduct src dst net out
    → KeepsProduct src dst amount out'
KeepsProduct-less src dst net amount out out' h k (le, keeps) = (
  omega arith,
  let grows : (src + net) * (dst - out) ≤ (src + amount) * (dst - out') =
        mul-le-mul (omega arith) (omega arith) in
      omega arith,
)

pub KeepsProduct-zero : (src dst amount : ℕ) → KeepsProduct src dst amount 0
KeepsProduct-zero src dst amount =
    (omega arith, mul-le-mul {n₁ = src} {m₁ = dst} (omega arith) (omega arith))

-- More input gives no less.
pub curve_mono :
    (src dst net net' : ℕ)
    → 0 < src + net
    → net ≤ net'
    → dst * net / (src + net) ≤ dst * net' / (src + net')
curve_mono src dst net net' h k =
    let out = dst * net / (src + net) in
    let le = div-le_of_num dst net (src + net) h (omega arith) in
    let more = net' - net in
    let sum : net + more ≡ net' = omega arith in
    let scaled : out * more ≤ dst * more = mul-le-mul_right more le in
    rw (← sum) (
      le-div (dst * (net + more)) (src + (net + more)) out (omega arith)
        (omega (arith, (div_bounds (dst * net) (src + net) h).0)))

-- What a fee of rate r / d, rounded up, leaves.
pub net_mono :
    (a b r d : ℕ) → 0 < d → r ≤ d → a ≤ b → a - ceil_div (a * r) d ≤ b - ceil_div (b * r) d
net_mono a b r d h k l =
    let fee = ceil_div (a * r) d in
    let more = b - a in
    let sum : a + more ≡ b = omega arith in
    let scaled : more * r ≤ more * d = mul-le-mul_left more k in
    let le : ceil_div ((a + more) * r) d ≤ fee + more =
      ceil_div-le ((a + more) * r) d (fee + more) h
        (omega (arith, (ceil_div_bounds (a * r) d h).0)) in
    omega (arith, rw sum at le)

-- `.Uint64()` on a number that may not fit, and on one that does.
pub low_word : (n : ℕ) → n % u64_mod ≤ n
low_word n = omega arith

pub low_word_exact : (n m : ℕ) → n ≤ m → m < u64_mod → n % u64_mod ≡ n
low_word_exact n m h k = omega arith

pub curve_mono_all :
    (src dst net net' : ℕ) → net ≤ net' → dst * net / (src + net) ≤ dst * net' / (src + net')
curve_mono_all src dst zero net' h = grind arith
curve_mono_all src dst (suc net) net' h = curve_mono src dst (suc net) net' (omega arith) h
