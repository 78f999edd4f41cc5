-- ===== src/Quote/Dlmm/Bin/Price.antt =====
-- quote/dlmm/bin_quote.go: the amounts that a price gives, in and out.
use soldex.Base.{ℕ, suc, ◌*◌, ◌^◌, ◌≤◌, ◌<◌, ◌≡◌, arith, Bool, true, false, ok}
use native.Mathlib.Nat.{mul-le-mul_right}
use soldex.Base.Words.{u64_mod}
use soldex.Base.Division.{le_of_scaled}
use soldex.Math.Common.{nat}
use soldex.Math.Dlmm.MulDiv.{rounding_up, rounding_down}
use soldex.Math.Dlmm.MulDiv.Rounds.{safe_shl_div_cast-ok, safe_mul_shr_cast-ok}
use soldex.Quote.Dlmm.Bin.{get_max_amount_in, get_amount_out_from_amount_in}

-- The input is worth at least the output, at `price` / 2 ^ 64 of y for one x.
abbrev pub Pays : Bool → (price amount_in amount_out : ℕ) → Type 0
Pays true price amount_in amount_out = amount_out * 2 ^ 64 ≤ amount_in * price
Pays false price amount_in amount_out = amount_out * price ≤ amount_in * 2 ^ 64

pub get_max_amount_in-ok :
    (out price : ℕ) (swap_for_y : Bool) {v : ℕ}
    → get_max_amount_in out (nat price) swap_for_y ≡ ok v
    → Pays swap_for_y price v out × (v < u64_mod)
unfolding get_max_amount_in
get_max_amount_in-ok out price true h =
    let (_, rounds, small) = safe_shl_div_cast-ok 64 out price rounding_up h in (omega arith, small)
get_max_amount_in-ok out price false h =
    let (rounds, small) = safe_mul_shr_cast-ok 64 out price rounding_up h in (omega arith, small)

pub get_amount_out-ok :
    (amount price : ℕ) (swap_for_y : Bool) {v : ℕ}
    → get_amount_out_from_amount_in amount (nat price) swap_for_y ≡ ok v
    → Pays swap_for_y price amount v × (v < u64_mod)
unfolding get_amount_out_from_amount_in
get_amount_out-ok amount price true h =
    let (rounds, small) = safe_mul_shr_cast-ok 64 price amount rounding_down h in
    (omega arith, small)
get_amount_out-ok amount price false h =
    let (_, rounds, small) = safe_shl_div_cast-ok 64 amount price rounding_down h in
    (omega arith, small)

-- A smaller output is paid for too.
pub Pays-le :
    (swap_for_y : Bool) (price i o o' : ℕ)
    → Pays swap_for_y price i o
    → o' ≤ o
    → Pays swap_for_y price i o'
Pays-le true price i o o' h k = grind arith
Pays-le false price i o o' h k = grind arith

-- More input pays too.
pub Pays-mono :
    (swap_for_y : Bool) (price i i' o : ℕ)
    → i ≤ i'
    → Pays swap_for_y price i o
    → Pays swap_for_y price i' o
Pays-mono true price i i' o h k = omega (arith, mul-le-mul_right price h)
Pays-mono false price i i' o h k = omega arith

-- Less than the input that empties the bin does not buy more than the bin holds.
pub get_amount_out-le :
    (max_out price net : ℕ) (swap_for_y : Bool) {max_in out : ℕ}
    → get_max_amount_in max_out (nat price) swap_for_y ≡ ok max_in
    → get_amount_out_from_amount_in net (nat price) swap_for_y ≡ ok out
    → net < max_in
    → out ≤ max_out
unfolding get_max_amount_in get_amount_out_from_amount_in
get_amount_out-le max_out price net true {max_in} {out} h k lt =
    let (_, up, _) = safe_shl_div_cast-ok 64 max_out price rounding_up h in
    let (down, _) = safe_mul_shr_cast-ok 64 price net rounding_down k in
    let scaled : suc net * price ≤ max_in * price = mul-le-mul_right price lt in omega arith
get_amount_out-le max_out price net false {max_in} {out} h k lt =
    let (up, _) = safe_mul_shr_cast-ok 64 max_out price rounding_up h in
    let (positive, down, _) = safe_shl_div_cast-ok 64 net price rounding_down k in
    le_of_scaled out max_out price (omega arith)
