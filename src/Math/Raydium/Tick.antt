-- ===== src/Math/Raydium/Tick.antt =====
-- math/raydium/tick_math.go: sqrt prices of ticks, and the fixed price of a limit order.
use soldex.Base.{
  ℕ, zero, suc, ◌+◌, ◌-◌, ◌*◌, ◌/◌, ◌%◌, ◌^◌, Bool, List, [], ◌∷◌, ltb, leb, ◌==◌, if◌then◌else◌,
  Result, ok, ◌>>=◌,
}
use soldex.Base.Int.{ℤ, pos, negsuc, nat_abs, sub_ℕ, ◌+ℤ◌, ◌-ℤ◌, ltb_ℤ, eqb_ℤ, wrap_i32}
use soldex.Base.Words.{max_u128}
use soldex.Math.Damm.MulDiv.{bit_len}
use soldex.Math.Raydium.Liquidity.{q64, quo, ceil_quo}

abbrev pub min_tick : ℤ
min_tick = negsuc 443_635

abbrev pub max_tick : ℤ
max_tick = pos 443_636

abbrev pub min_sqrt_price : ℕ
min_sqrt_price = 4_295_048_016

abbrev pub max_sqrt_price : ℕ
max_sqrt_price = 79_226_673_521_066_979_257_578_248_091

-- The multipliers of bits 1 to 18; that of bit 0 is a seed.
abbrev pub odd_seed : ℕ
odd_seed = 0xfffcb933bd6fb800

abbrev pub sqrt_price_magics : List ℕ
sqrt_price_magics =
    0xfff97272373d4000 ∷ 0xfff2e50f5f657000 ∷ 0xffe5caca7e10f000 ∷ 0xffcb9843d60f7000
    ∷ 0xff973b41fa98e800 ∷ 0xff2ea16466c9b000 ∷ 0xfe5dee046a9a3800 ∷ 0xfcbe86c7900bb000
    ∷ 0xf987a7253ac65800 ∷ 0xf3392b0822bb6000 ∷ 0xe7159475a2caf000 ∷ 0xd097f3bdfd2f2000
    ∷ 0xa9f746462d9f8000 ∷ 0x70d869a156f31c00 ∷ 0x31be135f97ed3200 ∷ 0x9aa508b5b85a500
    ∷ 0x5d6af8dedc582c ∷ 0x2216e584f5fa ∷ []

-- The rounds of the loop: `abs` is shifted right once for each bit that is done.
unfoldable pub ratio_loop : List ℕ → (abs ratio : ℕ) → ℕ
ratio_loop [] abs ratio = ratio
ratio_loop (magic ∷ magics) abs ratio =
    ratio_loop magics (abs / 2) (if (abs % 2) == 1 then ratio * magic / 2 ^ 64 else ratio)

-- 1.0001 ^ (-abs / 2), as a Q64.64 number.
unfoldable pub ratio_at : ℕ → ℕ
ratio_at abs = ratio_loop sqrt_price_magics (abs / 2) (if (abs % 2) == 1 then odd_seed else 2 ^ 64)

unfoldable pub sqrt_price_from_tick : ℤ → Result ℕ
sqrt_price_from_tick tick =
    let ratio = ratio_at (nat_abs tick) in
    if ltb_ℤ (pos 0) tick then quo max_u128 ratio else ok ratio

-- `r`, normalised to 64 bits, and the rounds for the fraction of the logarithm.
unfoldable pub normalised : ℕ → ℕ
normalised sqrt_price =
    let bits = bit_len 128 sqrt_price in
    if leb 65 bits then sqrt_price / 2 ^ (bits - 64) else sqrt_price * 2 ^ (64 - bits)

unfoldable pub log_loop : (rounds r bit fraction : ℕ) → ℕ
log_loop zero r bit fraction = fraction
log_loop (suc rounds) r bit fraction =
    let more = r * r / 2 ^ 127 in
    log_loop rounds (r * r / 2 ^ (63 + more)) (bit / 2)
      (if ltb 0 more then fraction + bit else fraction)

-- A product with a constant, and a shift that rounds down, of big integers.
unfoldable pub scale_ℤ : ℤ → ℕ → ℤ
scale_ℤ (pos n) k = pos (n * k)
scale_ℤ (negsuc n) k = sub_ℕ 0 ((n + 1) * k)

unfoldable pub rsh_64 : ℤ → ℤ
rsh_64 (pos n) = pos (n / 2 ^ 64)
rsh_64 (negsuc n) = negsuc (n / 2 ^ 64)

unfoldable pub log_sqrt_10001 : ℕ → ℤ
log_sqrt_10001 sqrt_price =
    let integer = scale_ℤ (sub_ℕ (bit_len 128 sqrt_price) 65) (2 ^ 32) in
    let fraction = log_loop 16 (normalised sqrt_price) (2 ^ 63) 0 / 2 ^ 32 in
    scale_ℤ (integer +ℤ pos fraction) 59_543_866_431_248

-- The two candidates.
unfoldable pub tick_low : ℕ → ℤ
tick_low sqrt_price = wrap_i32 (rsh_64 (log_sqrt_10001 sqrt_price -ℤ pos 184_467_440_737_095_516))

unfoldable pub tick_high : ℕ → ℤ
tick_high sqrt_price =
    wrap_i32 (rsh_64 (log_sqrt_10001 sqrt_price +ℤ pos 15_793_534_762_490_258_745))

-- For a sqrt price of at most 128 bits.
unfoldable pub tick_from_sqrt_price : ℕ → Result ℤ
tick_from_sqrt_price sqrt_price =
    let low = tick_low sqrt_price in
    let high = tick_high sqrt_price in
    if eqb_ℤ low high
    then ok low
    else (do above ← sqrt_price_from_tick high; ok (if leb above sqrt_price then high else low))

unfoldable pub price_from_sqrt_price : ℕ → Bool → ℕ
price_from_sqrt_price sqrt_price round_up =
    (sqrt_price * sqrt_price + (if round_up then q64 - 1 else 0)) / 2 ^ 64

unfoldable pub price_at_tick : ℤ → Bool → Result ℕ
price_at_tick tick round_up = do
  sqrt_price ← sqrt_price_from_tick tick
  ok (price_from_sqrt_price sqrt_price round_up)

unfoldable pub limit_order_output : (amount_in price : ℕ) → Bool → Result ℕ
limit_order_output amount_in price zero_for_one =
    if zero_for_one
    then quo (amount_in * price) q64
    else if price == 0
    then ok 0
    else quo (amount_in * q64) price

unfoldable pub limit_order_input : (amount_out price : ℕ) → Bool → Result ℕ
limit_order_input amount_out price zero_for_one =
    if zero_for_one
    then ceil_quo (amount_out * price) q64
    else if price == 0
    then ok 0
    else ceil_quo (amount_out * q64) price
