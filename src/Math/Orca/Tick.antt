-- ===== src/Math/Orca/Tick.antt =====
-- math/orca/tick_math.go: sqrt prices of ticks, and the tick of a sqrt price. The logarithm of the two
-- ports is the same code but for its number of rounds.
pub mod Positive
use soldex.Base.{ℕ, ◌+◌, ◌*◌, ◌/◌, ◌%◌, ◌^◌, List, [], ◌∷◌, leb, ◌==◌, if◌then◌else◌}
use soldex.Base.Int.{ℤ, pos, negsuc, sub_ℕ, ◌+ℤ◌, ◌-ℤ◌, eqb_ℤ, wrap_i32}
use soldex.Math.Damm.MulDiv.{bit_len}
use soldex.Math.Raydium.Tick.{normalised, log_loop, scale_ℤ, rsh_64}

abbrev pub min_tick_index : ℤ
min_tick_index = negsuc 443_635

abbrev pub max_tick_index : ℤ
max_tick_index = pos 443_636

abbrev pub min_sqrt_price : ℕ
min_sqrt_price = 4_295_048_016

abbrev pub max_sqrt_price : ℕ
max_sqrt_price = 79_226_673_515_401_279_992_447_579_055

-- The multipliers of the bits from 1 on; that of bit 0 is a seed.
abbrev pub positive_odd_seed : ℕ
positive_odd_seed = 79_232_123_823_359_799_118_286_999_567

abbrev pub positive_tick_multipliers : List ℕ
positive_tick_multipliers =
    79_236_085_330_515_764_027_303_304_731 ∷ 79_244_008_939_048_815_603_706_035_061
    ∷ 79_259_858_533_276_714_757_314_932_305 ∷ 79_291_567_232_598_584_799_939_703_904
    ∷ 79_355_022_692_464_371_645_785_046_466 ∷ 79_482_085_999_252_804_386_437_311_141
    ∷ 79_736_823_300_114_093_921_829_183_326 ∷ 80_248_749_790_819_932_309_965_073_892
    ∷ 81_282_483_887_344_747_381_513_967_011 ∷ 83_390_072_131_320_151_908_154_831_281
    ∷ 87_770_609_709_833_776_024_991_924_138 ∷ 97_234_110_755_111_693_312_479_820_773
    ∷ 119_332_217_159_966_728_226_237_229_890 ∷ 179_736_315_981_702_064_433_883_588_727
    ∷ 407_748_233_172_238_350_107_850_275_304 ∷ 2_098_478_828_474_011_932_436_660_412_517
    ∷ 55_581_415_166_113_811_149_459_800_483_533 ∷ 38_992_368_544_603_139_932_233_054_999_993_551
    ∷ []

abbrev pub negative_odd_seed : ℕ
negative_odd_seed = 18_445_821_805_675_392_311

abbrev pub negative_tick_multipliers : List ℕ
negative_tick_multipliers =
    18_444_899_583_751_176_498 ∷ 18_443_055_278_223_354_162 ∷ 18_439_367_220_385_604_838
    ∷ 18_431_993_317_065_449_817 ∷ 18_417_254_355_718_160_513 ∷ 18_387_811_781_193_591_352
    ∷ 18_329_067_761_203_520_168 ∷ 18_212_142_134_806_087_854 ∷ 17_980_523_815_641_551_639
    ∷ 17_526_086_738_831_147_013 ∷ 16_651_378_430_235_024_244 ∷ 15_030_750_278_693_429_944
    ∷ 12_247_334_978_882_834_399 ∷ 8_131_365_268_884_726_200 ∷ 3_584_323_654_723_342_297
    ∷ 696_457_651_847_595_233 ∷ 26_294_789_957_452_057 ∷ 37_481_735_321_082 ∷ []

unfoldable pub mul_shift : (a b shift : ℕ) → ℕ
mul_shift a b shift = a * b / 2 ^ shift

-- The rounds of the two loops: `abs` is shifted right once for each bit that is done.
unfoldable pub fold_bits : (shift : ℕ) → List ℕ → (abs ratio : ℕ) → ℕ
fold_bits shift [] abs ratio = ratio
fold_bits shift (m ∷ ms) abs ratio =
    fold_bits shift ms (abs / 2) (if (abs % 2) == 1 then mul_shift ratio m shift else ratio)

unfoldable pub sqrt_price_positive_tick : ℕ → ℕ
sqrt_price_positive_tick tick =
    let seed = if (tick % 2) == 1 then positive_odd_seed else 2 ^ 96 in
    fold_bits 96 positive_tick_multipliers (tick / 2) seed / 2 ^ 32

unfoldable pub sqrt_price_negative_tick : (abs : ℕ) → ℕ
sqrt_price_negative_tick abs =
    let seed = if (abs % 2) == 1 then negative_odd_seed else 2 ^ 64 in
    fold_bits 64 negative_tick_multipliers (abs / 2) seed

unfoldable pub sqrt_price_from_tick_index : ℤ → ℕ
sqrt_price_from_tick_index (pos tick) = sqrt_price_positive_tick tick
sqrt_price_from_tick_index (negsuc n) = sqrt_price_negative_tick (n + 1)

unfoldable pub logbp_x64 : ℕ → ℤ
logbp_x64 sqrt_price =
    let integer = scale_ℤ (sub_ℕ (bit_len 128 sqrt_price) 65) (2 ^ 32) in
    let fraction = log_loop 14 (normalised sqrt_price) (2 ^ 63) 0 / 2 ^ 32 in
    scale_ℤ (integer +ℤ pos fraction) 59_543_866_431_248

-- For a sqrt price that is not zero, of at most 128 bits.
unfoldable pub tick_index_from_sqrt_price : ℕ → ℤ
tick_index_from_sqrt_price sqrt_price =
    let log = logbp_x64 sqrt_price in
    let low = wrap_i32 (rsh_64 (log -ℤ pos 184_467_440_737_095_516)) in
    let high = wrap_i32 (rsh_64 (log +ℤ pos 15_793_534_762_490_258_745)) in
    if eqb_ℤ low high
    then low
    else if leb (sqrt_price_from_tick_index high) sqrt_price
    then high
    else low
