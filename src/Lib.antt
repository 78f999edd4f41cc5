-- ===== src/Lib.antt =====
-- A verification library for soldex, exact-in swap quotes for Solana exchanges computed from
-- decoded account state.
--
-- The program's parts. math/ holds fixed-point primitives: math/common has checked arithmetic on
-- big integers, and math/dlmm, math/damm, math/orca and math/raydium have the power functions,
-- rounded quotients and price curves of the venues. quote/ has a package for each venue, which
-- turns a pool's state and an amount in into an amount out by these primitives. models/ decodes
-- accounts and derives fee rates, and the root package dispatches on an account's owner and fills
-- the quote structs.
--
-- The files. Each file opens with the Go file it is about; a child module proves things of its
-- parent.
--   Base           Boolean tests, integers, results, uint64 wrap-around, division rounded up and down
--   Math/Common    math/common/common.go
--   Math/Dlmm      math/dlmm: MulDiv (u128x128.go, utils.go), Pow (u64x64.go), Price (price_math.go and
--                  price_cache.go, whose lookups Price/Lookups runs as concurrent goroutines)
--   Math/Damm      math/damm: Safe (safe_math.go), MulDiv (u128x128_math.go), Cast and Sqrt
--                  (utils_math.go), Fee (fee_math.go), Curve (curve_math.go)
--   Math/Orca      math/orca: Curve (curve_math.go), Tick (tick_math.go)
--   Math/Raydium   math/raydium: Liquidity (liquidity_math.go), SqrtPrice (sqrt_price_math.go), Step
--                  (swap_math.go), Tick (tick_math.go)
--   Quote/Dlmm     quote/dlmm: Fees (helpers.go, fees.go), Bin (bin_quote.go), Pool and Swap
--                  (swap_quote.go)
--   Quote/Damm     quote/damm: Fees (types.go, fees.go), Compounding (compounding_quote.go),
--                  Concentrated (concentrated_quote.go)
--   Quote/Raydium  quote/raydium: State (the records of swap_quote.go, and the booking of a fill),
--                  LimitOrder (limit_order.go), DynamicFee (dynamic_fee.go), Swap (the loops of
--                  swap_quote.go), TickArray (tick_array.go)
--   Quote/Orca     quote/orca: Adaptive (adaptive_fee.go), FeeManager (fee_rate_manager.go), Step and
--                  Swap (the step and the loops of swap_quote.go), TickArray (tick_array.go)
--   Quote/Constant quote/pump, quote/pumpbc, quote/raycpmm, quote/rayammv4, quote/fluxbeam
--   Models         models: Bytes (encoding/binary), BaseFee (damm_base_fee.go, damm_base_fee_schedule.go
--                  and the gate of damm_rate_limiter.go), RateLimiter (damm_rate_limiter.go), PumpPool
--                  (pump_pool.go), PumpFee and PumpFee/Select (pump_fee.go), RaydiumTick (the ticks of
--                  raydium_clmm.go), Whirlpool (the ticks of whirlpool.go), RaydiumCpmm
--                  (raydium_cpmm.go), RaydiumAmmV4 (raydium_amm_v4.go), BondingCurve
--                  (pump_bonding_curve.go), FluxBeam (fluxbeam.go), TransferFee and
--                  TransferFee/Decode (token2022.go)
--   Quoter         soldex.go and from_models.go: the quoters of the constant-product venues and, in
--                  FromModels, their constructors; FluxBeam has those of FluxBeam
--   Tests          runs and examples at concrete inputs
-- A Go function keeps its name in snake_case; the helpers beside it are the branches of its body.
--
-- The correspondence. A `*big.Int` is an `Option ℤ` where the code tests for nil and for the sign,
-- and a natural number where it is built from unsigned words. An unsigned word is a natural number,
-- with wrap-around written out where the code does not check (`add_wrap`, `sub_wrap`, `% 2 ^ 64`);
-- an int32 or int64 is an integer, wrapped by `wrap_i32` or `wrap_i64`. An error value is a
-- constructor of `Error`, a fallible function returns `Result`. A division by zero panics: that is
-- `none` in the functions that return no error, and the error `panicked` in those of Raydium, Orca and
-- the decoders, where it is also the access past the end of an account; no code recovers it. The
-- providers of bins and of boundary ticks, which a caller passes in, are function arguments. The
-- shared price cache is part of the state; a goroutine's lookup is two atomic steps, one for each
-- critical section.
--
-- Bounds and fuel. The walk over the bins of quote/dlmm runs on fuel, a round for each of the
-- 887273 bin ids and more for a start out of range; the digits of `SqrtU256` on 129 rounds, one for
-- each two bits and one to stop; the search of a mint's extensions on the account's length, since an
-- entry is four bytes and more. In these cases `none` would mean that the fuel ran out. The two
-- loops of quote/raydium and of quote/orca take their fuel as arguments, since a provider may name
-- boundary ticks forever; a pool without a dynamic fee needs one round for a boundary. The loop of
-- an array walker's `Next` needs a round for each array up to its limit, on Orca four rounds. A
-- walker keeps state between its calls, while the provider of a quote is a function here, so the
-- two are modelled apart.
--
-- Not modelled: the account decoders of models/ other than those above, most of which read bytes
-- through third-party libraries; in the root package, the quoters of the other venues and their
-- constructors, and the dispatch on an account's owner. The keys of the Solana library are a parameter
-- (`SolanaKeys`) of the Pump, Raydium and FluxBeam accounts.
pub mod Base
pub mod Math
pub mod Models
pub mod Quote
pub mod Tests
pub mod Quoter
