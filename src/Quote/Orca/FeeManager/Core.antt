-- ===== src/Quote/Orca/FeeManager/Core.antt =====
-- quote/orca/fee_rate_manager.go: beyond the core range the accumulator is at its maximum.
use soldex.Base.{
  ℕ, ◌+◌, ◌-◌, ◌*◌, ◌%◌, ◌^◌, ◌≤◌, ◌<◌, ◌≡◌, refl, ap, arith, true, ltb, ltb→lt, lt→ltb,
}
use soldex.Base.Int.{
  ℤ, pos, pos_part, neg_part, nat_abs, sub_ℕ, sub_ℕ-parts, ◌+ℤ◌, ◌-ℤ◌, ltb_ℤ, wrap_i32, wrap_i32_id,
}
use soldex.Base.Words.{u32_mod}
use soldex.Base.Division.{ceil_div_bounds, ceil_div-le}
use soldex.Quote.Orca.Adaptive.{
  AdaptiveFeeConstants, AdaptiveFeeVariables, volatility_accumulator_scale_factor, group_distance,
  update_volatility_accumulator,
}
use soldex.Quote.Orca.Adaptive.Bounds.{ceil_division_u32-eq-ceil_div}
use soldex.Quote.Orca.FeeManager.{max_delta}

-- A tick group index in range: those of ticks are within 443_637.
abbrev pub IsGroup : ℤ → Type 0
IsGroup i = nat_abs i < 2 ^ 30

-- A sum and a difference that do not wrap.
add_exact : (a : ℤ) (d : ℕ) → IsGroup a → d < 2 ^ 30 → wrap_i32 (a +ℤ wrap_i32 (pos d)) ≡ a +ℤ pos d
unfolding ◌+ℤ◌
add_exact a d h k =
    let inner : wrap_i32 (pos d) ≡ pos d = wrap_i32_id (pos d) (ground arith) in
    rw inner (wrap_i32_id (a +ℤ pos d) (ground arith))

sub_exact : (a : ℤ) (d : ℕ) → IsGroup a → d < 2 ^ 30 → wrap_i32 (a -ℤ wrap_i32 (pos d)) ≡ a -ℤ pos d
unfolding ◌-ℤ◌
sub_exact a d h k =
    let inner : wrap_i32 (pos d) ≡ pos d = wrap_i32_id (pos d) (ground arith) in
    rw inner (wrap_i32_id (a -ℤ pos d) (ground arith))

distance_exact : (a i : ℤ) → IsGroup a → IsGroup i → group_distance a i ≡ nat_abs (a -ℤ i)
unfolding group_distance ◌-ℤ◌
distance_exact a i h k = ap nat_abs (wrap_i32_id (a -ℤ i) (ground arith))

apart_below : (x y d : ℕ) → x + d < y → d < nat_abs (sub_ℕ x y)
apart_below x y d h = ground arith

apart_above : (x y d : ℕ) → y + d < x → d < nat_abs (sub_ℕ x y)
apart_above x y d h = ground arith

pub beyond_above :
    (a i : ℤ) (d : ℕ)
    → IsGroup a
    → IsGroup i
    → d < 2 ^ 30
    → ltb_ℤ (wrap_i32 (a +ℤ wrap_i32 (pos d))) i ≡ true
    → d < group_distance a i
unfolding ◌+ℤ◌ ◌-ℤ◌
beyond_above a i d ha hi hd over =
    let lt = ltb→lt _ _ (rw (add_exact a d ha hd) at over) in
    rw (distance_exact a i ha hi) (
      apart_below (pos_part a + neg_part i) (neg_part a + pos_part i) d
        (omega (arith, lt, sub_ℕ-parts (pos_part a + d) (neg_part a + 0))))

pub beyond_below :
    (a i : ℤ) (d : ℕ)
    → IsGroup a
    → IsGroup i
    → d < 2 ^ 30
    → ltb_ℤ i (wrap_i32 (a -ℤ wrap_i32 (pos d))) ≡ true
    → d < group_distance a i
unfolding ◌-ℤ◌
beyond_below a i d ha hi hd over =
    let lt = ltb→lt _ _ (rw (sub_exact a d ha hd) at over) in
    rw (distance_exact a i ha hi) (
      apart_above (pos_part a + neg_part i) (neg_part a + pos_part i) d
        (omega (arith, lt, sub_ℕ-parts (pos_part a + 0) (neg_part a + d))))

-- The accumulator reaches the maximum past as many groups.
pub max_delta-covers :
    (c : AdaptiveFeeConstants) (v : AdaptiveFeeVariables)
    → c.max_volatility_accumulator < u32_mod
    → v.volatility_reference ≤ c.max_volatility_accumulator
    → (max_delta c v < 2 ^ 30)
      × (c.max_volatility_accumulator
          ≤ v.volatility_reference + max_delta c v * volatility_accumulator_scale_factor)
unfolding max_delta
max_delta-covers c v small le =
    let n = c.max_volatility_accumulator - v.volatility_reference in
    let whole : (c.max_volatility_accumulator + u32_mod - v.volatility_reference) % u32_mod ≡ n =
      omega arith in
    let (low, _) = ceil_div_bounds n volatility_accumulator_scale_factor (omega arith) in
    let up =
      ceil_div-le n volatility_accumulator_scale_factor (2 ^ 30 - 1) (omega arith) (omega arith) in
    rw (whole, ceil_division_u32-eq-ceil_div n volatility_accumulator_scale_factor (omega arith))
      (omega (arith, up), omega (arith, low, le))

pub saturated :
    (c : AdaptiveFeeConstants) (v : AdaptiveFeeVariables) (i : ℤ)
    → c.max_volatility_accumulator < u32_mod
    → v.volatility_reference ≤ c.max_volatility_accumulator
    → max_delta c v < group_distance v.tick_group_index_reference i
    → (update_volatility_accumulator v i c).volatility_accumulator ≡ c.max_volatility_accumulator
unfolding update_volatility_accumulator
saturated c v i small le far =
    let (_, covers) = max_delta-covers c v small le in
    let over : ltb c.max_volatility_accumulator (
          v.volatility_reference
          + group_distance v.tick_group_index_reference i * volatility_accumulator_scale_factor)
        ≡ true =
      lt→ltb _ _ (omega (arith, covers, far)) in
    rw over refl
