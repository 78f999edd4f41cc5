-- ===== src/Models/PumpFee/Select/Tiers.antt =====
-- models/pump_fee.go: which tier is selected.
use mathlib.Core.Path.{subst}
use soldex.Base.{
  ℕ, ◌≤◌, ◌<◌, ◌≡◌, refl, sym, ap, ◌⊎◌, inl, inr, arith, Option, none, some, List, [], ◌∷◌, ◌++◌,
  ltb, leb, if◌then◌else◌, Bool-cases, Option-cases, ltb→lt, ltb→le, leb→le, leb→lt,
}
use soldex.Models.PumpFee.{PumpFees, PumpFeeTier}
use soldex.Models.PumpFee.Select.{last_met, tier_fees}

-- The cap meets no threshold of the tiers.
unfoldable pub AllAbove : ℕ → List PumpFeeTier → Type 0
AllAbove cap [] = Unit
AllAbove cap (tier ∷ tiers) = (cap < tier.market_cap_threshold) × AllAbove cap tiers

-- The fees are those of a tier whose threshold is met, and of none after it.
pub record IsLastMet (tiers : List PumpFeeTier) (cap : ℕ) (fees : PumpFees) : Type 0 where
  pub before : List PumpFeeTier
  pub tier : PumpFeeTier
  pub after : List PumpFeeTier
  pub split : tiers ≡ before ++ tier ∷ after
  pub met : tier.market_cap_threshold ≤ cap
  pub unmet : AllAbove cap after
  pub same : tier.fees ≡ fees

Outcome : List PumpFeeTier → ℕ → Option PumpFees → Type 0
Outcome tiers cap none = AllAbove cap tiers
Outcome tiers cap (some fees) = IsLastMet tiers cap fees

-- One tier before the others.
Outcome-step :
    (tier : PumpFeeTier) (tiers : List PumpFeeTier) (cap : ℕ) (o : Option PumpFees)
    → Outcome tiers cap o
    → Outcome (tier ∷ tiers) cap (elim o [
      | some fees ↦ some fees
      | none ↦ if leb tier.market_cap_threshold cap then some (tier.fees) else none
    ])
unfolding Outcome AllAbove
Outcome-step tier tiers cap (some fees) h = record {
  before = tier ∷ h.before;
  tier = h.tier;
  after = h.after;
  split = ap (λ ts. tier ∷ ts) h.split;
  met = h.met;
  unmet = h.unmet;
  same = h.same;
}
Outcome-step tier tiers cap none h = elim (Bool-cases (leb tier.market_cap_threshold cap)) [
  | inl met ↦ rw met (record {
    before = [];
    tier = tier;
    after = tiers;
    split = refl;
    met = leb→le _ _ met;
    unmet = h;
    same = refl;
  })
  | inr unmet ↦ rw unmet (leb→lt _ _ unmet, h)
]

last_met-Outcome : (tiers : List PumpFeeTier) (cap : ℕ) → Outcome tiers cap (last_met tiers cap)
unfolding last_met Outcome AllAbove
last_met-Outcome [] cap = tt
last_met-Outcome (tier ∷ tiers) cap =
    Outcome-step tier tiers cap (last_met tiers cap) (last_met-Outcome tiers cap)

-- For a list of tiers that is not empty, sorted or not, the fees are those of the first tier, where the cap is below
-- its threshold, and otherwise those of a tier whose threshold the cap meets while it meets that of
-- none after it; in particular the fall-back at the end of the search is never taken.
tier_fees-IsLastMet :
    (tier : PumpFeeTier) (tiers : List PumpFeeTier) (cap : ℕ)
    → ((cap < tier.market_cap_threshold) × (tier_fees (tier ∷ tiers) cap ≡ tier.fees))
      ⊎ IsLastMet (tier ∷ tiers) cap (tier_fees (tier ∷ tiers) cap)
unfolding tier_fees Outcome AllAbove
tier_fees-IsLastMet tier tiers cap = elim (Bool-cases (ltb cap tier.market_cap_threshold)) [
  | inl below ↦ inl (ltb→lt _ _ below, rw below refl)
  | inr met ↦
      let outcome = last_met-Outcome (tier ∷ tiers) cap in
      elim (Option-cases (last_met (tier ∷ tiers) cap)) [
        | inl none_met ↦ absurd (
            let (above, _) = subst (Outcome (tier ∷ tiers) cap) none_met outcome in
            omega (arith, ltb→le _ _ met, above))
        | inr (fees, found) ↦
            inr (rw (met, tier_fees, found) (subst (Outcome (tier ∷ tiers) cap) found outcome))
      ]
]

-- Every tier of the list has a threshold of at least `low`, and they do not fall.
unfoldable pub Ascending : ℕ → List PumpFeeTier → Type 0
Ascending low [] = Unit
Ascending low (tier ∷ tiers) =
    (low ≤ tier.market_cap_threshold) × Ascending tier.market_cap_threshold tiers

-- No tier that the cap meets has a threshold above `high`.
unfoldable pub NoneHigher : (cap high : ℕ) → List PumpFeeTier → Type 0
NoneHigher cap high [] = Unit
NoneHigher cap high (tier ∷ tiers) =
    (cap < tier.market_cap_threshold ⊎ tier.market_cap_threshold ≤ high) × NoneHigher cap high tiers

-- The fees are those of a tier of the list whose threshold is met, and of the highest of these.
pub record IsHighestMet (tiers : List PumpFeeTier) (cap : ℕ) (fees : PumpFees) : Type 0 where
  pub before : List PumpFeeTier
  pub tier : PumpFeeTier
  pub after : List PumpFeeTier
  pub split : tiers ≡ before ++ tier ∷ after
  pub met : tier.market_cap_threshold ≤ cap
  pub highest : NoneHigher cap tier.market_cap_threshold tiers
  pub same : tier.fees ≡ fees

Ascending-AllAbove :
    (cap low : ℕ) (tiers : List PumpFeeTier) → cap < low → Ascending low tiers → AllAbove cap tiers
unfolding Ascending AllAbove
Ascending-AllAbove cap low [] h sorted = tt
Ascending-AllAbove cap low (tier ∷ tiers) h (le, sorted) =
    (omega arith, Ascending-AllAbove cap tier.market_cap_threshold tiers (omega arith) sorted)

AllAbove-NoneHigher :
    (cap high : ℕ) (tiers : List PumpFeeTier) → AllAbove cap tiers → NoneHigher cap high tiers
unfolding AllAbove NoneHigher
AllAbove-NoneHigher cap high [] h = tt
AllAbove-NoneHigher cap high (tier ∷ tiers) (above, rest) =
    (inl above, AllAbove-NoneHigher cap high tiers rest)

-- What stands before a tier is at most it.
before-le :
    (low : ℕ) (before : List PumpFeeTier) (tier : PumpFeeTier) (after : List PumpFeeTier)
    → Ascending low (before ++ tier ∷ after)
    → low ≤ tier.market_cap_threshold
unfolding Ascending
before-le low [] tier after (le, sorted) = le
before-le low (t ∷ before) tier after (le, sorted) =
    let rest = before-le t.market_cap_threshold before tier after sorted in omega arith

last-NoneHigher :
    (cap low : ℕ) (before : List PumpFeeTier) (tier : PumpFeeTier) (after : List PumpFeeTier)
    → Ascending low (before ++ tier ∷ after)
    → AllAbove cap after
    → NoneHigher cap tier.market_cap_threshold (before ++ tier ∷ after)
unfolding Ascending NoneHigher
last-NoneHigher cap low [] tier after sorted above =
    (inr (omega arith), AllAbove-NoneHigher cap tier.market_cap_threshold after above)
last-NoneHigher cap low (t ∷ before) tier after (le, sorted) above = (
  inr (before-le t.market_cap_threshold before tier after sorted),
  last-NoneHigher cap t.market_cap_threshold before tier after sorted above,
)

-- For tiers whose thresholds do not fall, of which there is one: the fees are those of the first tier,
-- where the cap is below all of them, and otherwise those of a tier that the cap meets, the highest
-- that it meets.
pub tier_fees-IsHighestMet :
    (tier : PumpFeeTier) (tiers : List PumpFeeTier) (cap : ℕ)
    → Ascending 0 (tier ∷ tiers)
    → (AllAbove cap (tier ∷ tiers) × (tier_fees (tier ∷ tiers) cap ≡ tier.fees))
      ⊎ IsHighestMet (tier ∷ tiers) cap (tier_fees (tier ∷ tiers) cap)
tier_fees-IsHighestMet tier tiers cap sorted = elim (tier_fees-IsLastMet tier tiers cap) [
  | inl (below, first) ↦ inl (
    unfold AllAbove in
        unfold Ascending in
        (below, Ascending-AllAbove cap tier.market_cap_threshold tiers below sorted.1),
    first,
  )
  | inr last ↦ inr (record {
    before = last.before;
    tier = last.tier;
    after = last.after;
    split = last.split;
    met = last.met;
    highest = subst (NoneHigher cap last.tier.market_cap_threshold) (sym last.split) (
        last-NoneHigher cap 0 last.before last.tier last.after
          (subst (Ascending 0) last.split sorted) last.unmet);
    same = last.same;
  })
]
