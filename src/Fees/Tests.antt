-- ===== src/Fees/Tests.antt =====
-- The theorems on fee tiers at concrete volumes.
use riabow_dex_backend.Prelude.{ℕ, ◌*◌, ◌^◌, ◌≡◌, ◌≤◌, ◌/◌, refl, none, some, arith}
use riabow_dex_backend.Decimals.{Decimals}
use riabow_dex_backend.Fees.{
  classify, TierProgress, progress_to_next, first_reached, get_tier, tier_at,
}
use riabow_dex_backend.Fees.Rates.{classify-rates}

abbrev million : ℕ
million = 10 ^ 24

classify-rates_example :
    ((classify (30 * million)).taker ≤ (classify million).taker)
    × ((classify (30 * million)).maker ≤ (classify million).maker)
classify-rates_example = classify-rates million (30 * million) (omega arith)

abbrev rounding : Decimals
rounding = record { round_dp6 = λ v. v; quotient = λ a b. a / b; parse_scaled = λ p. none }

abbrev progress : TierProgress
progress = record {
  next_level = 2;
  required_volume = 25 * million;
  remaining_volume = 5 * million;
  percent = 8 * 10 ^ 17;
}

progress-runs : progress_to_next rounding (20 * million) ≡ some progress
unfolding progress_to_next classify first_reached get_tier tier_at
progress-runs = refl
