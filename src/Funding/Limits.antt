-- ===== src/Funding/Limits.antt =====
-- Bounds on the funding rate.
use riabow_dex_backend.Prelude.{arith}
use riabow_dex_backend.Prelude.Int.{ℤ, pos, ◌≤ℤ◌}
use riabow_dex_backend.DecimalOps.{DecimalOps}
use riabow_dex_backend.Funding.{FundingConfig, calculate_funding_rate}

-- A rate within the two limits of the configuration.
abbrev pub Within : FundingConfig → ℤ → Type 0
Within config rate = (config.min_funding_rate ≤ℤ rate) × (rate ≤ℤ config.max_funding_rate)

-- With limits in order that have 0 between them, the funding rate is within them, whatever the open
-- interest is and however products and quotients are rounded.
pub calculate_funding_rate-Within :
    (o : DecimalOps) (long_oi short_oi : ℤ) (config : FundingConfig)
    → config.min_funding_rate ≤ℤ pos 0
    → pos 0 ≤ℤ config.max_funding_rate
    → Within config (calculate_funding_rate o long_oi short_oi config)
unfolding calculate_funding_rate
calculate_funding_rate-Within o long_oi short_oi config below above =
    (ground (arith, below, above), ground (arith, below, above))
