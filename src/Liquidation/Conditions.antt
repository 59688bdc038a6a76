-- ===== src/Liquidation/Conditions.antt =====
-- When a position is liquidated: backend/src/services/liquidation/mod.rs and backend/src/services/risk/mod.rs.
pub mod Agreement
use riabow_dex_backend.Prelude.{Bool, ◌||◌}
use riabow_dex_backend.Prelude.Int.{ℤ, pos, ◌+ℤ◌, ◌-ℤ◌, leb_ℤ, ltb_ℤ}
use riabow_dex_backend.DecimalOps.{DecimalOps, from_int}
use riabow_dex_backend.Positions.Types.{PositionSide, long, short, Position}
use riabow_dex_backend.Liquidation.Types.{LiquidationConfig}

-- The profit of a position at a price, as this service computes it.
unfoldable pub pnl_at : DecimalOps → PositionSide → ℤ → ℤ → ℤ
pnl_at o long size_in_usd position_value = position_value -ℤ size_in_usd
pnl_at o short size_in_usd position_value = size_in_usd -ℤ position_value

unfoldable pub calculate_remaining_collateral : DecimalOps → Position → ℤ → ℤ
unfolding pnl_at
calculate_remaining_collateral o p mark =
    p.collateral_amount
    +ℤ pnl_at o p.side p.size_in_usd (o.mul p.size_in_tokens mark)
    -ℤ (p.accumulated_funding_fee +ℤ p.accumulated_borrowing_fee)

unfoldable pub should_liquidate : DecimalOps → Position → ℤ → LiquidationConfig → Bool
unfolding calculate_remaining_collateral
should_liquidate o p mark config =
    let remaining = calculate_remaining_collateral o p mark in
    ltb_ℤ remaining (o.mul p.size_in_usd config.maintenance_margin_rate) || leb_ℤ remaining (pos 0)

-- `RiskService::should_liquidate`
unfoldable pub risk_should_liquidate : DecimalOps → Position → ℤ → ℤ → Bool
unfolding pnl_at
risk_should_liquidate o p mark rate =
    let fees = p.accumulated_funding_fee +ℤ p.accumulated_borrowing_fee in
    let unrealized_pnl = pnl_at o p.side p.size_in_usd (o.mul p.size_in_tokens mark) in
    ltb_ℤ (p.collateral_amount +ℤ unrealized_pnl -ℤ fees) (o.mul p.size_in_usd rate)

unfoldable pub calculate_required_margin : DecimalOps → ℤ → ℤ → ℤ → ℤ
unfolding from_int
calculate_required_margin o size price leverage = o.div (o.mul size price) (from_int o leverage)

unfoldable pub has_sufficient_margin : ℤ → ℤ → Bool
has_sufficient_margin available required = leb_ℤ required available
