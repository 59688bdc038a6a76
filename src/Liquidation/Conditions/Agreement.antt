-- ===== src/Liquidation/Conditions/Agreement.antt =====
-- The three tests for liquidation agree, up to the minimum of collateral.
use riabow_dex_backend.Prelude.{◌≡◌, arith, refl, ◌||◌}
use riabow_dex_backend.Prelude.Int.{ℤ, pos, ltb_ℤ, leb_ℤ}
use riabow_dex_backend.DecimalOps.{DecimalOps, DecimalLaws}
use riabow_dex_backend.Positions.Types.{PositionSide, long, short, Position, PositionConfig}
use riabow_dex_backend.Positions.Formulas.{
  calculate_unrealized_pnl, calculate_remaining_collateral_usd, check_liquidation,
  liquidation_reason,
}
use riabow_dex_backend.Liquidation.Types.{LiquidationConfig}
use riabow_dex_backend.Liquidation.Conditions.{
  pnl_at, calculate_remaining_collateral, should_liquidate, risk_should_liquidate,
}

pnl-agrees :
    (o : DecimalOps) (p : Position) (mark : ℤ) (side : PositionSide)
    → p.side ≡ side
    → calculate_unrealized_pnl o p mark ≡ pnl_at o side p.size_in_usd (o.mul p.size_in_tokens mark)
unfolding calculate_unrealized_pnl pnl_at
pnl-agrees o p mark long h = ground (arith, h)
pnl-agrees o p mark short h = ground (arith, h)

remaining-agrees :
    (o : DecimalOps)
    → DecimalLaws o
    → (p : Position) (mark : ℤ)
    → calculate_remaining_collateral_usd o p mark o.one ≡ calculate_remaining_collateral o p mark
unfolding calculate_remaining_collateral_usd calculate_remaining_collateral
remaining-agrees o laws p mark =
    ground (arith, laws.mul-one p.collateral_amount, pnl-agrees o p mark p.side refl)

-- With the same maintenance rate: a position service says a position is liquidatable exactly when
-- the liquidation engine would liquidate it or what remains is below the minimum of collateral; and
-- the engine would exactly when the risk service would or nothing remains.
pub check_liquidation-agrees :
    (o : DecimalOps)
    → DecimalLaws o
    → (config : PositionConfig) (engine : LiquidationConfig) (p : Position) (mark : ℤ)
    → engine.maintenance_margin_rate ≡ config.maintenance_margin_rate
    → ((check_liquidation o config p mark).is_liquidatable
        ≡ should_liquidate o p mark engine
          || ltb_ℤ (calculate_remaining_collateral o p mark) config.min_collateral_usd)
      × (should_liquidate o p mark engine
          ≡ risk_should_liquidate o p mark config.maintenance_margin_rate
            || leb_ℤ (calculate_remaining_collateral o p mark) (pos 0))
unfolding check_liquidation liquidation_reason should_liquidate risk_should_liquidate
check_liquidation-agrees o laws config engine p mark same =
    ground (arith, same, remaining-agrees o laws p mark)
