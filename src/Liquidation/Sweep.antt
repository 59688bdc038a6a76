-- ===== src/Liquidation/Sweep.antt =====
-- backend/src/services/liquidation/mod.rs: `check_and_liquidate_market`.
--
-- The mark price is that of the price feed, and `isolated` whether a user is not in unified margin;
-- both are parameters.
pub mod Completeness
use riabow_dex_backend.Prelude.{
  ℕ, ◌+◌, Bool, ◌&&◌, Option, none, some, List, [], ◌∷◌, if◌then◌else◌, ◌==◌, length,
}
use riabow_dex_backend.Prelude.Int.{ℤ, pos, ◌+ℤ◌}
use riabow_dex_backend.DecimalOps.{DecimalOps}
use riabow_dex_backend.Positions.Types.{Position}
use riabow_dex_backend.Positions.Store.{is_open}
use riabow_dex_backend.Liquidation.Types.{
  LiquidationConfig, LiquidationStats, LiquidationStore, get_config,
}
use riabow_dex_backend.Liquidation.Conditions.{should_liquidate}
use riabow_dex_backend.Liquidation.Execute.{
  LiquidationOutcome, liquidation_done, position_not_found, position_not_open, execute_liquidation,
}

-- The rows that the query takes.
abbrev pub is_candidate : (ℕ → Bool) → ℕ → Position → Bool
is_candidate isolated symbol p = p.symbol == symbol && is_open p.status && isolated p.user_address

unfoldable pub candidates : (ℕ → Bool) → ℕ → List Position → List Position
candidates isolated symbol [] = []
candidates isolated symbol (p ∷ ps) =
    if is_candidate isolated symbol p
    then p ∷ candidates isolated symbol ps
    else candidates isolated symbol ps

-- A failed liquidation is only logged.
unfoldable pub count_liquidation : LiquidationOutcome → LiquidationStats → LiquidationStats
count_liquidation (liquidation_done r) stats = record stats {
  positions_liquidated = stats.positions_liquidated + 1;
  total_volume_liquidated = stats.total_volume_liquidated +ℤ r.position_size_usd;
  total_fees_collected = stats.total_fees_collected +ℤ r.liquidation_fee;
  insurance_fund_contributions =
      stats.insurance_fund_contributions +ℤ r.insurance_fund_contribution;
}
count_liquidation position_not_found stats = stats
count_liquidation position_not_open stats = stats

-- One round of the loop; the ids of liquidations are drawn from `ids` by the round.
unfoldable pub liquidate_if :
    DecimalOps
    → LiquidationConfig
    → ℕ
    → ℤ
    → Position
    → Bool
    → LiquidationStats × LiquidationStore
    → LiquidationStats × LiquidationStore
unfolding execute_liquidation count_liquidation
liquidate_if o config id mark p Bool.false s = s
liquidate_if o config id mark p Bool.true (stats, s) =
    let (out, s') = execute_liquidation o id p mark none s in (count_liquidation out stats, s')

unfoldable pub liquidate_all :
    DecimalOps
    → LiquidationConfig
    → (ℕ → ℕ)
    → ℕ
    → ℤ
    → List Position
    → LiquidationStats × LiquidationStore
    → LiquidationStats × LiquidationStore
unfolding liquidate_if should_liquidate
liquidate_all o config ids n mark [] s = s
liquidate_all o config ids n mark (p ∷ ps) s =
    liquidate_all o config ids (n + 1) mark ps
      (liquidate_if o config (ids n) mark p (should_liquidate o p mark config) s)

abbrev pub no_stats : ℕ → LiquidationStats
no_stats checked = record {
  positions_checked = checked;
  positions_liquidated = 0;
  total_volume_liquidated = pos 0;
  total_fees_collected = pos 0;
  insurance_fund_contributions = pos 0;
  insurance_fund_payouts = pos 0;
}

-- Without a price nothing is done.
unfoldable pub check_and_liquidate_market :
    DecimalOps
    → (ℕ → Bool)
    → (ℕ → ℕ)
    → ℕ
    → Option ℤ
    → LiquidationStore
    → Option LiquidationStats × LiquidationStore
unfolding get_config candidates liquidate_all
check_and_liquidate_market o isolated ids symbol none s = (none, s)
check_and_liquidate_market o isolated ids symbol (some mark) s =
    let (config, s') = get_config o symbol s in
    let positions = candidates isolated symbol s'.tables.positions in
    let (stats, s'') =
      liquidate_all o config ids 0 mark positions (no_stats (length positions), s') in
    (some stats, s'')
