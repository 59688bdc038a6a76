-- ===== src/Positions/Formulas.antt =====
-- backend/src/services/position/mod.rs: profit, collateral, margin and the liquidation test.
use riabow_dex_backend.Prelude.{true, false, Option, none, some, if◌then◌else◌}
use riabow_dex_backend.Prelude.Int.{ℤ, pos, ◌+ℤ◌, ◌-ℤ◌, leb_ℤ, ltb_ℤ, ◌==ℤ◌}
use riabow_dex_backend.DecimalOps.{DecimalOps, from_int, safe_div_or, max_ℤ}
use riabow_dex_backend.Positions.Types.{
  PositionSide, long, short, Position, PositionConfig, LiquidationInfo, LiquidationReason,
  no_collateral, below_minimum, max_leverage_exceeded,
}

unfoldable pub calculate_unrealized_pnl : DecimalOps → Position → ℤ → ℤ
calculate_unrealized_pnl o p mark = elim p.side [
  | long ↦ o.mul p.size_in_tokens mark -ℤ p.size_in_usd
  | short ↦ p.size_in_usd -ℤ o.mul p.size_in_tokens mark
]

unfoldable pub calculate_unrealized_pnl_percent : DecimalOps → Position → ℤ → ℤ
unfolding calculate_unrealized_pnl safe_div_or from_int
calculate_unrealized_pnl_percent o p mark =
    if p.collateral_amount ==ℤ pos 0
    then pos 0
    else o.mul (safe_div_or o (calculate_unrealized_pnl o p mark) p.collateral_amount (pos 0))
        (from_int o (pos 100))

unfoldable pub calculate_liquidation_price : DecimalOps → ℤ → ℤ → PositionSide → ℤ → ℤ
unfolding from_int safe_div_or
calculate_liquidation_price o entry_price leverage side rate =
    let share = safe_div_or o o.one (from_int o leverage) (pos 0) in
    elim side [
      | long ↦ o.mul entry_price (o.one -ℤ share +ℤ rate)
      | short ↦ o.mul entry_price (o.one +ℤ share -ℤ rate)
    ]

-- The funding and borrowing fees; the trading fee is not among them.
abbrev pub fees_of : Position → ℤ
fees_of p = p.accumulated_funding_fee +ℤ p.accumulated_borrowing_fee

unfoldable pub liquidation_numerator : DecimalOps → Position → ℤ → ℤ
liquidation_numerator o p rate =
    let min_collateral = o.mul p.size_in_usd rate in
    elim p.side [
      | long ↦ min_collateral -ℤ p.collateral_amount +ℤ fees_of p +ℤ p.size_in_usd
      | short ↦ p.collateral_amount -ℤ fees_of p +ℤ p.size_in_usd -ℤ min_collateral
    ]

unfoldable pub calculate_liquidation_price_from_position : DecimalOps → Position → ℤ → ℤ
unfolding liquidation_numerator safe_div_or
calculate_liquidation_price_from_position o p rate =
    if leb_ℤ p.size_in_tokens (pos 0)
    then pos 0
    else max_ℤ (safe_div_or o (liquidation_numerator o p rate) p.size_in_tokens (pos 0)) (pos 0)

unfoldable pub calculate_remaining_collateral_usd : DecimalOps → Position → ℤ → ℤ → ℤ
unfolding calculate_unrealized_pnl
calculate_remaining_collateral_usd o p mark collateral_price =
    o.mul p.collateral_amount collateral_price +ℤ calculate_unrealized_pnl o p mark -ℤ fees_of p

unfoldable pub calculate_net_value : DecimalOps → Position → ℤ → ℤ
unfolding calculate_unrealized_pnl
calculate_net_value o p mark = p.collateral_amount +ℤ calculate_unrealized_pnl o p mark -ℤ fees_of p

unfoldable pub calculate_margin_ratio_with_mmr : DecimalOps → Position → ℤ → ℤ → ℤ
unfolding calculate_remaining_collateral_usd safe_div_or
calculate_margin_ratio_with_mmr o p mark rate =
    let equity = calculate_remaining_collateral_usd o p mark o.one in
    let tokens =
      if ltb_ℤ (pos 0) p.entry_price
      then safe_div_or o p.size_in_usd p.entry_price (pos 0)
      else pos 0 in
    if leb_ℤ equity (pos 0)
    then o.one
    else safe_div_or o (o.mul (o.mul tokens mark) rate) equity (pos 0)

-- The first reason that applies.
unfoldable pub liquidation_reason : ℤ → ℤ → ℤ → Option LiquidationReason
liquidation_reason remaining min_collateral min_for_leverage =
    if leb_ℤ remaining (pos 0)
    then some no_collateral
    else if ltb_ℤ remaining min_collateral
    then some below_minimum
    else if ltb_ℤ remaining min_for_leverage
    then some max_leverage_exceeded
    else none

unfoldable pub check_liquidation : DecimalOps → PositionConfig → Position → ℤ → LiquidationInfo
unfolding calculate_remaining_collateral_usd liquidation_reason
check_liquidation o config p mark =
    let remaining = calculate_remaining_collateral_usd o p mark o.one in
    let min_for_leverage = o.mul p.size_in_usd config.maintenance_margin_rate in
    let reason = liquidation_reason remaining config.min_collateral_usd min_for_leverage in
    record {
      is_liquidatable = elim reason [ none ↦ false | some r ↦ true ];
      reason = reason;
      remaining_collateral_usd = remaining;
      min_collateral_usd = config.min_collateral_usd;
      min_collateral_for_leverage = min_for_leverage;
    }
