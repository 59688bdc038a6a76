-- ===== src/Positions/Decrease.antt =====
-- backend/src/services/position/mod.rs: `decrease_position`.
pub mod Remains
pub mod Accounts
use riabow_dex_backend.Prelude.{
  ℕ, Bool, true, false, Option, none, some, List, ◌++◌, [], ◌∷◌, if◌then◌else◌, ◌||◌,
}
use riabow_dex_backend.Prelude.Int.{ℤ, pos, ◌+ℤ◌, ◌-ℤ◌, leb_ℤ, ltb_ℤ}
use riabow_dex_backend.DecimalOps.{DecimalOps, safe_div_or, max_ℤ, min_ℤ}
use riabow_dex_backend.Positions.Types.{
  Position, PositionConfig, PositionStatus, open_position, closed, liquidated,
  DecreasePositionResult, PositionOutcome, done, failed, not_found, already_closed,
}
use riabow_dex_backend.Positions.Formulas.{calculate_unrealized_pnl, check_liquidation}
use riabow_dex_backend.Positions.Store.{
  PositionStore, FeeEvent, PnlEvent, FeeType, trading_fee, funding_fee, borrowing_fee,
  find_position, update_position, remove_id, record_fee_event,
}

-- The proportional values of a close.
pub record Portion : Type 0 where
  pub close_size_usd : ℤ
  pub close_size_tokens : ℤ
  pub collateral_to_return : ℤ
  pub realized_pnl : ℤ
  pub trading : ℤ
  pub funding : ℤ
  pub borrowing : ℤ

unfoldable pub close_ratio_of : DecimalOps → Position → ℤ → ℤ
unfolding safe_div_or
close_ratio_of o p close_size_usd =
    o.round_dp10 (safe_div_or o close_size_usd p.size_in_usd (pos 0))

unfoldable pub portion_of : DecimalOps → Position → ℤ → ℤ → Portion
unfolding close_ratio_of
portion_of o p close_size_usd price =
    let ratio = close_ratio_of o p close_size_usd in
    record {
      close_size_usd = close_size_usd;
      close_size_tokens = o.mul p.size_in_tokens ratio;
      collateral_to_return = o.mul p.collateral_amount ratio;
      realized_pnl = o.mul (calculate_unrealized_pnl o p price) ratio;
      trading = o.mul p.accumulated_trading_fee ratio;
      funding = o.mul p.accumulated_funding_fee ratio;
      borrowing = o.mul p.accumulated_borrowing_fee ratio;
    }

abbrev pub total_fees : Portion → ℤ
total_fees c = c.trading +ℤ c.funding +ℤ c.borrowing

-- `amount_returned`, before it is kept from being negative.
abbrev pub amount_returned : Portion → ℤ
amount_returned c = c.collateral_to_return +ℤ c.realized_pnl -ℤ total_fees c

-- The position after a full close, and after a partial one.
unfoldable pub closed_position : Position → Portion → Position
closed_position p c = record p {
  status = closed;
  size_in_usd = pos 0;
  size_in_tokens = pos 0;
  collateral_amount = pos 0;
  accumulated_trading_fee = pos 0;
  accumulated_funding_fee = pos 0;
  accumulated_borrowing_fee = pos 0;
  realized_pnl = p.realized_pnl +ℤ c.realized_pnl;
}

unfoldable pub reduced_position : Position → Portion → Position
reduced_position p c = record p {
  size_in_usd = p.size_in_usd -ℤ c.close_size_usd;
  size_in_tokens = p.size_in_tokens -ℤ c.close_size_tokens;
  collateral_amount = p.collateral_amount -ℤ c.collateral_to_return;
  realized_pnl = p.realized_pnl +ℤ c.realized_pnl;
  accumulated_trading_fee = max_ℤ (p.accumulated_trading_fee -ℤ c.trading) (pos 0);
  accumulated_funding_fee = max_ℤ (p.accumulated_funding_fee -ℤ c.funding) (pos 0);
  accumulated_borrowing_fee = max_ℤ (p.accumulated_borrowing_fee -ℤ c.borrowing) (pos 0);
}

-- How the position is decreased, with its new row.
pub record Close : Type 0 where
  pub portion : Portion
  pub row : Position
  pub is_full_close : Bool

unfoldable pub full_close : DecimalOps → Position → ℤ → Close
unfolding portion_of closed_position
full_close o p price =
    let c = portion_of o p p.size_in_usd price in
    record { portion = c; row = closed_position p c; is_full_close = true }

-- The whole position is closed, or a partial close would leave one that is liquidatable or too small.
unfoldable pub closes_fully : DecimalOps → PositionConfig → Position → ℤ → Position → ℤ → Bool
closes_fully o config p close_size_usd reduced price =
    leb_ℤ p.size_in_usd close_size_usd
    || (check_liquidation o config reduced price).is_liquidatable
    || ltb_ℤ reduced.size_in_usd config.min_position_size_usd

unfoldable pub partial_close : DecimalOps → Position → ℤ → ℤ → Close
unfolding portion_of reduced_position
partial_close o p close_size_usd price =
    let c = portion_of o p close_size_usd price in
    record { portion = c; row = reduced_position p c; is_full_close = false }

unfoldable pub close_size_of : Position → Option ℤ → ℤ
close_size_of p none = min_ℤ p.size_in_usd p.size_in_usd
close_size_of p (some n) = min_ℤ n p.size_in_usd

unfoldable pub close_of : DecimalOps → PositionConfig → Position → Option ℤ → ℤ → Close
unfolding full_close partial_close close_size_of closes_fully
close_of o config p size price =
    if closes_fully o config p (close_size_of p size)
      (partial_close o p (close_size_of p size) price).row price
    then full_close o p price
    else partial_close o p (close_size_of p size) price

-- `record_close_ledger`
unfoldable pub record_close_ledger : Position → Option ℕ → Portion → List FeeEvent → List FeeEvent
unfolding record_fee_event
record_close_ledger p trade_id c ledger =
    let event : FeeType → ℤ → FeeEvent = λ t a. record {
      user_address = p.user_address;
      position_id = p.id;
      trade_id = trade_id;
      fee_type = t;
      amount = a;
    } in
    record_fee_event (event borrowing_fee c.borrowing) (
      record_fee_event (event funding_fee c.funding)
        (record_fee_event (event trading_fee c.trading) ledger))

-- The writes of a close: a full one also ends the trigger orders of the position.
unfoldable pub apply_close : Close → Option ℕ → ℤ → PositionStore → PositionStore
unfolding update_position record_close_ledger remove_id
apply_close k trade_id price s =
    let event : PnlEvent = record {
      user_address = k.row.user_address;
      symbol = k.row.symbol;
      position_id = k.row.id;
      realized_pnl = k.portion.realized_pnl;
      execution_price = price;
      size_delta_usd = k.portion.close_size_usd;
      is_full_close = k.is_full_close;
      trade_id = trade_id;
    } in
    record s {
      positions = update_position k.row s.positions;
      ledger = record_close_ledger k.row trade_id k.portion s.ledger;
      pnl_events = s.pnl_events ++ (event ∷ []);
      active_triggers =
          if k.is_full_close then remove_id k.row.id s.active_triggers else s.active_triggers;
      tp_sl = if k.is_full_close then remove_id k.row.id s.tp_sl else s.tp_sl;
    }

unfoldable pub decrease_result : Close → DecreasePositionResult
decrease_result k = record {
  position = if k.is_full_close then none else some k.row;
  size_delta_usd = k.portion.close_size_usd;
  pnl_realized = k.portion.realized_pnl;
  collateral_returned = max_ℤ (amount_returned k.portion) (pos 0);
  fees_paid = total_fees k.portion;
  is_fully_closed = k.is_full_close;
}

-- Only an open position is closed.
unfoldable pub close_open :
    PositionStatus
    → Close
    → Option ℕ
    → ℤ
    → PositionStore
    → PositionOutcome DecreasePositionResult × PositionStore
unfolding apply_close decrease_result
close_open open_position k trade_id price s =
    (done (decrease_result k), apply_close k trade_id price s)
close_open closed k trade_id price s = (failed already_closed, s)
close_open liquidated k trade_id price s = (failed already_closed, s)

unfoldable pub decrease_found :
    DecimalOps
    → PositionConfig
    → Option Position
    → Option ℤ
    → ℤ
    → Option ℕ
    → PositionStore
    → PositionOutcome DecreasePositionResult × PositionStore
unfolding close_of close_open
decrease_found o config none size price trade_id s = (failed not_found, s)
decrease_found o config (some p) size price trade_id s =
    close_open p.status (close_of o config p size price) trade_id price s

unfoldable pub decrease_position :
    DecimalOps
    → PositionConfig
    → ℕ
    → Option ℤ
    → ℤ
    → Option ℕ
    → PositionStore
    → PositionOutcome DecreasePositionResult × PositionStore
unfolding find_position decrease_found
decrease_position o config id size price trade_id s =
    decrease_found o config (find_position id s.positions) size price trade_id s
