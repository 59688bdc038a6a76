-- ===== src/Liquidation/Execute.antt =====
-- backend/src/services/liquidation/mod.rs: `execute_liquidation`, without the mail to the user.
--
-- The id of the liquidation is drawn at random there, and is a parameter.
pub mod Accounts
pub mod Once
use riabow_dex_backend.Prelude.{
  ℕ, Bool, ◌||◌, Option, none, some, List, [], ◌∷◌, ◌++◌, if◌then◌else◌, is_some,
}
use riabow_dex_backend.Prelude.Int.{ℤ, pos, ◌+ℤ◌, ◌-ℤ◌, ltb_ℤ}
use riabow_dex_backend.DecimalOps.{DecimalOps, from_int, max_ℤ, min_ℤ}
use riabow_dex_backend.Positions.Types.{Position, PositionStatus, open_position, closed, liquidated}
use riabow_dex_backend.Positions.Store.{
  PositionStore, FeeEvent, FeeType, PnlEvent, liquidation_fee, insurance_contribution,
  liquidator_reward, find_position, update_position, record_fee_event, settle_balance,
  cleanup_frozen,
}
use riabow_dex_backend.Liquidation.Types.{
  LiquidationConfig, LiquidationRecord, LiquidationResult, LiquidationStore, InsuranceFund,
  FundTransaction, get_config, find_fund, ensure_fund, upsert_fund,
}
use riabow_dex_backend.Liquidation.Conditions.{pnl_at, calculate_remaining_collateral}

pub data LiquidationOutcome : Type 0 where
  liquidation_done : LiquidationResult → LiquidationOutcome
  position_not_found position_not_open : LiquidationOutcome

-- What a liquidation is computed to be.
pub record Assessment : Type 0 where
  pub pnl : ℤ
  pub remaining : ℤ
  pub fee : ℤ
  pub contribution : ℤ
  pub reward : ℤ
  pub payout : ℤ

unfoldable pub assess : DecimalOps → LiquidationConfig → Position → ℤ → Option ℕ → ℤ → Assessment
unfolding pnl_at calculate_remaining_collateral
assess o config p mark liquidator fund_balance =
    let remaining = calculate_remaining_collateral o p mark in
    record {
      pnl = pnl_at o p.side p.size_in_usd (o.mul p.size_in_tokens mark);
      remaining = remaining;
      fee = o.mul p.size_in_usd config.liquidation_fee_rate;
      contribution = o.mul p.size_in_usd config.insurance_fund_fee_rate;
      reward =
          if is_some liquidator then o.mul p.size_in_usd config.liquidator_reward_rate else pos 0;
      payout =
          if ltb_ℤ remaining (pos 0)
          then min_ℤ (pos 0 -ℤ remaining) (o.mul fund_balance config.max_insurance_payout_rate)
          else pos 0;
    }

abbrev pub total_fees : Assessment → ℤ
total_fees a = a.fee +ℤ a.contribution +ℤ a.reward

abbrev pub collateral_returned : Assessment → ℤ
collateral_returned a = max_ℤ (a.remaining -ℤ total_fees a) (pos 0)

unfoldable pub liquidated_position : Position → Assessment → Position
liquidated_position p a = record p {
  status = liquidated;
  size_in_usd = pos 0;
  size_in_tokens = pos 0;
  collateral_amount = pos 0;
  realized_pnl = p.realized_pnl +ℤ a.pnl;
}

-- The rows of the fee ledger; the reward is paid out, so its amount is negative.
unfoldable pub record_liquidation_fees : Position → Assessment → List FeeEvent → List FeeEvent
unfolding record_fee_event
record_liquidation_fees p a ledger =
    let event : FeeType → ℤ → FeeEvent = λ t amount. record {
      user_address = p.user_address;
      position_id = p.id;
      trade_id = none;
      fee_type = t;
      amount = amount;
    } in
    record_fee_event (event liquidator_reward (pos 0 -ℤ a.reward)) (
      record_fee_event (event insurance_contribution a.contribution)
        (record_fee_event (event liquidation_fee a.fee) ledger))

-- The writes to the tables of positions, balances and events.
unfoldable pub liquidate_tables :
    DecimalOps → Position → Assessment → ℤ → PositionStore → PositionStore
unfolding liquidated_position update_position settle_balance cleanup_frozen record_liquidation_fees
    from_int
liquidate_tables o p a mark s =
    let liq_buffer =
      o.mul (o.div p.size_in_usd (from_int o p.leverage)) (o.new_decimal (pos 5) 3) in
    let event : PnlEvent = record {
      user_address = p.user_address;
      symbol = p.symbol;
      position_id = p.id;
      realized_pnl = a.pnl;
      execution_price = mark;
      size_delta_usd = p.size_in_usd;
      is_full_close = Bool.true;
      trade_id = none;
    } in
    let paid = record s {
      positions = update_position (liquidated_position p a) s.positions;
      pnl_events = s.pnl_events ++ (event ∷ []);
      balances =
          settle_balance p.user_address (p.collateral_amount +ℤ liq_buffer)
            (collateral_returned a +ℤ liq_buffer) s.balances;
    } in
    let swept = cleanup_frozen p.user_address paid in
    record swept { ledger = record_liquidation_fees p a swept.ledger }

unfoldable pub liquidation_record : ℕ → Position → Assessment → ℤ → Option ℕ → LiquidationRecord
liquidation_record id p a mark liquidator = record {
  id = id;
  position_id = p.id;
  user_address = p.user_address;
  symbol = p.symbol;
  side = p.side;
  position_size_usd = p.size_in_usd;
  position_size_tokens = p.size_in_tokens;
  collateral_amount = p.collateral_amount;
  entry_price = p.entry_price;
  liquidation_price = p.liquidation_price;
  mark_price = mark;
  remaining_collateral = a.remaining;
  liquidation_fee = a.fee;
  insurance_fund_contribution = a.contribution;
  pnl = a.pnl;
  liquidator_address = liquidator;
  liquidator_reward = a.reward;
}

unfoldable pub fund_row : ℕ → Position → Assessment → List InsuranceFund → FundTransaction
unfolding find_fund
fund_row id p a funds = record {
  symbol = p.symbol;
  is_contribution = ltb_ℤ (pos 0) a.contribution;
  amount = if ltb_ℤ (pos 0) a.contribution then a.contribution else a.payout;
  balance_after = (find_fund p.symbol funds).balance;
  liquidation_id = id;
  position_id = p.id;
}

-- The fund and its row of the change, when there is one.
unfoldable pub settle_fund : ℕ → Position → Assessment → LiquidationStore → LiquidationStore
unfolding upsert_fund fund_row
settle_fund id p a s =
    let funds = upsert_fund p.symbol (a.contribution -ℤ a.payout) a.contribution a.payout s.funds in
    if ltb_ℤ (pos 0) a.contribution || ltb_ℤ (pos 0) a.payout
    then record s {
      funds = funds;
      fund_transactions = s.fund_transactions ++ (fund_row id p a funds ∷ []);
    }
    else s

unfoldable pub liquidation_result : Position → Assessment → LiquidationResult
liquidation_result p a = record {
  position_id = p.id;
  user_address = p.user_address;
  symbol = p.symbol;
  side = p.side;
  position_size_usd = p.size_in_usd;
  collateral_returned = collateral_returned a;
  pnl = a.pnl;
  liquidation_fee = a.fee;
  insurance_fund_contribution = a.contribution;
}

-- The fund is looked up only for bad debt.
unfoldable pub look_up_fund : Position → Assessment → LiquidationStore → LiquidationStore
unfolding ensure_fund
look_up_fund p a s =
    if ltb_ℤ a.remaining (pos 0) then record s { funds = ensure_fund p.symbol s.funds } else s

unfoldable pub put_record :
    ℕ → Position → Assessment → ℤ → Option ℕ → LiquidationStore → LiquidationStore
unfolding look_up_fund liquidation_record
put_record id p a mark liquidator s = record (look_up_fund p a s) {
  liquidations = s.liquidations ++ (liquidation_record id p a mark liquidator ∷ []);
}

unfoldable pub liquidate :
    DecimalOps
    → LiquidationConfig
    → ℕ
    → Position
    → ℤ
    → Option ℕ
    → LiquidationStore
    → LiquidationOutcome × LiquidationStore
unfolding assess liquidate_tables put_record settle_fund liquidation_result find_fund
liquidate o config id p mark liquidator s =
    let a = assess o config p mark liquidator (find_fund p.symbol s.funds).balance in
    let funded = settle_fund id p a (put_record id p a mark liquidator s) in
    (
      liquidation_done (liquidation_result p a),
      record funded { tables = liquidate_tables o p a mark funded.tables },
    )

-- The row is read again under its lock, and has to be open.
unfoldable pub liquidate_open :
    DecimalOps
    → LiquidationConfig
    → ℕ
    → Position
    → PositionStatus
    → ℤ
    → Option ℕ
    → LiquidationStore
    → LiquidationOutcome × LiquidationStore
unfolding liquidate
liquidate_open o config id p open_position mark liquidator s =
    liquidate o config id p mark liquidator s
liquidate_open o config id p closed mark liquidator s = (position_not_open, s)
liquidate_open o config id p liquidated mark liquidator s = (position_not_open, s)

unfoldable pub liquidate_found :
    DecimalOps
    → LiquidationConfig
    → ℕ
    → Option Position
    → ℤ
    → Option ℕ
    → LiquidationStore
    → LiquidationOutcome × LiquidationStore
unfolding liquidate_open
liquidate_found o config id none mark liquidator s = (position_not_found, s)
liquidate_found o config id (some p) mark liquidator s =
    liquidate_open o config id p p.status mark liquidator s

unfoldable pub execute_liquidation :
    DecimalOps
    → ℕ
    → Position
    → ℤ
    → Option ℕ
    → LiquidationStore
    → LiquidationOutcome × LiquidationStore
unfolding get_config find_position liquidate_found
execute_liquidation o id position mark liquidator s =
    let (config, s') = get_config o position.symbol s in
    liquidate_found o config id (find_position position.id s'.tables.positions) mark liquidator s'
