-- ===== src/Positions/Increase.antt =====
-- backend/src/services/position/mod.rs: `increase_position`, which first nets an opposing position.
--
-- The id of a new position is the database's, a parameter. The decimals 0.005 and 0.5 % are
-- `Decimal::new(5, 3)`.
pub mod Opened
pub mod Netting
use riabow_dex_backend.Prelude.{
  ℕ, Bool, true, false, not, ◌&&◌, ◌||◌, Option, none, some, List, [], ◌∷◌, if◌then◌else◌,
}
use riabow_dex_backend.Prelude.Int.{ℤ, pos, ◌+ℤ◌, ◌-ℤ◌, leb_ℤ, ltb_ℤ, ◌==ℤ◌}
use riabow_dex_backend.DecimalOps.{DecimalOps, from_int, safe_div_or, max_ℤ}
use riabow_dex_backend.Positions.Types.{
  PositionSide, long, short, Position, PositionConfig, open_position, IncreasePositionResult,
  DecreasePositionResult, PositionOutcome, PositionError, done, failed, leverage_too_high,
  insufficient_collateral, would_be_liquidatable,
}
use riabow_dex_backend.Positions.Formulas.{
  calculate_liquidation_price, calculate_liquidation_price_from_position, check_liquidation,
}
use riabow_dex_backend.Positions.Store.{
  PositionStore, find_user_position, update_position, settle_balance, cleanup_frozen,
}
use riabow_dex_backend.Positions.Decrease.{decrease_position}

-- `opposing_close_balance_delta`: what leaves frozen, what is added to available, and what of the
-- incoming order moves from frozen to available.
pub record BalanceDelta : Type 0 where
  pub frozen_sub : ℤ
  pub available_add : ℤ
  pub incoming_release : ℤ

unfoldable pub opposing_close_balance_delta : Bool → Bool → ℤ → ℤ → ℤ → ℤ → ℤ → ℤ → BalanceDelta
opposing_close_balance_delta pre_froze partial opp_collateral opp_buffer opp_opening_fee returned
      incoming new_collateral =
    let returned' = max_ℤ returned (pos 0) in
    let leftover = max_ℤ (returned' -ℤ max_ℤ new_collateral (pos 0)) (pos 0) in
    if pre_froze
    then record {
      frozen_sub = opp_collateral +ℤ opp_buffer +ℤ opp_opening_fee;
      available_add = if partial then returned' +ℤ opp_buffer else opp_buffer +ℤ leftover;
      incoming_release = if partial then incoming else pos 0;
    }
    else record {
      frozen_sub = pos 0;
      available_add = if partial then returned' else leftover;
      incoming_release = pos 0;
    }

-- The two updates of the balance after an opposing close; the second only on a partial one.
unfoldable pub apply_delta : ℕ → BalanceDelta → PositionStore → PositionStore
unfolding settle_balance
apply_delta user delta s =
    let first =
      if ltb_ℤ (pos 0) delta.frozen_sub || ltb_ℤ (pos 0) delta.available_add
      then settle_balance user delta.frozen_sub delta.available_add s.balances
      else s.balances in
    record s {
      balances =
          if ltb_ℤ (pos 0) delta.incoming_release
          then settle_balance user delta.incoming_release delta.incoming_release first
          else first;
    }

pub record Increase : Type 0 where
  pub user_address : ℕ
  pub symbol : ℕ
  pub side : PositionSide
  pub collateral_amount : ℤ
  pub leverage : ℤ
  pub execution_price : ℤ
  pub skip_min_size_check : Bool
  pub trade_id : Option ℕ

unfoldable pub opposing_side : PositionSide → PositionSide
opposing_side long = short
opposing_side short = long

abbrev pub size_of : DecimalOps → Increase → ℤ
size_of o r = o.mul r.collateral_amount (from_int o r.leverage)

-- `incoming_size_in_tokens`
unfoldable pub incoming_tokens : DecimalOps → Increase → ℤ
incoming_tokens o r =
    if ltb_ℤ (pos 0) r.execution_price then o.div (size_of o r) r.execution_price else pos 0

-- `close_size_usd` of a partial close.
unfoldable pub close_size_for : DecimalOps → Increase → Position → ℤ
unfolding incoming_tokens
close_size_for o r opposing =
    if opposing.size_in_tokens ==ℤ incoming_tokens o r
    then opposing.size_in_usd
    else if ltb_ℤ (pos 0) opposing.size_in_tokens
    then o.div (o.mul opposing.size_in_usd (incoming_tokens o r)) opposing.size_in_tokens
    else size_of o r

-- 0.5 % of the margin of an amount.
unfoldable pub buffer_of : DecimalOps → ℤ → ℤ → ℤ
buffer_of o size leverage = o.mul (o.div size (from_int o leverage)) (o.new_decimal (pos 5) 3)

-- What the opposing position is after it was decreased, or none when it is fully closed.
unfoldable pub remaining_position :
    Increase → DecreasePositionResult → PositionStore → Option Position
unfolding find_user_position
remaining_position r result s =
    if result.is_fully_closed
    then none
    else find_user_position r.user_address r.symbol (opposing_side r.side) s.positions

-- `?` on the result of a decrease; the writes before stay.
unfoldable pub after_decrease :
    {A : Type 0}
    → PositionOutcome DecreasePositionResult × PositionStore
    → (DecreasePositionResult → PositionStore → A × PositionStore)
    → (PositionError → A)
    → A × PositionStore
after_decrease (failed x, s) next error = (error x, s)
after_decrease (done result, s) next error = next result s

-- After a full close, what is still frozen for nothing is released.
unfoldable pub sweep_closed : Bool → ℕ → PositionStore → PositionStore
unfolding cleanup_frozen
sweep_closed true user s = cleanup_frozen user s
sweep_closed false user s = s

unfoldable pub finish_reduce :
    DecimalOps
    → Increase
    → Position
    → ℤ
    → DecreasePositionResult
    → PositionStore
    → PositionOutcome IncreasePositionResult × PositionStore
unfolding apply_delta sweep_closed remaining_position
finish_reduce o r opposing close_size_usd result s =
    let ratio = safe_div_or o close_size_usd opposing.size_in_usd (pos 0) in
    let delta =
      opposing_close_balance_delta (not r.skip_min_size_check) true
        (o.mul opposing.collateral_amount ratio) (buffer_of o close_size_usd opposing.leverage)
        (pos 0) result.collateral_returned r.collateral_amount (pos 0) in
    let paid = apply_delta r.user_address delta s in
    let swept = sweep_closed result.is_fully_closed r.user_address paid in
    (
      done (record {
        position = remaining_position r result swept;
        size_delta_usd = size_of o r;
        size_delta_tokens = safe_div_or o (size_of o r) r.execution_price (pos 0);
        collateral_delta = result.collateral_returned;
        fees_paid = result.fees_paid;
      }),
      swept,
    )

-- The opposing position is at least as large: it is decreased, and nothing is opened.
unfoldable pub reduce_opposing :
    DecimalOps
    → PositionConfig
    → Increase
    → Position
    → PositionStore
    → PositionOutcome IncreasePositionResult × PositionStore
unfolding finish_reduce after_decrease
reduce_opposing o config r opposing s =
    let n = close_size_for o r opposing in
    after_decrease (decrease_position o config opposing.id (some n) r.execution_price r.trade_id s)
      (finish_reduce o r opposing n) failed

-- The rest of the order, in the price of the fill.
unfoldable pub effective_size : DecimalOps → Increase → Position → ℤ
effective_size o r opposing =
    o.mul (max_ℤ (incoming_tokens o r -ℤ opposing.size_in_tokens) (pos 0)) r.execution_price

-- The balance after the opposing position is closed whole.
unfoldable pub pay_flip :
    DecimalOps → Increase → Position → DecreasePositionResult → PositionStore → PositionStore
unfolding effective_size apply_delta
pay_flip o r opposing result s =
    let size = effective_size o r opposing in
    let new_collateral =
      if ltb_ℤ (pos 0) size then max_ℤ (o.div size (from_int o r.leverage)) (pos 0) else pos 0 in
    apply_delta r.user_address
      (opposing_close_balance_delta (not r.skip_min_size_check) false opposing.collateral_amount
        (buffer_of o opposing.size_in_usd opposing.leverage) (pos 0) result.collateral_returned
        r.collateral_amount new_collateral)
      s

-- What is opened: the size, the collateral for an error or an empty result, and the profit that was
-- realized.
pub record Opening : Type 0 where
  pub size_usd : ℤ
  pub collateral : ℤ
  pub realized_pnl : ℤ

-- A new position, and one that exists and grows.
unfoldable pub new_position :
    DecimalOps → PositionConfig → ℕ → Increase → Opening → ℤ → ℤ → Position
new_position o config id r w tokens collateral = record {
  id = id;
  user_address = r.user_address;
  symbol = r.symbol;
  side = r.side;
  size_in_usd = w.size_usd;
  size_in_tokens = tokens;
  collateral_amount = collateral;
  entry_price = r.execution_price;
  leverage = r.leverage;
  liquidation_price =
      calculate_liquidation_price o r.execution_price r.leverage r.side
        config.maintenance_margin_rate;
  accumulated_funding_fee = pos 0;
  accumulated_borrowing_fee = pos 0;
  accumulated_trading_fee = pos 0;
  realized_pnl = w.realized_pnl;
  status = open_position;
}

unfoldable pub grown_position : DecimalOps → PositionConfig → Position → Opening → ℤ → ℤ → Position
grown_position o config p w tokens collateral =
    let size = p.size_in_usd +ℤ w.size_usd in
    let total_tokens = p.size_in_tokens +ℤ tokens in
    let q = record p {
      size_in_usd = size;
      size_in_tokens = total_tokens;
      collateral_amount = p.collateral_amount +ℤ collateral;
      entry_price = safe_div_or o size total_tokens p.entry_price;
    } in
    record q {
      liquidation_price =
          calculate_liquidation_price_from_position o q config.maintenance_margin_rate;
    }

-- The row that a trade leaves: the position on its side grown, or a new one.
unfoldable pub opened_row :
    DecimalOps → PositionConfig → ℕ → Increase → Opening → ℤ → ℤ → Option Position → Position
unfolding new_position grown_position
opened_row o config id r w tokens collateral none = new_position o config id r w tokens collateral
opened_row o config id r w tokens collateral (some p) =
    grown_position o config p w tokens collateral

unfoldable pub put_row : Option Position → Position → List Position → List Position
unfolding update_position
put_row none q ps = q ∷ ps
put_row (some p) q ps = update_position q ps

-- The result, where a trade is too small, has too little collateral, is unsafe, or is none of these.
unfoldable pub finish_open :
    DecimalOps
    → PositionConfig
    → Increase
    → Opening
    → ℤ
    → ℤ
    → Option Position
    → Position
    → Bool
    → Bool
    → Bool
    → PositionStore
    → PositionOutcome IncreasePositionResult × PositionStore
unfolding put_row
finish_open o config r w tokens collateral old q true short_of unsafe s = (
  done (record {
    position = none;
    size_delta_usd = size_of o r;
    size_delta_tokens = o.div (size_of o r) r.execution_price;
    collateral_delta = w.collateral;
    fees_paid = pos 0;
  }),
  s,
)
finish_open o config r w tokens collateral old q false true unsafe s =
    (failed (insufficient_collateral config.min_collateral_usd w.collateral), s)
finish_open o config r w tokens collateral old q false false true s =
    (failed would_be_liquidatable, s)
finish_open o config r w tokens collateral old q false false false s = (
  done (record {
    position = some q;
    size_delta_usd = w.size_usd;
    size_delta_tokens = tokens;
    collateral_delta = collateral;
    fees_paid = pos 0;
  }),
  record s { positions = put_row old q s.positions },
)

-- The last steps: the checks, which a trade skips, and the row.
unfoldable pub open_rest :
    DecimalOps
    → PositionConfig
    → ℕ
    → Increase
    → Opening
    → PositionStore
    → PositionOutcome IncreasePositionResult × PositionStore
unfolding opened_row finish_open find_user_position
open_rest o config id r w s =
    let tokens = safe_div_or o w.size_usd r.execution_price (pos 0) in
    let collateral = safe_div_or o w.size_usd (from_int o r.leverage) (pos 0) in
    let old = find_user_position r.user_address r.symbol r.side s.positions in
    let q = opened_row o config id r w tokens collateral old in
    let checked = not r.skip_min_size_check in
    finish_open o config r w tokens collateral old q
      (checked && ltb_ℤ w.size_usd config.min_position_size_usd)
      (checked && ltb_ℤ collateral config.min_collateral_usd)
      (checked && (check_liquidation o config q r.execution_price).is_liquidatable) s

-- What is opened after the opposing position was closed.
unfoldable pub rest_of : DecimalOps → Increase → Position → DecreasePositionResult → Opening
unfolding effective_size
rest_of o r opposing result = record {
  size_usd = effective_size o r opposing;
  collateral = r.collateral_amount +ℤ result.collateral_returned -ℤ result.fees_paid;
  realized_pnl = result.pnl_realized;
}

-- The order is larger than the opposing position, which is closed.
unfoldable pub flip :
    DecimalOps
    → PositionConfig
    → ℕ
    → Increase
    → Position
    → PositionStore
    → PositionOutcome IncreasePositionResult × PositionStore
unfolding pay_flip rest_of open_rest after_decrease
flip o config id r opposing s =
    after_decrease (decrease_position o config opposing.id none r.execution_price r.trade_id s)
      (λ result s'.
        open_rest o config id r (rest_of o r opposing result) (pay_flip o r opposing result s'))
      failed

-- `increase_position_inner`, with the opposing position that is found.
unfoldable pub increase_against :
    DecimalOps
    → PositionConfig
    → ℕ
    → Increase
    → Option Position
    → PositionStore
    → PositionOutcome IncreasePositionResult × PositionStore
unfolding reduce_opposing flip open_rest
increase_against o config id r none s =
    open_rest o config id r
      (record { size_usd = size_of o r; collateral = r.collateral_amount; realized_pnl = pos 0 }) s
increase_against o config id r (some opposing) s =
    if leb_ℤ (incoming_tokens o r) opposing.size_in_tokens
    then reduce_opposing o config r opposing s
    else flip o config id r opposing s

unfoldable pub increase_position_inner :
    DecimalOps
    → PositionConfig
    → ℕ
    → Increase
    → PositionStore
    → PositionOutcome IncreasePositionResult × PositionStore
unfolding increase_against find_user_position
increase_position_inner o config id r s =
    increase_against o config id r
      (find_user_position r.user_address r.symbol (opposing_side r.side) s.positions) s

-- `increase_position`. The transaction holds the advisory lock only: the writes are made outside of
-- it, so an error does not undo them.
unfoldable pub increase_position :
    DecimalOps
    → PositionConfig
    → ℕ
    → Increase
    → PositionStore
    → PositionOutcome IncreasePositionResult × PositionStore
unfolding increase_position_inner
increase_position o config id r s =
    if ltb_ℤ config.max_leverage r.leverage || ltb_ℤ r.leverage (pos 1)
    then (failed (leverage_too_high config.max_leverage), s)
    else increase_position_inner o config id r s
