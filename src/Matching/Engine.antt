-- ===== src/Matching/Engine.antt =====
-- backend/src/services/matching/engine.rs: the engine over the books of all symbols.
--
-- The books of the symbols are in Matching.Books. What the engine sends (trade events, then book
-- updates) is a list that an operation returns beside its result; how the channels deliver it,
-- the metrics and the log are left out.
pub mod Submit
pub mod Uncrossed
pub mod Symbols
use riabow_dex_backend.Prelude.{
  ℕ, ◌+◌, ◌-◌, ◌*◌, ◌^◌, Bool, true, false, not, Option, none, some, List, [], ◌∷◌, ◌++◌,
  if◌then◌else◌, ◌==◌, sum_by, map, ltb, leb, ◌&&◌, is_some, length,
}
use riabow_dex_backend.Prelude.Int.{ℤ, pos, ◌+ℤ◌}
use riabow_dex_backend.Decimals.{Decimals}
use riabow_dex_backend.Matching.Types.{
  Uuid, Text, Side, OrderType, limit, market, take_profit_limit, stop_loss_limit,
  take_profit_market, stop_loss_market, TimeInForce, gtc, ioc, fok, OrderStatus, open_order,
  partially_filled, filled, cancelled, rejected, OrderEntry, TradeExecution, TradeEvent,
  MatchResult, MatchingError, symbol_not_found, invalid_amount, invalid_price, Result, ok, err,
  eq_ignore_ascii_case,
}
use riabow_dex_backend.Matching.Fill.{Taker}
use riabow_dex_backend.Matching.Books.{MatchingEngine, get_orderbook_ref, store_orderbook}
use riabow_dex_backend.Matching.Orderbook.{
  Orderbook, new_orderbook, OrderbookSnapshot, snapshot, match_order, add_order, cancel_order,
  best_bid, best_ask,
}

-- What the engine sends to its subscribers.
pub data Message : Type 0 where
  trade_event : TradeEvent → Message
  orderbook_update : OrderbookSnapshot → Message

-- `broadcast_orderbook_update`: the top 30 levels
unfoldable pub orderbook_update_of : Orderbook → Message
unfolding snapshot
orderbook_update_of b = orderbook_update (snapshot 30 b)

-- The arguments of `submit_order`, with the clock and the supply of trade ids.
pub record Submission : Type 0 where
  pub order_id : Uuid
  pub symbol : Text
  pub user_address : Text
  pub side : Side
  pub order_type : OrderType
  pub amount : ℕ
  pub price : Option ℕ
  pub time_in_force : TimeInForce
  pub leverage : ℕ
  pub taker_fee_rate : ℕ
  pub maker_fee_rate : ℕ
  pub now : ℤ
  pub new_trade_id : ℕ → Uuid

abbrev pub is_limit_like : OrderType → Bool
is_limit_like limit = true
is_limit_like take_profit_limit = true
is_limit_like stop_loss_limit = true
is_limit_like _ = false

abbrev pub is_gtc : TimeInForce → Bool
is_gtc gtc = true
is_gtc ioc = false
is_gtc fok = false

-- 10^-12, in units of 10^-18
abbrev pub fill_drift_epsilon : ℕ
fill_drift_epsilon = 10 ^ 6

abbrev pub taker_of : Submission → Taker
taker_of o = record {
  order_id = o.order_id;
  side = o.side;
  amount = o.amount;
  limit_price = o.price;
  time_in_force = o.time_in_force;
  fee_rate = o.taker_fee_rate;
  leverage = o.leverage;
  now = o.now;
  new_trade_id = o.new_trade_id;
}

unfoldable pub event_of : Submission → TradeExecution → TradeEvent
unfolding eq_ignore_ascii_case
event_of o t = record {
  symbol = o.symbol;
  trade_id = t.trade_id;
  maker_order_id = t.maker_order_id;
  taker_order_id = t.taker_order_id;
  maker_address = t.maker_address;
  taker_address = o.user_address;
  side = o.side;
  price = t.price;
  amount = t.amount;
  maker_fee = t.maker_fee;
  taker_fee = t.taker_fee;
  timestamp = t.timestamp;
  maker_leverage = t.maker_leverage;
  taker_leverage = t.taker_leverage;
  is_self_trade = eq_ignore_ascii_case t.maker_address o.user_address;
}

-- A remainder below the drift counts as filled.
unfoldable pub filled_amount_of : ℕ → ℕ → ℕ
filled_amount_of amount remaining =
    if ltb 0 remaining && ltb remaining fill_drift_epsilon then amount else amount - remaining

-- The statuses of an order that the engine expects to find in the book after `submit_order`.
unfoldable pub should_be_in_book : OrderStatus → Bool
should_be_in_book open_order = true
should_be_in_book partially_filled = true
should_be_in_book filled = false
should_be_in_book cancelled = false
should_be_in_book rejected = false

-- The entry that rests, with the price that a limit order has.
abbrev pub entry_of : Submission → ℕ → ℕ → OrderEntry
entry_of o price remaining = record {
  id = o.order_id;
  user_address = o.user_address;
  price = price;
  original_amount = o.amount;
  remaining_amount = remaining;
  side = o.side;
  time_in_force = o.time_in_force;
  timestamp = o.now;
  leverage = o.leverage;
  maker_fee_rate = o.maker_fee_rate;
}

-- `orderbook.add_order(entry)`, where `price.unwrap()` has a price
abbrev pub rest_at : Submission → ℕ → Orderbook → Option ℕ → Orderbook
rest_at o remaining b none = b
rest_at o remaining b (some p) = add_order (entry_of o p remaining) b

abbrev pub rest_order : Submission → ℕ → Orderbook → Orderbook
rest_order o remaining b = rest_at o remaining b o.price

-- The status of the order, and the book once its residual rests, if it does.
unfoldable pub place_residual : Submission → ℕ → ℕ → Orderbook → OrderStatus × Orderbook
place_residual o filled_amount remaining b =
    let rests = is_limit_like o.order_type && is_gtc o.time_in_force in
    if filled_amount == o.amount
    then (filled, b)
    else if ltb 0 filled_amount
    then (partially_filled, if rests && ltb 0 remaining then rest_order o remaining b else b)
    else if rests
    then (open_order, rest_order o o.amount b)
    else (cancelled, b)

-- `safe_div!`
unfoldable pub safe_div : Decimals → ℕ → ℕ → ℕ
safe_div d numerator denominator = if denominator == 0 then 0 else d.quotient numerator denominator

unfoldable pub average_price_of : Decimals → ℕ → List TradeExecution → Option ℕ
unfolding safe_div
average_price_of d filled_amount trades =
    if ltb 0 filled_amount
    then some (safe_div d (sum_by (λ t. t.price * t.amount) trades) filled_amount)
    else none

-- `submit_order` once the symbol is found and the inputs are valid.
unfoldable pub process_order :
    Decimals → Submission → Orderbook → MatchResult × List Message × Orderbook
unfolding match_order event_of filled_amount_of place_residual average_price_of orderbook_update_of
process_order d o b =
    let (trades, remaining, b') = match_order d (taker_of o) b in
    let filled_amount = filled_amount_of o.amount remaining in
    let (status, b'') = place_residual o filled_amount remaining b' in
    (
      record {
        order_id = o.order_id;
        status = status;
        filled_amount = filled_amount;
        remaining_amount = remaining;
        average_price = average_price_of d filled_amount trades;
        trades = trades;
      },
      map (λ t. trade_event (event_of o t)) trades ++ orderbook_update_of b'' ∷ [],
      b'',
    )

-- `submit_order`
unfoldable pub submit_order :
    Decimals → Submission → MatchingEngine → Result MatchResult × List Message × MatchingEngine
unfolding process_order get_orderbook_ref store_orderbook
submit_order d o g = elim (get_orderbook_ref o.symbol g.orderbooks) [
  | none ↦ (err (symbol_not_found o.symbol), [], g)
  | some b ↦
      if o.amount == 0
      then (err invalid_amount, [], g)
      else if is_limit_like o.order_type && not (is_some o.price)
      then (err invalid_price, [], g)
      else let (result, messages, b') = process_order d o b in
        (ok result, messages, record g { orderbooks = store_orderbook o.symbol b' g.orderbooks })
]

-- `MatchingEngine::cancel_order`
unfoldable pub engine_cancel_order :
    Text → Uuid → MatchingEngine → Result Bool × List Message × MatchingEngine
unfolding cancel_order get_orderbook_ref store_orderbook orderbook_update_of
engine_cancel_order symbol id g = elim (get_orderbook_ref symbol g.orderbooks) [
  | none ↦ (err (symbol_not_found symbol), [], g)
  | some b ↦
      let (found, b') = cancel_order id b in
      let g' : MatchingEngine = record g { orderbooks = store_orderbook symbol b' g.orderbooks } in
      elim found [ some e ↦ (ok true, orderbook_update_of b' ∷ [], g') | none ↦ (ok false, [], g') ]
]

unfoldable pub get_orderbook : Text → ℕ → MatchingEngine → Result OrderbookSnapshot
unfolding get_orderbook_ref snapshot
get_orderbook symbol depth g = elim (get_orderbook_ref symbol g.orderbooks) [
  | none ↦ err (symbol_not_found symbol)
  | some b ↦ ok (snapshot depth b)
]

unfoldable pub get_best_prices : Text → MatchingEngine → Result (Option ℤ × Option ℤ)
unfolding get_orderbook_ref best_bid best_ask
get_best_prices symbol g = elim (get_orderbook_ref symbol g.orderbooks) [
  | none ↦ err (symbol_not_found symbol)
  | some b ↦ ok (best_bid b, best_ask b)
]
