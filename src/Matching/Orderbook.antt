-- ===== src/Matching/Orderbook.antt =====
-- backend/src/services/matching/orderbook.rs: the book of one market.
--
-- Each operation is one step on the state: the source takes the lock of the side for the whole of
-- it. The index is a function from ids, the atomic counters are integers.
pub mod Match
pub mod Invariant
pub mod Matched
pub mod Limits
pub mod Cancelled
pub mod RoundTrip
use riabow_dex_backend.Prelude.{
  ℕ, ◌+◌, Bool, true, false, Option, none, some, List, [], ◌∷◌, if◌then◌else◌, ◌==◌, sum_by, take,
  map, reverse, ltb, ◌&&◌, is_some,
}
use riabow_dex_backend.Prelude.Int.{ℤ, pos, ◌+ℤ◌, ◌-ℤ◌, ◌==ℤ◌}
use riabow_dex_backend.Decimals.{Decimals}
use riabow_dex_backend.Matching.Types.{
  Uuid, Text, PriceLevel, from_decimal, to_decimal, Side, buy, sell, TimeInForce, gtc, ioc, fok,
  OrderEntry, TradeExecution,
}
use riabow_dex_backend.Matching.Fill.{
  Queue, Level, Levels, OrderIndex, index_insert, index_remove, Taker, Matching, fill_levels,
  fillable_from, raw_trade_price,
}
use riabow_dex_backend.Matching.Levels.{
  push_level, remove_at, scan_levels, find_level, find_order, first_key, last_key, depth,
}
use mathlib.Core.Option

pub record Orderbook : Type 0 where
  pub symbol : Text
  pub bids : Levels
  pub asks : Levels
  pub order_index : OrderIndex
  pub last_trade_price : ℤ
  pub order_count : ℤ

-- `Orderbook::new`
unfoldable pub new_orderbook : Text → Orderbook
new_orderbook symbol = record {
  symbol = symbol;
  bids = [];
  asks = [];
  order_index = λ id. none;
  last_trade_price = pos 0;
  order_count = pos 0;
}

-- `Orderbook::last_trade_price`, as the raw number of units of 10^-8
unfoldable pub last_trade_price : Orderbook → Option ℤ
last_trade_price b = if b.last_trade_price ==ℤ pos 0 then none else some b.last_trade_price

unfoldable pub set_last_trade_price : Decimals → ℕ → Orderbook → Orderbook
unfolding raw_trade_price
set_last_trade_price d price b = record b { last_trade_price = raw_trade_price d price }

unfoldable pub best_bid : Orderbook → Option ℤ
unfolding last_key
best_bid b = Option.map to_decimal (last_key b.bids)

unfoldable pub best_ask : Orderbook → Option ℤ
unfolding first_key
best_ask b = Option.map to_decimal (first_key b.asks)

unfoldable pub spread : Orderbook → Option ℤ
unfolding best_bid best_ask
spread b = elim (best_bid b) [
  | none ↦ none
  | some bid ↦ elim (best_ask b) [ none ↦ none | some ask ↦ some (ask -ℤ bid) ]
]

-- The side of the book on which orders of a side rest.
abbrev pub resting : Side → Orderbook → Levels
resting buy b = b.bids
resting sell b = b.asks

abbrev pub with_resting : Side → Levels → Orderbook → Orderbook
with_resting buy levels b = record b { bids = levels }
with_resting sell levels b = record b { asks = levels }

-- An order whose id is in the index already is skipped.
unfoldable pub add_order : OrderEntry → Orderbook → Orderbook
add_order e b =
    if is_some (b.order_index e.id)
    then b
    else let l = from_decimal e.price in
      let b' = with_resting e.side (push_level l e (resting e.side b)) b in
      record b' {
        order_index = index_insert e.id (e.side, l) b.order_index;
        order_count = b.order_count +ℤ pos 1;
      }

unfoldable pub remove_from_queue :
    Side → PriceLevel → Uuid → Orderbook → Option (OrderEntry × Orderbook)
unfolding remove_at
remove_from_queue side l id b =
    Option.map (λ r. (r.0, with_resting side r.1 b)) (remove_at l id (resting side b))

unfoldable pub scan_and_remove : Side → Uuid → Orderbook → Option (OrderEntry × Orderbook)
unfolding scan_levels
scan_and_remove side id b =
    Option.map
      (λ r. (r.0, record (with_resting side r.1 b) { order_index = index_remove id b.order_index }))
      (scan_levels id (resting side b))

abbrev one_less : Orderbook → Orderbook
one_less b = record b { order_count = b.order_count -ℤ pos 1 }

-- The orphan recovery of `cancel_order`: both sides are searched.
unfoldable pub cancel_orphan : Uuid → Orderbook → Option OrderEntry × Orderbook
unfolding scan_and_remove
cancel_orphan id b = elim (scan_and_remove buy id b) [
  | some (e, b') ↦ (some e, one_less b')
  | none ↦ elim (scan_and_remove sell id b) [
    | some (e, b') ↦ (some e, one_less b')
    | none ↦ (none, b)
  ]
]

unfoldable pub cancel_order : Uuid → Orderbook → Option OrderEntry × Orderbook
unfolding remove_from_queue cancel_orphan
cancel_order id b = elim (b.order_index id) [
  | some (side, l) ↦
      let b' : Orderbook = record b { order_index = index_remove id b.order_index } in
      elim (remove_from_queue side l id b') [
        | some (e, b'') ↦ (some e, one_less b'')
        | none ↦ (none, b')
      ]
  | none ↦ cancel_orphan id b
]

abbrev pub is_fok : TimeInForce → Bool
is_fok gtc = false
is_fok ioc = false
is_fok fok = true

-- The levels that a taker of a side meets, best first, and the book with what is left of them.
abbrev pub opposite_levels : Side → Orderbook → Levels
opposite_levels buy b = b.asks
opposite_levels sell b = reverse b.bids

abbrev pub with_opposite : Side → Levels → Orderbook → Orderbook
with_opposite buy levels b = record b { asks = levels }
with_opposite sell levels b = record b { bids = reverse levels }

abbrev pub start_matching : Taker → Orderbook → Matching
start_matching t b = record {
  amount = t.amount;
  trades = [];
  order_index = b.order_index;
  order_count = b.order_count;
  last_trade_price = b.last_trade_price;
}

-- The book once the loops are done.
abbrev pub commit_matching : Side → Matching → Levels → Orderbook → Orderbook
commit_matching side s levels b = record (with_opposite side levels b) {
  order_index = s.order_index;
  order_count = s.order_count;
  last_trade_price = s.last_trade_price;
}

-- Returns the trades, the amount that is left, and the book.
unfoldable pub match_order : Decimals → Taker → Orderbook → List TradeExecution × ℕ × Orderbook
unfolding fill_levels fillable_from
match_order d t b =
    let levels = opposite_levels t.side b in
    let (s, levels') = fill_levels d t (start_matching t b) levels in
    if is_fok t.time_in_force && ltb (fillable_from d t 0 levels) t.amount
    then ([], t.amount, b)
    else (s.trades, s.amount, commit_matching t.side s levels' b)

-- The levels of a snapshot as pairs of a price and a total; their print as texts is left out.
abbrev pub totals : Levels → List (ℤ × ℕ)
totals = map λ l. (to_decimal l.0, sum_by (λ o. o.remaining_amount) l.1)

pub record OrderbookSnapshot : Type 0 where
  pub symbol : Text
  pub bids : List (ℤ × ℕ)
  pub asks : List (ℤ × ℕ)
  pub last_price : Option ℤ

unfoldable pub snapshot : ℕ → Orderbook → OrderbookSnapshot
unfolding last_trade_price
snapshot n b = record {
  symbol = b.symbol;
  bids = totals (take n (reverse b.bids));
  asks = totals (take n b.asks);
  last_price = last_trade_price b;
}

unfoldable pub bid_depth : Orderbook → ℕ
unfolding depth
bid_depth b = depth b.bids

unfoldable pub ask_depth : Orderbook → ℕ
unfolding depth
ask_depth b = depth b.asks

unfoldable pub has_order : Uuid → Orderbook → Bool
has_order id b = is_some (b.order_index id)

unfoldable pub get_order : Uuid → Orderbook → Option OrderEntry
unfolding find_level find_order
get_order id b = elim (b.order_index id) [
  | none ↦ none
  | some (side, l) ↦ elim (find_level l (resting side b)) [ none ↦ none | some q ↦ find_order id q ]
]
