-- ===== src/Spot/Tests.antt =====
-- Runs of the spot exchange, and its theorems at a small market.
mod Commands
use riabow_dex_backend.Prelude.{
  ℕ, ◌+◌, ◌*◌, ◌/◌, ◌^◌, ◌≡◌, refl, arith, Option, none, some, List, [], ◌∷◌, min,
}
use riabow_dex_backend.Prelude.Int.{pos, ◌+ℤ◌, ◌-ℤ◌, ◌≤ℤ◌}
use riabow_dex_backend.Decimals.{Decimals}
use riabow_dex_backend.Spot.Types.{
  base_units, Side, buy, sell, opposite, limit, Tif, gtc, post_only, open_order, canceled, listed,
  SpotMarket, RestingOrder, SpotOrder, PlaceOrderRequest, insufficient_balance, forbidden,
  validate_price_qty,
}
use riabow_dex_backend.Spot.Book.{Level, best_ask, is_takeable, takeable, remove_empty_levels}
use riabow_dex_backend.Spot.Hits.{
  take_levels, take_queue, hit_qty, offered, side_qty, take_levels-conserves,
}
use riabow_dex_backend.Spot.Ledger.{SpotBalance, adjust, freeze, find_order, update_order, total}
use riabow_dex_backend.Spot.Settle.{
  Tables, FillInputs, FillCommitted, Settled, ok, err, commit_fill, fill_order, trade_of,
  updates_of, insert_update, sort_updates, apply_updates, sell_side_quote_fee, buy_side_base_fee,
}
use riabow_dex_backend.Spot.Settle.Conservation.{fees, commit_fill-conserves}
use riabow_dex_backend.Spot.Engine.{
  SpotEngine, PlaceOrderOk, placed, refused, fetch_order, set_status, lock_token, lock_amount,
}
use riabow_dex_backend.Spot.Place.{
  place_limit, run_limit, settle_limit, finish_limit, cancel_rest, commit_hits, inserted_order,
  check_limit, would_cross, trades_with_self,
}
use riabow_dex_backend.Spot.Cancel.{
  cancel_error, handle_cancel, handle_cancel_all, handle_cancel_market,
}
use riabow_dex_backend.Spot.Cancel.Outcomes.{Answers, handle_cancel-Answers, handle_cancel_all-held}
use riabow_dex_backend.Spot.Place.Safety.{held, place_limit-held}
use riabow_dex_backend.Spot.Place.PostOnly.{place_limit-post_only}
use riabow_dex_backend.Spot.Place.Outcomes.{place_limit-refused}

abbrev unit : ℕ
unit = 10 ^ 18

abbrev rounding : Decimals
rounding = record {
  round_dp6 = λ v. (v + 5 * 10 ^ 47) / 10 ^ 48;
  quotient = λ a b. a / b;
  parse_scaled = λ p. none;
}

-- Token 1 is traded for token 2, with fees of 10 and 20 basis points.
abbrev market : SpotMarket
market = record {
  id = 1;
  base_token = 1;
  quote_token = 2;
  tick_size = unit;
  lot_size = unit;
  min_notional = 0;
  maker_fee_bps = pos 10;
  taker_fee_bps = pos 20;
  status = some listed;
}

abbrev order_row : ℕ → ℕ → Side → ℕ → ℕ → SpotOrder
order_row id user side price qty = record {
  id = id;
  user_address = user;
  market_id = 1;
  side = side;
  order_type = limit;
  tif = gtc;
  price = some (price * unit);
  quantity = some (qty * unit);
  quote_quantity = none;
  filled_qty = 0;
  avg_fill_price = 0;
  status = open_order;
}

abbrev row : ℕ → ℕ → ℕ → ℕ → SpotBalance
row user token available frozen = record {
  user_address = user;
  token = token;
  available = pos (available * unit * unit);
  frozen = pos (frozen * unit * unit);
}

-- User 5 sells 3 of the base token at 10; user 6 has 100 of the quote token, 20 of them frozen by an
-- order for 2.
abbrev tables : Tables
tables = record {
  balances = row 5 1 0 3 ∷ row 5 2 0 0 ∷ row 6 1 0 0 ∷ row 6 2 80 20 ∷ [];
  orders = order_row 51 5 sell 10 3 ∷ order_row 61 6 buy 10 2 ∷ [];
  trades = [];
}

abbrev inputs : FillInputs
inputs = record {
  market = market;
  maker_order_id = 51;
  taker_order_id = 61;
  maker_user = 5;
  taker_user = 6;
  taker_side = buy;
  price = 10 * unit;
  quantity = 2 * unit;
  maker_remaining_after = unit;
  taker_remaining_after = 0;
  maker_avg_price_after = 10 * unit;
  taker_avg_price_after = 10 * unit;
}

abbrev committed_or :
    FillCommitted × Tables → Settled (FillCommitted × Tables) → FillCommitted × Tables
committed_or r (ok s) = s
committed_or r (err e) = r

abbrev committed : FillCommitted × Tables
committed =
    committed_or
      (
        record {
          trade = trade_of rounding inputs 7;
          maker_after = order_row 51 5 sell 10 3;
          taker_after = order_row 61 6 buy 10 2;
        },
        tables,
      )
      (commit_fill rounding inputs 7 tables)

committed-runs : commit_fill rounding inputs 7 tables ≡ ok (committed.0, committed.1)
unfolding commit_fill fill_order find_order update_order apply_updates sort_updates insert_update
    updates_of adjust sell_side_quote_fee buy_side_base_fee base_units ◌+ℤ◌ ◌-ℤ◌
committed-runs = refl

commit_fill-conserves_example :
    total 2 committed.1.balances +ℤ fees rounding inputs 2 ≡ total 2 tables.balances
commit_fill-conserves_example =
    commit_fill-conserves rounding inputs 7 tables committed.0 committed.1 committed-runs 2

-- The book has the order of user 5.
abbrev maker : RestingOrder
maker = record {
  id = 51;
  user_address = 5;
  side = sell;
  price = 10 * unit;
  original_qty = 3 * unit;
  remaining_qty = 3 * unit;
  ts_ns = 1;
}

abbrev asks : List Level
asks = record { price = 10 * unit; orders = maker ∷ [] } ∷ []

abbrev engine : SpotEngine
engine = record {
  book = record {
    bids = [];
    asks = asks;
    by_id = record { id = 51; side = sell; price = 10 * unit } ∷ [];
  };
  tables = tables;
  next_ts_ns = 2;
  book_update_id = 0;
  events = [];
}

abbrev request : Tif → ℕ → ℕ → PlaceOrderRequest
request tif price qty = record {
  user_address = 6;
  market_id = 1;
  side = buy;
  order_type = limit;
  tif = tif;
  price = some (price * unit);
  quantity = some (qty * unit);
  quote_quantity = none;
}

abbrev ids : ℕ → ℕ
ids n = 100 + n

place_limit-held_example :
    held 1 (place_limit rounding ids (request gtc 11 5) market engine).1 ≤ℤ held 1 engine
place_limit-held_example =
    place_limit-held rounding ids (request gtc 11 5) market engine 1 (omega arith, omega arith)

-- An order that locks more than its user has is refused.
too_much :
    (place_limit rounding ids (request gtc 11 50) market engine).0 ≡ refused insufficient_balance
unfolding place_limit run_limit check_limit validate_price_qty would_cross trades_with_self best_ask
    takeable is_takeable freeze lock_token lock_amount opposite
too_much = refl

place_limit-refused_example :
    (place_limit rounding ids (request gtc 11 50) market engine).1 ≡ engine
place_limit-refused_example =
    place_limit-refused rounding ids (request gtc 11 50) market engine insufficient_balance too_much
      (λ e. absurd (ground arith))

-- A post-only order for 4 at 9 is under the offer at 10.
abbrev post_only_placed : PlaceOrderOk
post_only_placed = record {
  order = record (inserted_order (request post_only 9 4) 100 (9 * unit) (4 * unit)) {
    status = canceled;
  };
  fills = [];
}

post_only-runs :
    (place_limit rounding ids (request post_only 9 4) market engine).0 ≡ placed post_only_placed
unfolding place_limit run_limit settle_limit check_limit validate_price_qty would_cross
    trades_with_self best_ask takeable is_takeable freeze lock_token lock_amount opposite
    take_levels take_queue commit_hits finish_limit cancel_rest fetch_order set_status find_order
    update_order inserted_order
post_only-runs = refl

place_limit-post_only_example :
    (post_only_placed.order.status ≡ canceled)
    × (post_only_placed.fills ≡ [])
    × ((place_limit rounding ids (request post_only 9 4) market engine).1.book
        ≡ remove_empty_levels engine.book)
place_limit-post_only_example =
    place_limit-post_only rounding ids (request post_only 9 4) market engine (4 * unit)
      post_only_placed refl refl (omega arith) post_only-runs

abbrev markets : ℕ → Option SpotMarket
markets m = some market

handle_cancel_all-held_example :
    (held 1 (handle_cancel_all markets 5 (some 1) engine).1 ≡ held 1 engine)
    × (held 1 (handle_cancel_market markets 1 engine).1 ≡ held 1 engine)
handle_cancel_all-held_example = handle_cancel_all-held markets 5 (some 1) 1 engine 1

not_of_user : (handle_cancel markets 51 6 engine).0 ≡ cancel_error forbidden
unfolding handle_cancel find_order
not_of_user = refl

-- User 5 cancels its order, and user 6 may not.
handle_cancel-Answers_example : Answers markets 51 5 engine (handle_cancel markets 51 5 engine)
handle_cancel-Answers_example = handle_cancel-Answers markets 51 5 engine

-- An order for 5 at 11 takes the 3 that are offered, and the rest goes to the book.
take_levels-conserves_example :
    (hit_qty (take_levels rounding buy (11 * unit) (5 * unit) asks).hits
      ≡ min (5 * unit) (offered buy (11 * unit) asks))
    × (hit_qty (take_levels rounding buy (11 * unit) (5 * unit) asks).hits
          + (take_levels rounding buy (11 * unit) (5 * unit) asks).taker_remaining
        ≡ 5 * unit)
    × (side_qty (take_levels rounding buy (11 * unit) (5 * unit) asks).left
          + hit_qty (take_levels rounding buy (11 * unit) (5 * unit) asks).hits
        ≡ side_qty asks)
take_levels-conserves_example = take_levels-conserves rounding buy (11 * unit) (5 * unit) asks
