-- ===== src/Spot/MarketOrder.antt =====
-- backend/src/services/spot/matching/engine.rs: `place_market` of the spot matching engine.
--
-- What is left of a sell order is a quantity, in units of 10^-18, and of a buy order an amount of the
-- quote token, in units of 10^-36. It may become negative when the quotient by a price is rounded up.
pub mod Safety
pub mod Taking
use riabow_dex_backend.Prelude.{
  ℕ, ◌+◌, ◌-◌, ◌*◌, ◌/◌, ◌%◌, Bool, true, false, not, ◌&&◌, ◌||◌, Option, none, some, List, [], ◌∷◌,
  ◌++◌, if◌then◌else◌, ◌==◌, min,
}
use riabow_dex_backend.Prelude.Int.{ℤ, pos, pos_part, ◌-ℤ◌, leb_ℤ, ltb_ℤ, ◌==ℤ◌}
use riabow_dex_backend.Decimals.{Decimals}
use riabow_dex_backend.Spot.Types.{
  Side, buy, sell, opposite, market, ioc, OrderStatus, open_order, filled, canceled, base_units,
  RestingOrder, SpotMarket, SpotOrder, SpotTrade, PlaceOrderRequest, invalid_request, invalid_lot,
  self_trade, insufficient_balance,
}
use riabow_dex_backend.Spot.Book.{Level, levels_of, with_levels, remove_empty_levels}
use riabow_dex_backend.Spot.Hits.{Hit, hit_of}
use riabow_dex_backend.Spot.Ledger.{Balances, freeze, unfreeze}
use riabow_dex_backend.Spot.Engine.{
  SpotEngine, PlaceResult, placed, refused, if_placed, PlaceOrderOk, lock_token, set_status,
  fetch_order,
}
use riabow_dex_backend.Spot.Place.{trades_with_self, commit_hits}

-- How much is taken of a maker, and what it costs of what is left.
unfoldable pub quantity_for : Decimals → Side → ℕ → RestingOrder → ℤ → ℕ
quantity_for d sell lot maker remaining = min maker.remaining_qty (pos_part remaining)
quantity_for d buy lot maker remaining =
    min maker.remaining_qty (d.quotient (pos_part remaining) maker.price) / lot * lot

unfoldable pub cost_for : Side → RestingOrder → ℕ → ℕ
cost_for sell maker quantity = quantity
cost_for buy maker quantity = quantity * maker.price

-- The `break`s of the loop.
unfoldable pub ends_at : Side → ℤ → ℕ → Bool
ends_at sell remaining quantity = leb_ℤ remaining (pos 0)
ends_at buy remaining quantity = leb_ℤ remaining (pos 0) || quantity == 0

-- The hits, the makers as they are left, what is left of the taker, and whether the loop has ended.
pub record MarketTaken (A : Type 0) : Type 0 where
  pub hits : List Hit
  pub left : List A
  pub remaining : ℤ
  pub ended : Bool

unfoldable pub take_market_queue :
    Decimals → Side → ℕ → ℤ → List RestingOrder → MarketTaken RestingOrder
unfolding quantity_for cost_for ends_at hit_of
take_market_queue d side lot remaining [] = record {
  hits = [];
  left = [];
  remaining = remaining;
  ended = false;
}
take_market_queue d side lot remaining (maker ∷ makers) =
    let quantity = quantity_for d side lot maker remaining in
    let rest =
      take_market_queue d side lot (remaining -ℤ pos (cost_for side maker quantity)) makers in
    if ends_at side remaining quantity
    then record { hits = []; left = maker ∷ makers; remaining = remaining; ended = true }
    else record {
      hits = hit_of d maker quantity ∷ rest.hits;
      left = record maker { remaining_qty = maker.remaining_qty - quantity } ∷ rest.left;
      remaining = rest.remaining;
      ended = rest.ended;
    }

unfoldable pub take_market_levels : Decimals → Side → ℕ → ℤ → List Level → MarketTaken Level
unfolding take_market_queue
take_market_levels d side lot remaining [] = record {
  hits = [];
  left = [];
  remaining = remaining;
  ended = false;
}
take_market_levels d side lot remaining (l ∷ levels) =
    let here = take_market_queue d side lot remaining l.orders in
    let rest = take_market_levels d side lot here.remaining levels in
    if here.ended
    then record {
      hits = here.hits;
      left = record l { orders = here.left } ∷ levels;
      remaining = here.remaining;
      ended = true;
    }
    else record {
      hits = here.hits ++ rest.hits;
      left = record l { orders = here.left } ∷ rest.left;
      remaining = rest.remaining;
      ended = rest.ended;
    }

-- An amount of what is left, in the units of a balance.
unfoldable pub market_lock : Side → ℕ → ℕ
market_lock buy amount = amount
market_lock sell amount = base_units amount

-- The row that the INSERT returns.
unfoldable pub inserted_market_order : PlaceOrderRequest → ℕ → ℕ → SpotOrder
inserted_market_order req id amount = record {
  id = id;
  user_address = req.user_address;
  market_id = req.market_id;
  side = req.side;
  order_type = market;
  tif = ioc;
  price = none;
  quantity = elim req.side [ buy ↦ none | sell ↦ some amount ];
  quote_quantity = elim req.side [ buy ↦ some amount | sell ↦ none ];
  filled_qty = 0;
  avg_fill_price = 0;
  status = open_order;
}

-- `taker_remaining_after`: for a buyer, 1 while quote is left at the end of the match phase.
unfoldable pub wanted_after : Side → ℕ → ℤ → ℕ → ℕ
wanted_after sell amount remaining taken = amount - taken
wanted_after buy amount remaining taken =
    if ltb_ℤ (pos 0) remaining then 1_000_000_000_000_000_000 else 0

-- `final_status`
unfoldable pub market_status : List SpotTrade → ℤ → OrderStatus
market_status [] remaining = canceled
market_status (t ∷ fills) remaining = if remaining ==ℤ pos 0 then filled else canceled

-- The refund and the final status.
unfoldable pub finish_market :
    PlaceOrderRequest
    → SpotMarket
    → ℕ
    → ℤ
    → List SpotTrade
    → SpotEngine
    → PlaceResult PlaceOrderOk × SpotEngine
finish_market req m id remaining fills e =
    let balances =
      if ltb_ℤ (pos 0) remaining
      then unfreeze req.user_address (lock_token m req.side)
          (market_lock req.side (pos_part remaining)) e.tables.balances
      else e.tables.balances in
    fetch_order id fills (
      set_status id (market_status fills remaining)
        (record e { tables = record e.tables { balances = balances } }))

-- The match phase.
abbrev pub match_market :
    Decimals → PlaceOrderRequest → SpotMarket → ℕ → SpotEngine → MarketTaken Level
match_market d req m amount e =
    take_market_levels d req.side m.lot_size (pos amount) (levels_of (opposite req.side) e.book)

-- The engine once the order is inserted and the makers are taken.
abbrev pub after_market_match :
    Decimals → (ℕ → ℕ) → PlaceOrderRequest → SpotMarket → ℕ → Balances → SpotEngine → SpotEngine
after_market_match d ids req m amount balances e = record e {
  book =
      remove_empty_levels
        (with_levels (opposite req.side) (match_market d req m amount e).left e.book);
  tables = record e.tables {
    balances = balances;
    orders = inserted_market_order req (ids 0) amount ∷ e.tables.orders;
  };
}

unfoldable pub settle_market :
    Decimals
    → (ℕ → ℕ)
    → PlaceOrderRequest
    → SpotMarket
    → ℕ
    → Balances
    → SpotEngine
    → PlaceResult PlaceOrderOk × SpotEngine
settle_market d ids req m amount balances e =
    let taken = match_market d req m amount e in
    if_placed
      (commit_hits d ids req m (wanted_after req.side amount taken.remaining) taken.hits 0 0 0
        (after_market_match d ids req m amount balances e))
      (finish_market req m (ids 0) taken.remaining)

-- The self-trade check and the pre-freeze.
unfoldable pub run_market :
    Decimals
    → (ℕ → ℕ)
    → PlaceOrderRequest
    → SpotMarket
    → ℕ
    → SpotEngine
    → PlaceResult PlaceOrderOk × SpotEngine
run_market d ids req m amount e =
    if trades_with_self req none e.book
    then (refused self_trade, e)
    else elim (freeze req.user_address (lock_token m req.side) (market_lock req.side amount)
        e.tables.balances) [
          | none ↦ (refused insufficient_balance, e)
          | some balances ↦ settle_market d ids req m amount balances e
        ]

unfoldable pub place_market :
    Decimals
    → (ℕ → ℕ)
    → PlaceOrderRequest
    → SpotMarket
    → SpotEngine
    → PlaceResult PlaceOrderOk × SpotEngine
unfolding run_market
place_market d ids req m e = elim req.side [
  | buy ↦ elim req.quote_quantity [
    | none ↦ (refused invalid_request, e)
    | some amount ↦ run_market d ids req m amount e
  ]
  | sell ↦ elim req.quantity [
    | none ↦ (refused invalid_request, e)
    | some amount ↦
        if not (amount % m.lot_size == 0)
        then (refused invalid_lot, e)
        else run_market d ids req m amount e
  ]
]
