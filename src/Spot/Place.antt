-- ===== src/Spot/Place.antt =====
-- backend/src/services/spot/matching/engine.rs: `place_limit` of the spot matching engine, with the
-- state of the engine and of the database passed on from step to step.
--
-- The ids that the database gives are a parameter: `ids 0` is that of the order and the later ones
-- are those of its trades. The events sent are a list, the newest first. The remaining quantity of
-- a resting order is at most its original quantity, so no subtraction stops at 0.
pub mod Safety
pub mod Outcomes
pub mod PostOnly
use riabow_dex_backend.Prelude.{
  ℕ, suc, ◌+◌, ◌-◌, ◌*◌, ◌%◌, ◌^◌, Bool, true, false, ◌&&◌, Option, none, some, List, [], ◌∷◌, ◌++◌,
  if◌then◌else◌, ◌==◌, leb, ltb,
}
use riabow_dex_backend.Decimals.{Decimals}
use riabow_dex_backend.Spot.Types.{
  Side, buy, sell, opposite, limit, gtc, ioc, post_only, OrderStatus, open_order, filled, canceled,
  base_units, SpotMarket, SpotOrder, SpotTrade, PlaceOrderRequest, PlaceOrderError,
  post_only_reject, self_trade, insufficient_balance, invalid_request, db_error, validate_price_qty,
}
use riabow_dex_backend.Spot.Book.{
  Level, OrderBook, best_bid, best_ask, takeable, levels_of, with_levels, remove_empty_levels,
  cancel, add, level_total,
}
use riabow_dex_backend.Spot.Hits.{Hit, Taken, take_levels}
use riabow_dex_backend.Spot.Ledger.{Balances, freeze, unfreeze, find_order, update_order}
use riabow_dex_backend.Spot.Settle.{Tables, FillInputs, FillCommitted, commit_fill, ok, err}
use riabow_dex_backend.Spot.Engine.{
  AffectedLevel, EngineEvent, SpotEngine, PlaceResult, if_placed, PlaceOrderOk, lock_token,
  lock_amount, bump_book, next_ts, set_status, fetch_order, placed, refused, fill, order_placed,
  order_canceled,
}

unfoldable pub would_cross : Side → ℕ → OrderBook → Bool
unfolding best_ask best_bid
would_cross buy price book = elim (best_ask book) [ none ↦ false | some a ↦ leb a price ]
would_cross sell price book = elim (best_bid book) [ none ↦ false | some b ↦ leb price b ]

-- Whether the first order that can be taken is of the same user.
unfoldable pub trades_with_self : PlaceOrderRequest → Option ℕ → OrderBook → Bool
trades_with_self req limit_price book =
    elim (takeable req.side limit_price (levels_of (opposite req.side) book)) [
      | [] ↦ false
      | top ∷ orders ↦ top.user_address == req.user_address
    ]

-- The checks before any change, in the order of the code.
unfoldable pub check_limit :
    PlaceOrderRequest → SpotMarket → ℕ → ℕ → OrderBook → Option PlaceOrderError
check_limit req market price qty book = elim (validate_price_qty market price qty) [
  | some e ↦ some e
  | none ↦
      if (elim req.tif [ post_only ↦ true | gtc ↦ false | ioc ↦ false ])
        && would_cross req.side price book
      then some post_only_reject
      else if trades_with_self req (some price) book
      then some self_trade
      else none
]

-- The row that the INSERT returns.
unfoldable pub inserted_order : PlaceOrderRequest → ℕ → ℕ → ℕ → SpotOrder
inserted_order req id price qty = record {
  id = id;
  user_address = req.user_address;
  market_id = req.market_id;
  side = req.side;
  order_type = limit;
  tif = req.tif;
  price = some price;
  quantity = some qty;
  quote_quantity = none;
  filled_qty = 0;
  avg_fill_price = 0;
  status = open_order;
}

-- The inputs of a fill; `taken` and `notional` include it, and `after` gives what the taker still wants
-- once a quantity is taken.
unfoldable pub fill_inputs :
    Decimals → PlaceOrderRequest → SpotMarket → ℕ → (ℕ → ℕ) → Hit → ℕ → ℕ → FillInputs
fill_inputs d req market id after h taken notional = record {
  market = market;
  maker_order_id = h.id;
  taker_order_id = id;
  maker_user = h.user;
  taker_user = req.user_address;
  taker_side = req.side;
  price = h.price;
  quantity = h.qty;
  maker_remaining_after = h.remaining_after;
  taker_remaining_after = after taken;
  maker_avg_price_after = h.avg_after;
  taker_avg_price_after = if taken == 0 then 0 else d.quotient notional taken;
}

-- What a committed fill does to the engine: a maker with nothing left goes.
unfoldable pub after_fill : Side → Hit → FillCommitted → Tables → SpotEngine → SpotEngine
after_fill side h c tables e =
    let book = if h.remaining_after == 0 then (cancel h.id e.book).1 else e.book in
    let update_id = bump_book e.book_update_id in
    let level : AffectedLevel = record {
      side = opposite side;
      price = h.price;
      total = level_total (opposite side) h.price book;
    } in
    record e {
      book = book;
      tables = tables;
      book_update_id = update_id;
      events = fill c update_id level ∷ e.events;
    }

-- The loop over the hits, each in a transaction of its own; `n` counts the trades.
unfoldable pub commit_hits :
    Decimals
    → (ℕ → ℕ)
    → PlaceOrderRequest
    → SpotMarket
    → (ℕ → ℕ)
    → List Hit
    → ℕ
    → ℕ
    → ℕ
    → SpotEngine
    → PlaceResult (List SpotTrade) × SpotEngine
commit_hits d ids req market after [] n taken notional e = (placed [], e)
commit_hits d ids req market after (h ∷ hits) n taken notional e =
    let taken' = taken + h.qty in
    let notional' = notional + h.qty * h.price in
    elim (commit_fill d (fill_inputs d req market (ids 0) after h taken' notional') (ids (suc n))
      e.tables) [
        | err x ↦ (refused db_error, e)
        | ok (c, tables) ↦
            if_placed
              (commit_hits d ids req market after hits (suc n) taken' notional'
                (after_fill req.side h c tables e))
              (λ fills e'. (placed (c.trade ∷ fills), e'))
      ]

-- A rest of a GTC order goes to the book.
unfoldable pub rest_order :
    PlaceOrderRequest
    → ℕ
    → ℕ
    → ℕ
    → ℕ
    → List SpotTrade
    → SpotEngine
    → PlaceResult PlaceOrderOk × SpotEngine
rest_order req id price qty remaining fills e =
    let book =
      add
        (record {
          id = id;
          user_address = req.user_address;
          side = req.side;
          price = price;
          original_qty = qty;
          remaining_qty = remaining;
          ts_ns = e.next_ts_ns;
        })
        e.book in
    let e' = record e { book = book; next_ts_ns = next_ts e.next_ts_ns } in
    elim (find_order id e.tables.orders) [
      | none ↦ (refused db_error, e')
      | some o ↦
          let update_id = bump_book e.book_update_id in
          let level : AffectedLevel = record {
            side = req.side;
            price = price;
            total = level_total req.side price book;
          } in
          (
            placed (record { order = o; fills = fills }),
            record e' {
              book_update_id = update_id;
              events = order_placed o update_id level ∷ e.events;
            },
          )
    ]

-- The rest of another order is refunded and the order canceled.
unfoldable pub cancel_rest :
    PlaceOrderRequest
    → SpotMarket
    → ℕ
    → ℕ
    → ℕ
    → List SpotTrade
    → SpotEngine
    → PlaceResult PlaceOrderOk × SpotEngine
cancel_rest req market id price remaining fills e =
    let balances =
      unfreeze req.user_address (lock_token market req.side) (lock_amount req.side price remaining)
        e.tables.balances in
    fetch_order id fills
      (set_status id canceled (record e { tables = record e.tables { balances = balances } }))

-- The final state of the order.
unfoldable pub finish_limit :
    PlaceOrderRequest
    → SpotMarket
    → ℕ
    → ℕ
    → ℕ
    → ℕ
    → List SpotTrade
    → SpotEngine
    → PlaceResult PlaceOrderOk × SpotEngine
finish_limit req market id price qty remaining fills e =
    if ltb 0 remaining
    then elim req.tif [
      | gtc ↦ rest_order req id price qty remaining fills e
      | ioc ↦ cancel_rest req market id price remaining fills e
      | post_only ↦ cancel_rest req market id price remaining fills e
    ]
    else fetch_order id fills (set_status id filled e)

-- The match phase.
abbrev pub match_limit : Decimals → PlaceOrderRequest → ℕ → ℕ → SpotEngine → Taken Level
match_limit d req price qty e =
    take_levels d req.side price qty (levels_of (opposite req.side) e.book)

-- The engine once the order is inserted and the makers are taken.
abbrev pub after_match :
    Decimals → (ℕ → ℕ) → PlaceOrderRequest → ℕ → ℕ → Balances → SpotEngine → SpotEngine
after_match d ids req price qty balances e = record e {
  book =
      remove_empty_levels
        (with_levels (opposite req.side) (match_limit d req price qty e).left e.book);
  tables = record e.tables {
    balances = balances;
    orders = inserted_order req (ids 0) price qty ∷ e.tables.orders;
  };
}

-- After the pre-freeze: the insert, the match phase, the settlement and the final state.
unfoldable pub settle_limit :
    Decimals
    → (ℕ → ℕ)
    → PlaceOrderRequest
    → SpotMarket
    → ℕ
    → ℕ
    → Balances
    → SpotEngine
    → PlaceResult PlaceOrderOk × SpotEngine
settle_limit d ids req market price qty balances e =
    let taken = match_limit d req price qty e in
    if_placed
      (commit_hits d ids req market (λ t. qty - t) taken.hits 0 0 0
        (after_match d ids req price qty balances e))
      (finish_limit req market (ids 0) price qty taken.taker_remaining)

-- The pre-freeze.
unfoldable pub run_limit :
    Decimals
    → (ℕ → ℕ)
    → PlaceOrderRequest
    → SpotMarket
    → ℕ
    → ℕ
    → SpotEngine
    → PlaceResult PlaceOrderOk × SpotEngine
run_limit d ids req market price qty e =
    elim (freeze req.user_address (lock_token market req.side) (lock_amount req.side price qty)
      e.tables.balances) [
        | none ↦ (refused insufficient_balance, e)
        | some balances ↦ settle_limit d ids req market price qty balances e
      ]

unfoldable pub place_limit :
    Decimals
    → (ℕ → ℕ)
    → PlaceOrderRequest
    → SpotMarket
    → SpotEngine
    → PlaceResult PlaceOrderOk × SpotEngine
unfolding run_limit
place_limit d ids req market e = elim req.price [
  | none ↦ (refused invalid_request, e)
  | some price ↦ elim req.quantity [
    | none ↦ (refused invalid_request, e)
    | some qty ↦ elim (check_limit req market price qty e.book) [
      | some x ↦ (refused x, e)
      | none ↦ run_limit d ids req market price qty e
    ]
  ]
]
