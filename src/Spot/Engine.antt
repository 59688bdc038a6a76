-- ===== src/Spot/Engine.antt =====
-- backend/src/services/spot/matching/engine.rs: the state of the spot matching engine with that of
-- its database, its events, and the small steps that its commands share.
--
-- The events sent are a list, the newest first. The channels, the market cache and the id of the
-- market do not change and are left out of the state.
use riabow_dex_backend.Prelude.{ℕ, ◌+◌, ◌*◌, ◌%◌, ◌^◌, none, some, List}
use riabow_dex_backend.Spot.Types.{
  Side, buy, sell, OrderStatus, base_units, SpotMarket, SpotOrder, SpotTrade, PlaceOrderError,
  db_error,
}
use riabow_dex_backend.Spot.Book.{OrderBook}
use riabow_dex_backend.Spot.Ledger.{find_order, update_order}
use riabow_dex_backend.Spot.Settle.{Tables, FillCommitted}

pub record AffectedLevel : Type 0 where
  pub side : Side
  pub price : ℕ
  pub total : ℕ

pub data EngineEvent : Type 0 where
  fill : FillCommitted → ℕ → AffectedLevel → EngineEvent
  order_placed : SpotOrder → ℕ → AffectedLevel → EngineEvent
  order_canceled : SpotOrder → ℕ → AffectedLevel → EngineEvent
  order_rejected : SpotOrder → EngineEvent

pub record SpotEngine : Type 0 where
  pub book : OrderBook
  pub tables : Tables
  pub next_ts_ns : ℕ
  pub book_update_id : ℕ
  pub events : List EngineEvent

pub data PlaceResult (A : Type 0) : Type 0 where
  placed : A → PlaceResult A
  refused : PlaceOrderError → PlaceResult A

-- `?`: a refusal ends the work.
abbrev pub if_placed :
    {A B : Type 0}
    → PlaceResult A × SpotEngine
    → (A → SpotEngine → PlaceResult B × SpotEngine)
    → PlaceResult B × SpotEngine
if_placed (placed a, e) next = next a e
if_placed (refused x, e) next = (refused x, e)

pub record PlaceOrderOk : Type 0 where
  pub order : SpotOrder
  pub fills : List SpotTrade

-- What an order locks, and what is left of the lock for a rest of it.
unfoldable pub lock_token : SpotMarket → Side → ℕ
lock_token market buy = market.quote_token
lock_token market sell = market.base_token

unfoldable pub lock_amount : Side → ℕ → ℕ → ℕ
lock_amount buy price qty = price * qty
lock_amount sell price qty = base_units qty

-- `bump_book` and `next_ts`
unfoldable pub bump_book : ℕ → ℕ
bump_book n = (n + 1) % 2 ^ 64

unfoldable pub next_ts : ℕ → ℕ
next_ts n = (n + 1) % 2 ^ 128

abbrev with_orders : (ℕ → SpotOrder → SpotOrder) → ℕ → SpotEngine → SpotEngine
with_orders change id e = record e {
  tables = record e.tables { orders = update_order id (change id) e.tables.orders };
}

-- The update of the status of an order.
unfoldable pub set_status : ℕ → OrderStatus → SpotEngine → SpotEngine
set_status id status e = with_orders (λ _ o. record o { status = status }) id e

-- `fetch_one` of an order.
unfoldable pub fetch_order : ℕ → List SpotTrade → SpotEngine → PlaceResult PlaceOrderOk × SpotEngine
fetch_order id fills e = elim (find_order id e.tables.orders) [
  | none ↦ (refused db_error, e)
  | some o ↦ (placed (record { order = o; fills = fills }), e)
]
