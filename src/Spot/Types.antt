-- ===== src/Spot/Types.antt =====
-- backend/src/models/spot and backend/src/services/spot/matching/types.rs: the data of the spot
-- exchange.
--
-- Ids, addresses and the names of tokens and markets are numbers, in the order of the texts. Prices
-- and quantities are not negative, in units of 10^-18; a notional, their product, and every balance
-- and fee is in units of 10^-36. A fee may be negative, as a rebate.
use riabow_dex_backend.Prelude.{
  ℕ, ◌*◌, ◌%◌, Bool, true, false, Option, none, some, if◌then◌else◌, ◌==◌, ltb, not,
}
use riabow_dex_backend.Prelude.Int.{ℤ}

-- A quantity of the base token, in the units of a balance.
unfoldable pub base_units : ℕ → ℕ
base_units quantity = quantity * 1_000_000_000_000_000_000

pub data Side : Type 0 where
  buy sell : Side

-- `Side::opposite`
unfoldable pub opposite : Side → Side
opposite buy = sell
opposite sell = buy

pub data OrderType : Type 0 where
  limit market : OrderType

pub data Tif : Type 0 where
  gtc ioc post_only : Tif

pub data OrderStatus : Type 0 where
  open_order partially_filled filled canceled rejected expired : OrderStatus

-- `OrderStatus::is_terminal`
unfoldable pub is_terminal : OrderStatus → Bool
is_terminal filled = true
is_terminal canceled = true
is_terminal rejected = true
is_terminal expired = true
is_terminal open_order = false
is_terminal partially_filled = false

pub data MarketStatus : Type 0 where
  listed halted delisted : MarketStatus

-- `status` is what `parsed_status` makes of the text of the row.
pub record SpotMarket : Type 0 where
  pub id : ℕ
  pub base_token : ℕ
  pub quote_token : ℕ
  pub tick_size : ℕ
  pub lot_size : ℕ
  pub min_notional : ℕ
  pub maker_fee_bps : ℤ
  pub taker_fee_bps : ℤ
  pub status : Option MarketStatus

pub record RestingOrder : Type 0 where
  pub id : ℕ
  pub user_address : ℕ
  pub side : Side
  pub price : ℕ
  pub original_qty : ℕ
  pub remaining_qty : ℕ
  pub ts_ns : ℕ

-- A row of `spot_orders`; the reason of a rejection and the times are left out.
pub record SpotOrder : Type 0 where
  pub id : ℕ
  pub user_address : ℕ
  pub market_id : ℕ
  pub side : Side
  pub order_type : OrderType
  pub tif : Tif
  pub price : Option ℕ
  pub quantity : Option ℕ
  pub quote_quantity : Option ℕ
  pub filled_qty : ℕ
  pub avg_fill_price : ℕ
  pub status : OrderStatus

pub record SpotTrade : Type 0 where
  pub id : ℕ
  pub market_id : ℕ
  pub maker_order_id : ℕ
  pub taker_order_id : ℕ
  pub maker_user : ℕ
  pub taker_user : ℕ
  pub side : Side
  pub price : ℕ
  pub quantity : ℕ
  pub maker_fee : ℤ
  pub taker_fee : ℤ

-- The quote quantity has the units of a notional.
pub record PlaceOrderRequest : Type 0 where
  pub user_address : ℕ
  pub market_id : ℕ
  pub side : Side
  pub order_type : OrderType
  pub tif : Tif
  pub price : Option ℕ
  pub quantity : Option ℕ
  pub quote_quantity : Option ℕ

pub data PlaceOrderError : Type 0 where
  market_not_found market_halted market_delisted invalid_tick invalid_lot below_min_notional :
      PlaceOrderError
  insufficient_balance post_only_reject self_trade invalid_request db_error : PlaceOrderError
  engine_busy engine_restarting : PlaceOrderError

pub data CancelError : Type 0 where
  not_found forbidden db : CancelError

-- `SpotMarket::validate_price_qty`; `none` is success.
unfoldable pub validate_price_qty : SpotMarket → ℕ → ℕ → Option PlaceOrderError
validate_price_qty m price qty =
    if not (price % m.tick_size == 0)
    then some invalid_tick
    else if not (qty % m.lot_size == 0)
    then some invalid_lot
    else if ltb (price * qty) m.min_notional
    then some below_min_notional
    else none
