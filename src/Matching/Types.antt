-- ===== src/Matching/Types.antt =====
-- backend/src/services/matching/types.rs: the data that the matching engine works on.
--
-- A `Uuid` is a number, a `String` the list of its bytes, a `Decimal` a number of units
-- (see Decimals). Prices and amounts are not negative.
use riabow_dex_backend.Prelude.{
  ℕ, suc, ◌+◌, ◌-◌, ◌*◌, ◌/◌, ◌^◌, Bool, true, false, Option, List, [], ◌∷◌, ◌&&◌, leb,
  if◌then◌else◌, ◌==◌,
}
use riabow_dex_backend.Prelude.Int.{ℤ, pos, negsuc, as_i64}

abbrev pub Uuid : Type 0
Uuid = ℕ

abbrev pub Text : Type 0
Text = List ℕ

-- A price level is an `i64` that counts units of 10^-8.
abbrev pub PriceLevel : Type 0
PriceLevel = ℤ

-- The units of a price (10^-18) in one level (10^-8).
abbrev pub level_unit : ℕ
level_unit = 10 ^ 10

-- `PriceLevel::from_decimal`
unfoldable pub from_decimal : ℕ → PriceLevel
from_decimal price = as_i64 (price / level_unit)

-- `PriceLevel::to_decimal`
unfoldable pub to_decimal : PriceLevel → ℤ
to_decimal (pos n) = pos (n * level_unit)
to_decimal (negsuc n) = negsuc (suc n * level_unit - 1)

pub data Side : Type 0 where
  buy sell : Side

pub data OrderType : Type 0 where
  limit market take_profit_limit stop_loss_limit take_profit_market stop_loss_market : OrderType

pub data TimeInForce : Type 0 where
  gtc ioc fok : TimeInForce

-- `TimeInForce::default`
abbrev pub default_time_in_force : TimeInForce
default_time_in_force = gtc

pub data OrderStatus : Type 0 where
  open_order partially_filled filled cancelled rejected : OrderStatus

pub record OrderEntry : Type 0 where
  pub id : Uuid
  pub user_address : Text
  pub price : ℕ
  pub original_amount : ℕ
  pub remaining_amount : ℕ
  pub side : Side
  pub time_in_force : TimeInForce
  pub timestamp : ℤ
  pub leverage : ℕ
  pub maker_fee_rate : ℕ

pub record TradeExecution : Type 0 where
  pub trade_id : Uuid
  pub maker_order_id : Uuid
  pub taker_order_id : Uuid
  pub maker_address : Text
  pub price : ℕ
  pub amount : ℕ
  pub maker_fee : ℕ
  pub taker_fee : ℕ
  pub timestamp : ℤ
  pub maker_leverage : ℕ
  pub taker_leverage : ℕ

pub record TradeEvent : Type 0 where
  pub symbol : Text
  pub trade_id : Uuid
  pub maker_order_id : Uuid
  pub taker_order_id : Uuid
  pub maker_address : Text
  pub taker_address : Text
  pub side : Side
  pub price : ℕ
  pub amount : ℕ
  pub maker_fee : ℕ
  pub taker_fee : ℕ
  pub timestamp : ℤ
  pub maker_leverage : ℕ
  pub taker_leverage : ℕ
  pub is_self_trade : Bool

pub record MatchResult : Type 0 where
  pub order_id : Uuid
  pub status : OrderStatus
  pub filled_amount : ℕ
  pub remaining_amount : ℕ
  pub average_price : Option ℕ
  pub trades : List TradeExecution

-- The errors that the engine raises itself.
pub data MatchingError : Type 0 where
  symbol_not_found : Text → MatchingError
  invalid_amount invalid_price : MatchingError

pub data Result {ℓ} (A : Type ℓ) : Type ℓ where
  ok : A → Result A
  err : MatchingError → Result A

-- `eq_ignore_ascii_case`
abbrev pub to_ascii_lowercase : ℕ → ℕ
to_ascii_lowercase c = if leb b'A' c && leb c b'Z' then c + 32 else c

unfoldable pub eq_ignore_ascii_case : Text → Text → Bool
eq_ignore_ascii_case [] [] = true
eq_ignore_ascii_case (a ∷ s) (b ∷ t) =
    (to_ascii_lowercase a == to_ascii_lowercase b) && eq_ignore_ascii_case s t
eq_ignore_ascii_case _ _ = false
