-- ===== src/Positions/Types.antt =====
-- backend/src/models/position.rs: the data of positions.
--
-- Ids, addresses and symbols are numbers. Times are left out, and so are the fields of a position that
-- the service only stores.
use riabow_dex_backend.Prelude.{ℕ, Bool, Option}
use riabow_dex_backend.Prelude.Int.{ℤ}

pub data PositionSide : Type 0 where
  long short : PositionSide

pub data PositionStatus : Type 0 where
  open_position closed liquidated : PositionStatus

pub record Position : Type 0 where
  pub id : ℕ
  pub user_address : ℕ
  pub symbol : ℕ
  pub side : PositionSide
  pub size_in_usd : ℤ
  pub size_in_tokens : ℤ
  pub collateral_amount : ℤ
  pub entry_price : ℤ
  pub leverage : ℤ
  pub liquidation_price : ℤ
  pub accumulated_funding_fee : ℤ
  pub accumulated_borrowing_fee : ℤ
  pub accumulated_trading_fee : ℤ
  pub realized_pnl : ℤ
  pub status : PositionStatus

-- The fields of the configuration that are read.
pub record PositionConfig : Type 0 where
  pub min_collateral_usd : ℤ
  pub min_position_size_usd : ℤ
  pub max_leverage : ℤ
  pub maintenance_margin_rate : ℤ

-- The texts of `reason`.
pub data LiquidationReason : Type 0 where
  no_collateral below_minimum max_leverage_exceeded : LiquidationReason

pub record LiquidationInfo : Type 0 where
  pub is_liquidatable : Bool
  pub reason : Option LiquidationReason
  pub remaining_collateral_usd : ℤ
  pub min_collateral_usd : ℤ
  pub min_collateral_for_leverage : ℤ

-- A position stands for its response.
pub record IncreasePositionResult : Type 0 where
  pub position : Option Position
  pub size_delta_usd : ℤ
  pub size_delta_tokens : ℤ
  pub collateral_delta : ℤ
  pub fees_paid : ℤ

pub record DecreasePositionResult : Type 0 where
  pub position : Option Position
  pub size_delta_usd : ℤ
  pub pnl_realized : ℤ
  pub collateral_returned : ℤ
  pub fees_paid : ℤ
  pub is_fully_closed : Bool

pub data PositionError : Type 0 where
  not_found already_closed would_be_liquidatable : PositionError
  collateral_removal_would_liquidate database : PositionError
  position_too_small leverage_too_high : ℤ → PositionError
  insufficient_collateral : ℤ → ℤ → PositionError

pub data PositionOutcome (A : Type 0) : Type 0 where
  done : A → PositionOutcome A
  failed : PositionError → PositionOutcome A
