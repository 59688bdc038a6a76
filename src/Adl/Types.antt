-- ===== src/Adl/Types.antt =====
-- backend/src/services/adl/mod.rs: the data of auto-deleveraging.
--
-- Ids, addresses and symbols are numbers. Times are left out.
use riabow_dex_backend.Prelude.{ℕ, Bool, Option, List}
use riabow_dex_backend.Prelude.Int.{ℤ}
use riabow_dex_backend.Positions.Types.{PositionSide}
use riabow_dex_backend.Positions.Store.{PositionStore}

-- The texts of `status`.
pub data AdlStatus : Type 0 where
  adl_pending adl_completed adl_partial adl_failed : AdlStatus

pub record AdlEvent : Type 0 where
  pub id : ℕ
  pub market_symbol : ℕ
  pub liquidation_id : ℕ
  pub insurance_fund_shortfall : ℤ
  pub total_reduced_size : ℤ
  pub total_pnl_realized : ℤ
  pub positions_affected : ℕ
  pub status : AdlStatus

pub record AdlReduction : Type 0 where
  pub adl_event_id : ℕ
  pub position_id : ℕ
  pub user_address : ℕ
  pub market_symbol : ℕ
  pub original_size : ℤ
  pub original_collateral : ℤ
  pub original_pnl : ℤ
  pub size_reduced : ℤ
  pub pnl_realized : ℤ
  pub adl_rank : ℕ
  pub adl_score : ℤ

pub record AdlRanking : Type 0 where
  pub market_symbol : ℕ
  pub side : PositionSide
  pub position_id : ℕ
  pub user_address : ℕ
  pub position_size : ℤ
  pub unrealized_pnl : ℤ
  pub pnl_percentage : ℤ
  pub leverage : ℤ
  pub adl_score : ℤ
  pub rank : ℕ

-- The fields of the configuration that are read.
pub record AdlConfig : Type 0 where
  pub max_positions_per_adl : ℕ
  pub min_reduction_percentage : ℤ
  pub max_reduction_percentage : ℤ
  pub pnl_weight : ℤ
  pub leverage_weight : ℤ
  pub size_weight : ℤ
  pub enabled : Bool

pub record UserAdlStats : Type 0 where
  pub user_address : ℕ
  pub market_symbol : ℕ
  pub total_adl_events : ℕ
  pub total_size_reduced : ℤ
  pub total_pnl_realized : ℤ

pub record PositionForAdl : Type 0 where
  pub id : ℕ
  pub user_address : ℕ
  pub market_symbol : ℕ
  pub side : PositionSide
  pub size : ℤ
  pub collateral : ℤ
  pub entry_price : ℤ
  pub leverage : ℤ
  pub unrealized_pnl : ℤ
  pub pnl_percentage : ℤ

-- The tables of the service, and those of positions; `configs` has a row for some markets.
pub record AdlStore : Type 0 where
  pub tables : PositionStore
  pub configs : ℕ → Option AdlConfig
  pub rankings : List AdlRanking
  pub reductions : List AdlReduction
  pub events : List AdlEvent
  pub stats : List UserAdlStats
