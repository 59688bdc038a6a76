-- ===== src/Liquidation/Types.antt =====
-- backend/src/services/liquidation/mod.rs: the data of the liquidation engine.
--
-- Ids, addresses and symbols are numbers, and addresses are lower-case. Times are left out.
use riabow_dex_backend.Prelude.{ℕ, Bool, Option, none, some, List, [], ◌∷◌, if◌then◌else◌, ◌==◌}
use riabow_dex_backend.Prelude.Int.{ℤ, pos, ◌+ℤ◌}
use riabow_dex_backend.DecimalOps.{DecimalOps}
use riabow_dex_backend.Positions.Types.{PositionSide}
use riabow_dex_backend.Positions.Store.{PositionStore}

pub record LiquidationConfig : Type 0 where
  pub symbol : ℕ
  pub liquidation_fee_rate : ℤ
  pub max_leverage : ℤ
  pub maintenance_margin_rate : ℤ
  pub min_collateral_usd : ℤ
  pub insurance_fund_fee_rate : ℤ
  pub max_insurance_payout_rate : ℤ
  pub liquidator_reward_rate : ℤ

-- `Default` for a symbol; a rate is a decimal such as 0.005.
unfoldable pub default_config : DecimalOps → ℕ → LiquidationConfig
default_config o symbol = record {
  symbol = symbol;
  liquidation_fee_rate = o.new_decimal (pos 5) 3;
  max_leverage = pos 50;
  maintenance_margin_rate = o.new_decimal (pos 5) 3;
  min_collateral_usd = o.new_decimal (pos 10) 0;
  insurance_fund_fee_rate = o.new_decimal (pos 1) 3;
  max_insurance_payout_rate = o.new_decimal (pos 5) 1;
  liquidator_reward_rate = o.new_decimal (pos 1) 3;
}

pub record LiquidationRecord : Type 0 where
  pub id : ℕ
  pub position_id : ℕ
  pub user_address : ℕ
  pub symbol : ℕ
  pub side : PositionSide
  pub position_size_usd : ℤ
  pub position_size_tokens : ℤ
  pub collateral_amount : ℤ
  pub entry_price : ℤ
  pub liquidation_price : ℤ
  pub mark_price : ℤ
  pub remaining_collateral : ℤ
  pub liquidation_fee : ℤ
  pub insurance_fund_contribution : ℤ
  pub pnl : ℤ
  pub liquidator_address : Option ℕ
  pub liquidator_reward : ℤ

pub record InsuranceFund : Type 0 where
  pub symbol : ℕ
  pub balance : ℤ
  pub total_contributions : ℤ
  pub total_payouts : ℤ

pub record LiquidationResult : Type 0 where
  pub position_id : ℕ
  pub user_address : ℕ
  pub symbol : ℕ
  pub side : PositionSide
  pub position_size_usd : ℤ
  pub collateral_returned : ℤ
  pub pnl : ℤ
  pub liquidation_fee : ℤ
  pub insurance_fund_contribution : ℤ

pub record LiquidationStats : Type 0 where
  pub positions_checked : ℕ
  pub positions_liquidated : ℕ
  pub total_volume_liquidated : ℤ
  pub total_fees_collected : ℤ
  pub insurance_fund_contributions : ℤ
  pub insurance_fund_payouts : ℤ

-- A row of `insurance_fund_transactions`: whether it is a contribution, the amount and the balance.
pub record FundTransaction : Type 0 where
  pub symbol : ℕ
  pub is_contribution : Bool
  pub amount : ℤ
  pub balance_after : ℤ
  pub liquidation_id : ℕ
  pub position_id : ℕ

-- The tables of the service, and those of positions.
pub record LiquidationStore : Type 0 where
  pub tables : PositionStore
  pub configs : List LiquidationConfig
  pub funds : List InsuranceFund
  pub liquidations : List LiquidationRecord
  pub fund_transactions : List FundTransaction

unfoldable pub find_config : ℕ → List LiquidationConfig → Option LiquidationConfig
find_config symbol [] = none
find_config symbol (c ∷ cs) = if c.symbol == symbol then some c else find_config symbol cs

-- `get_config`: a default row is written when there is none. The cache holds the rows.
unfoldable pub config_or :
    DecimalOps
    → ℕ
    → Option LiquidationConfig
    → LiquidationStore
    → LiquidationConfig × LiquidationStore
unfolding default_config
config_or o symbol (some c) s = (c, s)
config_or o symbol none s =
    (default_config o symbol, record s { configs = default_config o symbol ∷ s.configs })

unfoldable pub get_config : DecimalOps → ℕ → LiquidationStore → LiquidationConfig × LiquidationStore
unfolding config_or find_config
get_config o symbol s = config_or o symbol (find_config symbol s.configs) s

abbrev pub empty_fund : ℕ → InsuranceFund
empty_fund symbol = record {
  symbol = symbol;
  balance = pos 0;
  total_contributions = pos 0;
  total_payouts = pos 0;
}

-- `get_insurance_fund`: an empty fund when there is none.
unfoldable pub find_fund : ℕ → List InsuranceFund → InsuranceFund
find_fund symbol [] = empty_fund symbol
find_fund symbol (f ∷ fs) = if f.symbol == symbol then f else find_fund symbol fs

unfoldable pub ensure_fund : ℕ → List InsuranceFund → List InsuranceFund
ensure_fund symbol [] = empty_fund symbol ∷ []
ensure_fund symbol (f ∷ fs) = if f.symbol == symbol then f ∷ fs else f ∷ ensure_fund symbol fs

-- `INSERT INTO insurance_fund … ON CONFLICT (symbol) DO UPDATE SET balance = balance + …`
unfoldable pub upsert_fund : ℕ → ℤ → ℤ → ℤ → List InsuranceFund → List InsuranceFund
upsert_fund symbol net contribution payout [] =
    record {
      symbol = symbol;
      balance = net;
      total_contributions = contribution;
      total_payouts = payout;
    }
    ∷ []
upsert_fund symbol net contribution payout (f ∷ fs) =
    if f.symbol == symbol
    then record f {
      balance = f.balance +ℤ net;
      total_contributions = f.total_contributions +ℤ contribution;
      total_payouts = f.total_payouts +ℤ payout;
    }
      ∷ fs
    else f ∷ upsert_fund symbol net contribution payout fs
