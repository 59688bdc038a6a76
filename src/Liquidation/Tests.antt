-- ===== src/Liquidation/Tests.antt =====
-- The liquidation engine at 10 tokens bought at 100 with a margin of 100, when the price is 90.
use riabow_dex_backend.Prelude.{◌≡◌, ◌||◌, refl, arith, true, false, none, some, [], ◌∷◌}
use riabow_dex_backend.Prelude.Int.{pos, ◌≤ℤ◌, ◌-ℤ◌, ◌+ℤ◌, leb_ℤ, ltb_ℤ}
use riabow_dex_backend.DecimalOps.Thousandths.{times, thousandths, thousandths-DecimalLaws}
use riabow_dex_backend.Positions.Store.{find_position}
use riabow_dex_backend.Positions.Formulas.{check_liquidation}
use riabow_dex_backend.Positions.Tests.{config, bought, store}
use riabow_dex_backend.Liquidation.Types.{
  LiquidationConfig, InsuranceFund, LiquidationResult, LiquidationStore, get_config, config_or,
  find_config, find_fund,
}
use riabow_dex_backend.Liquidation.Conditions.{
  pnl_at, calculate_remaining_collateral, should_liquidate, risk_should_liquidate,
}
use riabow_dex_backend.Liquidation.Conditions.Agreement.{check_liquidation-agrees}
use riabow_dex_backend.Liquidation.Execute.{
  liquidation_done, position_not_open, assess, liquidation_result, liquidate, liquidate_open,
  liquidate_found, execute_liquidation,
}
use riabow_dex_backend.Liquidation.Execute.Once.{
  Attempt, attempt, attempts, execute_liquidation-refused,
}
use riabow_dex_backend.Liquidation.Execute.Accounts.{
  fund_balance, Settles, execute_liquidation-Settles,
}
use riabow_dex_backend.Liquidation.Sweep.{
  candidates, liquidate_all, liquidate_if, check_and_liquidate_market,
}
use riabow_dex_backend.Liquidation.Sweep.Completeness.{check_and_liquidate_market_complete}

abbrev rates : LiquidationConfig
rates = record {
  symbol = 3;
  liquidation_fee_rate = pos 5;
  max_leverage = pos 50;
  maintenance_margin_rate = pos 5;
  min_collateral_usd = pos 10000;
  insurance_fund_fee_rate = pos 1;
  max_insurance_payout_rate = pos 500;
  liquidator_reward_rate = pos 1;
}

abbrev fund : InsuranceFund
fund = record {
  symbol = 3;
  balance = pos 20000;
  total_contributions = pos 20000;
  total_payouts = pos 0;
}

abbrev before : LiquidationStore
before = record {
  tables = store;
  configs = rates ∷ [];
  funds = fund ∷ [];
  liquidations = [];
  fund_transactions = [];
}

check_liquidation-agrees_example :
    ((check_liquidation thousandths config bought (pos 90000)).is_liquidatable
      ≡ should_liquidate thousandths bought (pos 90000) rates
        || ltb_ℤ
            (calculate_remaining_collateral thousandths bought (pos 90000))
            config.min_collateral_usd)
    × (should_liquidate thousandths bought (pos 90000) rates
        ≡ risk_should_liquidate thousandths bought (pos 90000) config.maintenance_margin_rate
          || leb_ℤ (calculate_remaining_collateral thousandths bought (pos 90000)) (pos 0))
check_liquidation-agrees_example =
    check_liquidation-agrees thousandths thousandths-DecimalLaws config rates bought (pos 90000)
      refl

abbrev outcome : LiquidationResult
outcome =
    liquidation_result bought
      (assess thousandths rates bought (pos 90000) none (fund_balance 3 before))

abbrev after : LiquidationStore
after = (execute_liquidation thousandths 40 bought (pos 90000) none before).1

liquidated_once :
    execute_liquidation thousandths 40 bought (pos 90000) none before
    ≡ (liquidation_done outcome, after)
unfolding execute_liquidation get_config find_config config_or find_position liquidate_found
    liquidate_open liquidate
liquidated_once = refl

abbrev at_90 : Attempt
at_90 = record { record_id = 40; position = bought; mark_price = pos 90000; liquidator = none }

abbrev at_80 : Attempt
at_80 = record { record_id = 41; position = bought; mark_price = pos 80000; liquidator = some 9 }

execute_liquidation-refused_example :
    ((attempt thousandths at_80 (attempts thousandths (at_90 ∷ []) after)).0 ≡ position_not_open)
    × ((attempt thousandths at_80 (attempts thousandths (at_90 ∷ []) after)).1.tables
        ≡ (attempts thousandths (at_90 ∷ []) after).tables)
execute_liquidation-refused_example =
    execute_liquidation-refused thousandths at_90 at_80 (at_90 ∷ []) before after outcome
      liquidated_once refl

found : find_position 1 before.tables.positions ≡ some bought
unfolding find_position
found = refl

has_fund : pos 0 ≤ℤ fund_balance 3 before
unfolding find_fund
has_fund = omega arith

reads_rates : (get_config thousandths 3 before).0 ≡ rates
unfolding get_config find_config config_or
reads_rates = refl

pays_out : pos 0 ≤ℤ (get_config thousandths 3 before).0.max_insurance_payout_rate
unfolding get_config find_config config_or
pays_out = omega arith

contributes :
    pos 0 ≤ℤ times (pos 1000000) (get_config thousandths 3 before).0.insurance_fund_fee_rate
unfolding get_config find_config config_or times
contributes = omega arith

rewards : pos 0 ≤ℤ times (pos 1000000) (get_config thousandths 3 before).0.liquidator_reward_rate
unfolding get_config find_config config_or times
rewards = omega arith

execute_liquidation-Settles_example :
    Settles thousandths
      (get_config thousandths 3 before).0
      bought
      (pos 90000)
      (fund_balance 3 before)
      (fund_balance 3 after)
      outcome
execute_liquidation-Settles_example =
    execute_liquidation-Settles thousandths thousandths-DecimalLaws 40 bought bought (pos 90000)
      none before after outcome found has_fund pays_out contributes rewards liquidated_once

-- At 100 the position is kept by a run.
safe_kept :
    find_position 1
      (check_and_liquidate_market thousandths
        (λ u. true)
        (λ n. n)
        3
        (some (pos 100000))
        before).1.tables.positions
    ≡ some bought
unfolding check_and_liquidate_market get_config find_config config_or candidates liquidate_all
    liquidate_if should_liquidate calculate_remaining_collateral pnl_at times ◌-ℤ◌ ◌+ℤ◌
    find_position
safe_kept = refl

check_and_liquidate_market_complete_example :
    should_liquidate thousandths bought (pos 100000) (get_config thousandths 3 before).0 ≡ false
check_and_liquidate_market_complete_example =
    check_and_liquidate_market_complete thousandths (λ u. true) (λ n. n) 3 (pos 100000) before 1
      bought safe_kept refl
