-- ===== src/Margin/Tests.antt =====
-- Runs of the unified margin account, and its theorems at a small account.
use riabow_dex_backend.Prelude.{
  ℕ, ◌*◌, ◌/◌, ◌^◌, ◌≡◌, refl, true, false, ◌&&◌, Option, none, some, List, [], ◌∷◌, ◌++◌,
}
use riabow_dex_backend.Prelude.Int.{ℤ, pos, ◌+ℤ◌, ◌-ℤ◌, ◌*ℤ◌, pos_part, leb_ℤ}
use riabow_dex_backend.Margin.Tiers.{TierStore, resolve, ladder, tier_for, maintenance_margin}
use riabow_dex_backend.Margin.Risk.{
  Division, Position, long, compute_risk_with_tiers, sum_positions, add_position, pnl_of, mark_of,
  missing_of, initial_margin_of, maint_margin_of, uni_mmr_of, classify, gated,
}
use riabow_dex_backend.Margin.Gate.{
  simulate_open_with_tiers, initial_margin_for, refusal, refusal_by_margin,
}
use riabow_dex_backend.Margin.Totals.{sum_ℤ, worth, all_missing, compute_risk-totals}
use riabow_dex_backend.Margin.Opening.{
  may_open, is_enough, opens, simulate_open-can_open, simulate_open-missing,
}

abbrev unit : ℕ
unit = 10 ^ 18

-- Division for the runs, of numbers that are not negative.
abbrev division : Division
division = record {
  ratio = λ a m. pos (pos_part a * unit * unit / pos_part m);
  share = λ a n. pos (pos_part a / pos_part n);
}

-- A ladder for every symbol: 0.5 % up to a notional of 1000, then 1 % less 5.
abbrev store : TierStore
store = record {
  by_symbol = λ symbol. some (
      record {
        max_notional = pos (1000 * unit * unit);
        maint_margin_rate = pos (5 * 10 ^ 15);
        max_leverage = pos 50;
        cum_amount = pos 0;
      }
      ∷ record {
        max_notional = pos (10_000 * unit * unit);
        maint_margin_rate = pos (10 ^ 16);
        max_leverage = pos 20;
        cum_amount = pos (5 * unit * unit * unit);
      }
      ∷ []);
}

-- A long position of 10 tokens bought at 100.
abbrev position : Position
position = record {
  symbol = 1;
  side = long;
  size_in_usd = pos (1000 * unit * unit);
  size_in_tokens = pos (10 * unit);
  collateral_amount = pos (100 * unit * unit);
  entry_price = pos (100 * unit);
  leverage = pos 10;
  accumulated_funding_fee = pos 0;
  accumulated_borrowing_fee = pos 0;
}

abbrev positions : List Position
positions = position ∷ []

abbrev wallet : ℤ
wallet = pos (500 * unit * unit)

abbrev marks : ℕ → Option ℤ
marks symbol = some (pos (101 * unit))

abbrev no_marks : ℕ → Option ℤ
no_marks symbol = none

abbrev rate : ℤ
rate = pos (5 * 10 ^ 15)

abbrev notional : ℤ
notional = pos (2000 * unit * unit)

compute_risk-totals_example :
    ((compute_risk_with_tiers division wallet positions marks rate (some store)).total_equity
      ≡ wallet +ℤ sum_ℤ (worth marks) positions)
    × ((compute_risk_with_tiers division wallet positions marks rate
          (some store)).total_initial_margin
        ≡ sum_ℤ (initial_margin_of division) positions)
    × ((compute_risk_with_tiers division wallet positions marks rate
          (some store)).total_maint_margin
        ≡ sum_ℤ (λ p. maint_margin_of (some store) rate p.symbol p.size_in_usd) positions)
    × ((compute_risk_with_tiers division wallet positions marks rate (some store)).available_balance
        ≡ wallet +ℤ sum_ℤ (worth marks) positions -ℤ sum_ℤ (initial_margin_of division) positions)
    × ((compute_risk_with_tiers division wallet positions marks rate
          (some store)).missing_mark_symbols
        ≡ all_missing marks positions)
compute_risk-totals_example = compute_risk-totals division wallet positions marks rate (some store)

simulate_open-can_open_example :
    let s = compute_risk_with_tiers division wallet positions marks rate (some store) in
    let r = simulate_open_with_tiers division s 1 notional (pos 10) rate (some store) in
    (r.can_open ≡ (
      may_open s.account_status
      && (leb_ℤ r.new_initial_margin s.available_balance && is_enough r.simulated_uni_mmr)))
    × (r.can_open ≡ opens r.reason)
simulate_open-can_open_example =
    simulate_open-can_open division wallet positions marks rate (some store) 1 notional (pos 10)

simulate_open-missing_example :
    (simulate_open_with_tiers division
      (compute_risk_with_tiers division wallet ([] ++ position ∷ []) no_marks rate (some store))
      1
      notional
      (pos 10)
      rate
      (some store)).can_open
    ≡ false
simulate_open-missing_example =
    simulate_open-missing division wallet [] [] position no_marks rate (some store) 1 notional
      (pos 10) refl

account_opens :
    (simulate_open_with_tiers division
      (compute_risk_with_tiers division wallet positions marks rate (some store))
      1
      notional
      (pos 10)
      rate
      (some store)).can_open
    ≡ true
unfolding simulate_open_with_tiers compute_risk_with_tiers sum_positions add_position pnl_of mark_of
    missing_of initial_margin_of maint_margin_of uni_mmr_of classify gated initial_margin_for
    refusal refusal_by_margin maintenance_margin resolve ladder tier_for ◌+ℤ◌ ◌-ℤ◌ ◌*ℤ◌
account_opens = refl
