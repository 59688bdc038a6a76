-- ===== src/Funding/Settle.antt =====
-- backend/src/services/funding_rate/mod.rs: `settle_funding` and `apply_funding_settlement`.
--
-- `sql` is the arithmetic of the database. The transaction makes the settlement of one position one step. `fresh` gives the ids of settlements;
-- that the rate is marked as settled is a time, which is left out.
pub mod Rates
pub mod Totals
use riabow_dex_backend.Prelude.{
  ℕ, ◌+◌, Bool, true, false, ◌&&◌, Option, none, some, List, [], ◌∷◌, ◌++◌, if◌then◌else◌, ◌==◌,
}
use riabow_dex_backend.Prelude.Int.{ℤ, pos, ◌+ℤ◌, ◌-ℤ◌, ltb_ℤ}
use riabow_dex_backend.DecimalOps.{DecimalOps, max_ℤ}
use riabow_dex_backend.Positions.Types.{PositionSide, long, short, Position}
use riabow_dex_backend.Positions.Store.{
  FeeEvent, funding_fee, PositionStore, is_open, record_fee_event,
}
use riabow_dex_backend.Funding.{FundingRateInfo}

pub record FundingSettlement : Type 0 where
  pub id : ℕ
  pub position_id : ℕ
  pub user_address : ℕ
  pub symbol : ℕ
  pub funding_rate : ℤ
  pub position_size : ℤ
  pub funding_fee : ℤ
  pub is_long : Bool

pub record FundingTables : Type 0 where
  pub store : PositionStore
  pub settlements : List FundingSettlement

abbrev pub is_long : PositionSide → Bool
is_long long = true
is_long short = false

abbrev pub fee_of : DecimalOps → ℤ → Position → ℤ
fee_of o rate p =
    if is_long p.side then o.mul p.size_in_usd rate else o.mul p.size_in_usd (pos 0 -ℤ rate)

-- The price that the statement writes, of a row before its fee is added.
unfoldable pub liquidation_price_with : DecimalOps → ℤ → Position → ℤ
liquidation_price_with sql fee p =
    let mmr = sql.new_decimal (pos 5) 3 in
    let fees = p.accumulated_funding_fee +ℤ fee in
    if ltb_ℤ (pos 0) p.size_in_tokens
    then if is_long p.side
      then max_ℤ
          (sql.div
            (sql.mul p.size_in_usd mmr
              -ℤ p.collateral_amount
              +ℤ fees
              +ℤ p.accumulated_borrowing_fee
              +ℤ p.size_in_usd)
            p.size_in_tokens)
          (pos 0)
      else max_ℤ
          (sql.div
            (p.collateral_amount
              -ℤ fees
              -ℤ p.accumulated_borrowing_fee
              +ℤ p.size_in_usd
              -ℤ sql.mul p.size_in_usd mmr)
            p.size_in_tokens)
          (pos 0)
    else p.liquidation_price

unfoldable pub charge : DecimalOps → ℤ → Position → Position
unfolding liquidation_price_with
charge sql fee p = record p {
  accumulated_funding_fee = p.accumulated_funding_fee +ℤ fee;
  liquidation_price = liquidation_price_with sql fee p;
}

-- `UPDATE positions SET … WHERE id = $2`
unfoldable pub charge_row : DecimalOps → ℕ → ℤ → List Position → List Position
unfolding charge
charge_row sql id fee [] = []
charge_row sql id fee (p ∷ ps) =
    if p.id == id then charge sql fee p ∷ ps else p ∷ charge_row sql id fee ps

unfoldable pub apply_funding_settlement :
    DecimalOps → FundingSettlement → FundingTables → FundingTables
unfolding charge_row record_fee_event
apply_funding_settlement sql x t =
    let event : FeeEvent = record {
      user_address = x.user_address;
      position_id = x.position_id;
      trade_id = none;
      fee_type = funding_fee;
      amount = x.funding_fee;
    } in
    record {
      store = record t.store {
        positions = charge_row sql x.position_id x.funding_fee t.store.positions;
        ledger = record_fee_event event t.store.ledger;
      };
      settlements = t.settlements ++ (x ∷ []);
    }

abbrev pub settlement_of : DecimalOps → (ℕ → ℕ) → ℕ → ℤ → ℕ → Position → FundingSettlement
settlement_of o fresh symbol rate n p = record {
  id = fresh n;
  position_id = p.id;
  user_address = p.user_address;
  symbol = symbol;
  funding_rate = rate;
  position_size = p.size_in_usd;
  funding_fee = fee_of o rate p;
  is_long = is_long p.side;
}

-- The rows of the query, with the number of positions that are settled already.
unfoldable pub settle_all :
    DecimalOps
    → DecimalOps
    → (ℕ → ℕ)
    → ℕ
    → ℤ
    → ℕ
    → List Position
    → FundingTables
    → ℕ × FundingTables
unfolding apply_funding_settlement
settle_all o sql fresh symbol rate n [] t = (n, t)
settle_all o sql fresh symbol rate n (p ∷ ps) t =
    settle_all o sql fresh symbol rate (n + 1) ps
      (apply_funding_settlement sql (settlement_of o fresh symbol rate n p) t)

unfoldable pub open_in : ℕ → List Position → List Position
open_in symbol [] = []
open_in symbol (p ∷ ps) =
    if p.symbol == symbol && is_open p.status then p ∷ open_in symbol ps else open_in symbol ps

unfoldable pub get_funding_rate : ℕ → List (ℕ × FundingRateInfo) → Option FundingRateInfo
get_funding_rate symbol [] = none
get_funding_rate symbol ((s, info) ∷ rows) =
    if s == symbol then some info else get_funding_rate symbol rows

-- `settle_funding`: `none` is the error that there is no rate.
unfoldable pub settle_funding :
    DecimalOps
    → DecimalOps
    → (ℕ → ℕ)
    → ℕ
    → List (ℕ × FundingRateInfo)
    → FundingTables
    → Option ℕ × FundingTables
unfolding get_funding_rate open_in settle_all
settle_funding o sql fresh symbol rates t = elim (get_funding_rate symbol rates) [
  | none ↦ (none, t)
  | some info ↦
      let (n, t') =
        settle_all o sql fresh symbol info.funding_rate 0 (open_in symbol t.store.positions) t in
      (some n, t')
]
