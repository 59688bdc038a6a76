-- ===== src/Positions/Tests.antt =====
-- The theorems on positions at a user with 10 tokens bought at 100, in decimals of three digits.
use riabow_dex_backend.Prelude.{◌≡◌, ◌≢◌, refl, arith, false, none, some, [], ◌∷◌}
use riabow_dex_backend.Prelude.Int.{ℤ, pos, ◌-ℤ◌, ◌+ℤ◌, ◌*ℤ◌}
use riabow_dex_backend.DecimalOps.Thousandths.{times, over, thousandths, thousandths-DecimalLaws}
use riabow_dex_backend.Positions.Types.{
  long, short, open_position, Position, PositionConfig, PositionOutcome, done, failed,
}
use riabow_dex_backend.Positions.Formulas.{check_liquidation}
use riabow_dex_backend.Positions.Store.{PositionStore, find_position}
use riabow_dex_backend.Positions.Decrease.{
  Close, close_of, apply_close, decrease_result, decrease_position, decrease_found, close_open,
}
use riabow_dex_backend.Positions.Decrease.Remains.{LeftBy, decrease_position-LeftBy}
use riabow_dex_backend.Positions.Decrease.Accounts.{Accounts, decrease_position-Accounts}
use riabow_dex_backend.Positions.OpenRows.{OneOpen}
use riabow_dex_backend.Positions.Increase.{Increase, increase_position}
use riabow_dex_backend.Positions.Increase.Netting.{increase_position-OneOpen}
use riabow_dex_backend.Positions.Collateral.{CachedStore, remove_collateral}
use riabow_dex_backend.Positions.Collateral.Safety.{Removed, Leaves, remove_collateral-Removed}

abbrev pub config : PositionConfig
config = record {
  min_collateral_usd = pos 5000;
  min_position_size_usd = pos 10000;
  max_leverage = pos 50;
  maintenance_margin_rate = pos 5;
}

abbrev pub bought : Position
bought = record {
  id = 1;
  user_address = 7;
  symbol = 3;
  side = long;
  size_in_usd = pos 1000000;
  size_in_tokens = pos 10000;
  collateral_amount = pos 100000;
  entry_price = pos 100000;
  leverage = pos 10;
  liquidation_price = pos 90500;
  accumulated_funding_fee = pos 1000;
  accumulated_borrowing_fee = pos 2000;
  accumulated_trading_fee = pos 0;
  realized_pnl = pos 0;
  status = open_position;
}

abbrev pub store : PositionStore
store = record {
  positions = bought ∷ [];
  balances = record { user_address = 7; available = pos 50000; frozen = pos 0 } ∷ [];
  ledger = [];
  pnl_events = [];
  active_triggers = 1 ∷ [];
  tp_sl = [];
  pending_orders = [];
}

-- 400 of 1000 are closed at 110.
abbrev partly : Close
partly = close_of thousandths config bought (some (pos 400000)) (pos 110000)

abbrev after_part : PositionStore
after_part = apply_close partly none (pos 110000) store

partly_closed :
    decrease_position thousandths config 1 (some (pos 400000)) (pos 110000) none store
    ≡ (done (decrease_result partly), after_part)
unfolding decrease_position decrease_found close_open find_position
partly_closed = refl

found : find_position 1 store.positions ≡ some bought
unfolding find_position
found = refl

-- 600 stay, with a profit of 40 that is paid.
part_stays : (partly.is_full_close ≡ false) × (partly.row.size_in_usd ≡ pos 600000)
unfolding close_of check_liquidation ◌-ℤ◌ ◌+ℤ◌ times over ◌*ℤ◌
part_stays = (refl, refl)

decrease_position-LeftBy_example :
    (q : Position) × (find_position 1 after_part.positions ≡ some q)
    × LeftBy thousandths config (pos 110000) (decrease_result partly).is_fully_closed q
decrease_position-LeftBy_example =
    decrease_position-LeftBy thousandths config 1 (some (pos 400000)) (pos 110000) none store
      after_part (decrease_result partly) partly_closed

has_size : bought.size_in_usd ≢ pos 0
has_size = λ h. ground (arith, h)

decrease_position-Accounts_example :
    (q : Position) × (find_position 1 after_part.positions ≡ some q)
    × Accounts bought store after_part (decrease_result partly) q
decrease_position-Accounts_example =
    decrease_position-Accounts thousandths thousandths-DecimalLaws config 1 (some (pos 400000))
      (pos 110000) none store after_part (decrease_result partly) bought found has_size
      partly_closed

-- A sale for 2000 at 110 closes the position and opens one on the other side.
abbrev sale : Increase
sale = record {
  user_address = 7;
  symbol = 3;
  side = short;
  collateral_amount = pos 200000;
  leverage = pos 10;
  execution_price = pos 110000;
  skip_min_size_check = false;
  trade_id = none;
}

fresh : find_position 2 store.positions ≡ none
unfolding find_position
fresh = refl

store-OneOpen : OneOpen store.positions
unfolding find_position
store-OneOpen = record { distinct = (refl, tt); one = λ u y. ground arith }

increase_position-OneOpen_example :
    OneOpen (increase_position thousandths config 2 sale store).1.positions
increase_position-OneOpen_example =
    increase_position-OneOpen thousandths config 2 sale store fresh store-OneOpen

-- 20 of the 100 of collateral are taken out at 110, and then 10.
abbrev cached_store : CachedStore
cached_store = record { tables = store; cache = some [] }

remove_collateral-Removed_example :
    Leaves
      (Removed thousandths config (pos 20000) (pos 110000))
      1
      cached_store
      (remove_collateral thousandths (λ x. some x) config 1 (pos 20000) (pos 110000) cached_store)
remove_collateral-Removed_example =
    remove_collateral-Removed thousandths (λ x. some x) config 1 (pos 20000) (pos 110000)
      cached_store

abbrev removal : ℤ → CachedStore → PositionOutcome Position × CachedStore
removal amount s = remove_collateral thousandths (λ x. some x) config 1 amount (pos 110000) s

abbrev position_of : PositionOutcome Position → Position
position_of (done p) = p
position_of (failed x) = bought

abbrev after_first : CachedStore
after_first = (removal (pos 20000) cached_store).1

abbrev after_second : CachedStore
after_second = (removal (pos 10000) after_first).1
