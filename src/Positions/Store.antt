-- ===== src/Positions/Store.antt =====
-- The tables that the position service reads and writes, as its SQL statements use them.
--
-- Rows are lists with at most one row for a key, and a statement does not fail; the balances are
-- those in USDT. The cache holds the rows of the table, and the advisory lock and the transactions
-- make an operation one step.
pub mod Rows
use riabow_dex_backend.Prelude.{
  ℕ, Bool, true, false, not, ◌&&◌, Option, none, some, List, [], ◌∷◌, ◌++◌, map, if◌then◌else◌,
  ◌==◌,
}
use riabow_dex_backend.Prelude.Int.{ℤ, pos, ◌+ℤ◌, ◌-ℤ◌, ltb_ℤ, ◌==ℤ◌}
use riabow_dex_backend.DecimalOps.{max_ℤ}
use riabow_dex_backend.Positions.Types.{
  PositionSide, long, short, PositionStatus, open_position, closed, liquidated, Position,
}

pub data FeeType : Type 0 where
  trading_fee funding_fee borrowing_fee liquidation_fee insurance_contribution : FeeType
  liquidator_reward bootstrap_pre_migration : FeeType

-- A row of `protocol_fee_ledger`, without its metadata.
pub record FeeEvent : Type 0 where
  pub user_address : ℕ
  pub position_id : ℕ
  pub trade_id : Option ℕ
  pub fee_type : FeeType
  pub amount : ℤ

pub record PnlEvent : Type 0 where
  pub user_address : ℕ
  pub symbol : ℕ
  pub position_id : ℕ
  pub realized_pnl : ℤ
  pub execution_price : ℤ
  pub size_delta_usd : ℤ
  pub is_full_close : Bool
  pub trade_id : Option ℕ

pub record UsdtBalance : Type 0 where
  pub user_address : ℕ
  pub available : ℤ
  pub frozen : ℤ

-- An active trigger order of a position, and an order of a user that is pending.
pub record PositionStore : Type 0 where
  pub positions : List Position
  pub balances : List UsdtBalance
  pub ledger : List FeeEvent
  pub pnl_events : List PnlEvent
  pub active_triggers : List ℕ
  pub tp_sl : List ℕ
  pub pending_orders : List ℕ

abbrev pub is_open : PositionStatus → Bool
is_open open_position = true
is_open closed = false
is_open liquidated = false

abbrev pub same_side : PositionSide → PositionSide → Bool
same_side long long = true
same_side short short = true
same_side long short = false
same_side short long = false

-- The row of an id.
unfoldable pub find_position : ℕ → List Position → Option Position
find_position id [] = none
find_position id (p ∷ ps) = if p.id == id then some p else find_position id ps

-- `get_user_position`
unfoldable pub find_user_position : ℕ → ℕ → PositionSide → List Position → Option Position
find_user_position user symbol side [] = none
find_user_position user symbol side (p ∷ ps) =
    if p.user_address == user && p.symbol == symbol && same_side p.side side && is_open p.status
    then some p
    else find_user_position user symbol side ps

-- `update_position`
unfoldable pub update_position : Position → List Position → List Position
update_position q [] = []
update_position q (p ∷ ps) = if p.id == q.id then q ∷ ps else p ∷ update_position q ps

unfoldable pub remove_id : ℕ → List ℕ → List ℕ
remove_id id [] = []
remove_id id (x ∷ xs) = if x == id then remove_id id xs else x ∷ remove_id id xs

-- `record_fee_event`: no row for an amount of zero.
unfoldable pub record_fee_event : FeeEvent → List FeeEvent → List FeeEvent
record_fee_event e ledger = if e.amount ==ℤ pos 0 then ledger else ledger ++ (e ∷ [])

-- `UPDATE balances SET frozen = GREATEST(frozen - $1, 0), available = available + $2`
unfoldable pub settle_balance : ℕ → ℤ → ℤ → List UsdtBalance → List UsdtBalance
settle_balance user frozen_sub available_add [] = []
settle_balance user frozen_sub available_add (b ∷ bs) =
    if b.user_address == user
    then record b {
      frozen = max_ℤ (b.frozen -ℤ frozen_sub) (pos 0);
      available = b.available +ℤ available_add;
    }
      ∷ bs
    else b ∷ settle_balance user frozen_sub available_add bs

-- Whether the user has an open position of some size, or an order that is pending.
unfoldable pub has_open_position : ℕ → List Position → Bool
has_open_position user [] = false
has_open_position user (p ∷ ps) =
    if p.user_address == user && is_open p.status && ltb_ℤ (pos 0) p.size_in_usd
    then true
    else has_open_position user ps

unfoldable pub has_pending_order : ℕ → List ℕ → Bool
has_pending_order user [] = false
has_pending_order user (u ∷ us) = if u == user then true else has_pending_order user us

-- The statement that makes what is frozen available.
unfoldable pub sweep_frozen : ℕ → List UsdtBalance → List UsdtBalance
sweep_frozen user [] = []
sweep_frozen user (b ∷ bs) =
    if b.user_address == user && ltb_ℤ (pos 0) b.frozen
    then record b { available = b.available +ℤ b.frozen; frozen = pos 0 } ∷ bs
    else b ∷ sweep_frozen user bs

-- The cleanup after a full close.
unfoldable pub cleanup_frozen : ℕ → PositionStore → PositionStore
unfolding has_open_position has_pending_order sweep_frozen
cleanup_frozen user s =
    if not (has_open_position user s.positions) && not (has_pending_order user s.pending_orders)
    then record s { balances = sweep_frozen user s.balances }
    else s
