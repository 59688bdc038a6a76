-- ===== src/Spot/Wallet.antt =====
-- backend/src/services/spot/wallet.rs: `transfer`, between the balances of the perpetual exchange and
-- those of the spot exchange.
--
-- Both tables have a row for a user and a token, with what is available and what is frozen; an amount
-- is in the units of a balance. `usdt` is the token that may be moved; the user is lower-case.
pub mod Moves
use riabow_dex_backend.Prelude.{
  ℕ, Option, none, some, List, [], ◌∷◌, ◌++◌, if◌then◌else◌, ◌==◌, ◌&&◌, not,
}
use riabow_dex_backend.Prelude.Int.{ℤ, pos, ◌+ℤ◌, ◌-ℤ◌, leb_ℤ, ltb_ℤ}
use riabow_dex_backend.Spot.Ledger.{SpotBalance, Balances, adjust}

pub data TransferDirection : Type 0 where
  perp_to_spot spot_to_perp : TransferDirection

-- A row of `spot_internal_transfers`.
pub record Transfer : Type 0 where
  pub user_address : ℕ
  pub direction : TransferDirection
  pub amount : ℤ
  pub perp_balance_before : ℤ
  pub spot_balance_before : ℤ

pub record WalletTables : Type 0 where
  pub perp : Balances
  pub spot : Balances
  pub transfers : List Transfer

pub record TransferResult : Type 0 where
  pub perp_balance_after : ℤ
  pub spot_balance_after : ℤ

pub data WalletOutcome : Type 0 where
  transferred : TransferResult → WalletOutcome
  insufficient_funds unsupported_token non_positive_amount : WalletOutcome

-- `SELECT available … .unwrap_or(0)`
unfoldable pub available_of : ℕ → ℕ → Balances → ℤ
available_of user token [] = pos 0
available_of user token (r ∷ rows) =
    if r.user_address == user && r.token == token then r.available else available_of user token rows

-- `UPDATE … SET available = available - $1`
unfoldable pub debit : ℕ → ℕ → ℤ → Balances → Balances
unfolding adjust
debit user token amount rows = elim (adjust user token (pos 0 -ℤ amount) (pos 0) rows) [
  | none ↦ rows
  | some rows' ↦ rows'
]

-- `INSERT … ON CONFLICT DO UPDATE SET available = available + …`
unfoldable pub credit : ℕ → ℕ → ℤ → Balances → Balances
unfolding adjust
credit user token amount rows = elim (adjust user token amount (pos 0) rows) [
  | none ↦ record { user_address = user; token = token; available = amount; frozen = pos 0 } ∷ rows
  | some rows' ↦ rows'
]

unfoldable pub put_transfer : ℕ → TransferDirection → ℤ → ℤ → ℤ → WalletTables → WalletTables
put_transfer user direction amount perp_before spot_before t =
    let row : Transfer = record {
      user_address = user;
      direction = direction;
      amount = amount;
      perp_balance_before = perp_before;
      spot_balance_before = spot_before;
    } in
    record t { transfers = t.transfers ++ (row ∷ []) }

-- The two directions, with the balances before.
unfoldable pub transfer_funds :
    ℕ → ℕ → TransferDirection → ℤ → ℤ → ℤ → WalletTables → WalletOutcome × WalletTables
unfolding debit credit put_transfer
transfer_funds usdt user perp_to_spot amount perp_before spot_before t =
    if ltb_ℤ perp_before amount then (insufficient_funds, t) else (
      transferred (record {
        perp_balance_after = perp_before -ℤ amount;
        spot_balance_after = spot_before +ℤ amount;
      }),
      put_transfer user perp_to_spot amount perp_before spot_before (record t {
        perp = debit user usdt amount t.perp;
        spot = credit user usdt amount t.spot;
      }),
    )
transfer_funds usdt user spot_to_perp amount perp_before spot_before t =
    if ltb_ℤ spot_before amount then (insufficient_funds, t) else (
      transferred (record {
        perp_balance_after = perp_before +ℤ amount;
        spot_balance_after = spot_before -ℤ amount;
      }),
      put_transfer user spot_to_perp amount perp_before spot_before (record t {
        spot = debit user usdt amount t.spot;
        perp = credit user usdt amount t.perp;
      }),
    )

unfoldable pub transfer :
    ℕ → ℕ → TransferDirection → ℕ → ℤ → WalletTables → WalletOutcome × WalletTables
unfolding transfer_funds available_of
transfer usdt user direction token amount t =
    if not (token == usdt)
    then (unsupported_token, t)
    else if leb_ℤ amount (pos 0)
    then (non_positive_amount, t)
    else transfer_funds usdt user direction amount (available_of user usdt t.perp)
        (available_of user usdt t.spot) t
