-- ===== src/Spot/Tests/Commands.antt =====
-- Commands, market orders and a restart at the small market.
use riabow_dex_backend.Prelude.{arith, [], ◌∷◌, ◌+◌, ◌*◌, ◌≡◌, refl, true, none, some, ◌==◌}
use riabow_dex_backend.Prelude.Int.{pos, ◌-ℤ◌, ◌≤ℤ◌}
use riabow_dex_backend.Spot.Types.{buy, sell, gtc, market, PlaceOrderRequest}
use riabow_dex_backend.Spot.Book.{new_book}
use riabow_dex_backend.Spot.Hits.{hit_qty, side_qty}
use riabow_dex_backend.Spot.Ledger.{total}
use riabow_dex_backend.Spot.Engine.{SpotEngine}
use riabow_dex_backend.Spot.Place.Safety.{held}
use riabow_dex_backend.Spot.MarketOrder.{take_market_levels}
use riabow_dex_backend.Spot.MarketOrder.Taking.{spent, take_market_levels-conserves}
use riabow_dex_backend.Spot.Cancel.{open_rows}
use riabow_dex_backend.Spot.Wallet.{perp_to_spot, WalletTables, transfer}
use riabow_dex_backend.Spot.Wallet.Moves.{Moved, transfer-Moved}
use riabow_dex_backend.Spot.Commands.{new_order, cancel, handle_command, here, next}
use riabow_dex_backend.Spot.Commands.Funds.{Reach-held}
use riabow_dex_backend.Spot.Recovery.{recover_into, recover_rows, is_non_resting}
use riabow_dex_backend.Spot.Recovery.Outcomes.{Restores, recover_into-Restores}
use riabow_dex_backend.Spot.Tests.{unit, rounding, tables, asks, engine, ids, markets, request}

-- User 6 spends 25 of the quote token: 2 whole lots at 10.
take_market_levels-conserves_example :
    ((take_market_levels rounding buy unit (pos (25 * unit * unit)) asks).remaining
      ≡ pos (25 * unit * unit)
        -ℤ pos
            (spent buy (take_market_levels rounding buy unit (pos (25 * unit * unit)) asks).hits))
    × (side_qty (take_market_levels rounding buy unit (pos (25 * unit * unit)) asks).left
          + hit_qty (take_market_levels rounding buy unit (pos (25 * unit * unit)) asks).hits
        ≡ side_qty asks)
take_market_levels-conserves_example =
    take_market_levels-conserves rounding buy unit (pos (25 * unit * unit)) asks

abbrev market_request : PlaceOrderRequest
market_request = record (request gtc 0 0) {
  order_type = market;
  price = none;
  quantity = none;
  quote_quantity = some (25 * unit * unit);
}

-- The engine after a market order of user 6 and a cancel of user 5.
abbrev after_both : SpotEngine
after_both =
    handle_command rounding ids markets (cancel 51 5)
      (handle_command rounding ids markets (new_order market_request) engine)

Reach-held_example : held 2 after_both ≤ℤ held 2 engine
Reach-held_example =
    Reach-held rounding engine after_both 2
      (next (next here ids markets (new_order market_request)) ids markets (cancel 51 5))
      ((tt, λ id. (omega arith, omega arith)), λ id. (omega arith, omega arith))

-- What rests on the side of the sellers, by price.
recover_into-Restores_example :
    Restores
      (λ id user price qty. price * qty)
      markets
      sell
      (open_rows (λ o. o.market_id == 1) tables.orders)
      (recover_into markets 1 new_book tables)
    × (total 1 (recover_into markets 1 new_book tables).1.tables.balances ≡ total 1 tables.balances)
recover_into-Restores_example =
    recover_into-Restores (λ id user price qty. price * qty) markets 1 tables sell 1

-- The recovery of the small market succeeds.
restart_succeeds : (recover_into markets 1 new_book tables).0 ≡ true
unfolding recover_into recover_rows open_rows is_non_resting
restart_succeeds = refl

-- User 5 moves 30 from the perpetual exchange.
abbrev wallets : WalletTables
wallets = record {
  perp = record { user_address = 5; token = 2; available = pos 50; frozen = pos 10 } ∷ [];
  spot = [];
  transfers = [];
}

transfer-Moved_example : Moved 2 5 wallets (transfer 2 5 perp_to_spot 2 (pos 30) wallets)
transfer-Moved_example = transfer-Moved 2 5 perp_to_spot 2 (pos 30) wallets
