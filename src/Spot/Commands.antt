-- ===== src/Spot/Commands.antt =====
-- backend/src/services/spot/matching/engine.rs: the commands of the spot matching engine, and what one
-- task does with a sequence of them.
--
-- Another part of the program may reload the market cache between two commands, so each command has
-- the cache that it meets, a function, and the ids that the database gives during it.
pub mod Funds
use riabow_dex_backend.Prelude.{ℕ, Option, none, some, List, ◌≡◌}
use riabow_dex_backend.Decimals.{Decimals}
use riabow_dex_backend.Spot.Types.{
  limit, market, listed, halted, delisted, SpotMarket, PlaceOrderRequest, market_not_found,
  market_halted, market_delisted, invalid_request,
}
use riabow_dex_backend.Spot.Engine.{SpotEngine, PlaceResult, placed, refused, PlaceOrderOk}
use riabow_dex_backend.Spot.Place.{place_limit}
use riabow_dex_backend.Spot.MarketOrder.{place_market}
use riabow_dex_backend.Spot.Cancel.{handle_cancel, handle_cancel_all, handle_cancel_market}

unfoldable pub handle_new_order :
    Decimals
    → (ℕ → ℕ)
    → (ℕ → Option SpotMarket)
    → PlaceOrderRequest
    → SpotEngine
    → PlaceResult PlaceOrderOk × SpotEngine
handle_new_order d ids markets req e = elim (markets req.market_id) [
  | none ↦ (refused market_not_found, e)
  | some m ↦ elim m.status [
    | none ↦ (refused invalid_request, e)
    | some status ↦ elim status [
      | listed ↦ elim req.order_type [
        | limit ↦ place_limit d ids req m e
        | market ↦ place_market d ids req m e
      ]
      | halted ↦ (refused market_halted, e)
      | delisted ↦ (refused market_delisted, e)
    ]
  ]
]

-- `OrderCommand`, without the channels for the replies.
pub data OrderCommand : Type 0 where
  new_order : PlaceOrderRequest → OrderCommand
  cancel : ℕ → ℕ → OrderCommand
  cancel_all : ℕ → Option ℕ → OrderCommand
  cancel_market : ℕ → OrderCommand
  reload_market : ℕ → OrderCommand
  snapshot : ℕ → OrderCommand

-- The state after a command of `run`.
unfoldable pub handle_command :
    Decimals → (ℕ → ℕ) → (ℕ → Option SpotMarket) → OrderCommand → SpotEngine → SpotEngine
unfolding handle_new_order
handle_command d ids markets (new_order req) e = (handle_new_order d ids markets req e).1
handle_command d ids markets (cancel id user) e = (handle_cancel markets id user e).1
handle_command d ids markets (cancel_all user m) e = (handle_cancel_all markets user m e).1
handle_command d ids markets (cancel_market m) e = (handle_cancel_market markets m e).1
handle_command d ids markets (reload_market m) e = e
handle_command d ids markets (snapshot depth) e = e

-- A run of the task: commands in any order, with any cache and any ids.
pub data Reach (d : Decimals) (s : SpotEngine) : SpotEngine → Type 0 where
  here : Reach d s s
  next :
      {t : SpotEngine}
      → Reach d s t
      → (ids : ℕ → ℕ) → (markets : ℕ → Option SpotMarket) → (c : OrderCommand)
      → Reach d s (handle_command d ids markets c t)
