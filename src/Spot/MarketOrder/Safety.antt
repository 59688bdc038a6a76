-- ===== src/Spot/MarketOrder/Safety.antt =====
-- Placing a market order creates no funds where no fee is negative.
use riabow_dex_backend.Prelude.{ℕ, ◌≡◌, arith, List, Option-cases, inl, inr}
use riabow_dex_backend.Prelude.Int.{ℤ, pos_part, ◌≤ℤ◌}
use riabow_dex_backend.Decimals.{Decimals}
use riabow_dex_backend.Spot.Types.{SpotMarket, SpotTrade, PlaceOrderRequest}
use riabow_dex_backend.Spot.Ledger.{Balances, total, freeze, freeze-total, unfreeze-total}
use riabow_dex_backend.Spot.Engine.{SpotEngine, if_placed, fetch_order, set_status, lock_token}
use riabow_dex_backend.Spot.Settle.Conservation.{NoRebate}
use riabow_dex_backend.Spot.Place.{commit_hits}
use riabow_dex_backend.Spot.Place.Safety.{
  held, leb_trans, leb_of_eq, if_placed-held, commit_hits-held,
}
use riabow_dex_backend.Spot.MarketOrder.{
  finish_market, settle_market, run_market, place_market, match_market, after_market_match,
  market_lock, wanted_after,
}

finish_market-held :
    (req : PlaceOrderRequest) (m : SpotMarket) (id : ℕ) (remaining : ℤ) (fills : List SpotTrade)
    (e : SpotEngine) (k : ℕ)
    → held k (finish_market req m id remaining fills e).1 ≡ held k e
unfolding finish_market set_status fetch_order
finish_market-held req m id remaining fills e k = ground (
  arith,
  unfreeze-total req.user_address (lock_token m req.side)
      (market_lock req.side (pos_part remaining)) k e.tables.balances,
)

settle_market-held :
    (d : Decimals) (ids : ℕ → ℕ) (req : PlaceOrderRequest) (m : SpotMarket) (amount : ℕ)
    (balances : Balances) (e : SpotEngine) (k : ℕ)
    → NoRebate m
    → held k (settle_market d ids req m amount balances e).1 ≤ℤ total k balances
unfolding settle_market
settle_market-held d ids req m amount balances e k fair =
    let taken = match_market d req m amount e in
    let matched = after_market_match d ids req m amount balances e in
    let after = wanted_after req.side amount taken.remaining in
    let settled = commit_hits d ids req m after taken.hits 0 0 0 matched in
    let next = finish_market req m (ids 0) taken.remaining in
    leb_trans (held k (if_placed settled next).1) (held k settled.1) (total k balances)
      (if_placed-held k settled next λ fills e'.
        leb_of_eq (held k (next fills e').1) (held k e')
          (finish_market-held req m (ids 0) taken.remaining fills e' k))
      (commit_hits-held d ids req m after taken.hits 0 0 0 matched k fair)

run_market-held :
    (d : Decimals) (ids : ℕ → ℕ) (req : PlaceOrderRequest) (m : SpotMarket) (amount : ℕ)
    (e : SpotEngine) (k : ℕ)
    → NoRebate m
    → held k (run_market d ids req m amount e).1 ≤ℤ held k e
unfolding run_market
run_market-held d ids req m amount e k fair =
    elim (Option-cases (
      freeze req.user_address (lock_token m req.side) (market_lock req.side amount)
        e.tables.balances)) [
          | inl none_frozen ↦ ground arith
          | inr (balances, frozen) ↦ ground (
            arith,
            settle_market-held d ids req m amount balances e k fair,
            freeze-total req.user_address (lock_token m req.side) (market_lock req.side amount) k
                e.tables.balances balances frozen,
          )
        ]

pub place_market-held :
    (d : Decimals) (ids : ℕ → ℕ) (req : PlaceOrderRequest) (m : SpotMarket) (e : SpotEngine) (k : ℕ)
    → NoRebate m
    → held k (place_market d ids req m e).1 ≤ℤ held k e
unfolding place_market
place_market-held d ids req m e k fair = elim (Option-cases req.quantity) [
  | inl no_qty ↦ elim (Option-cases req.quote_quantity) [
    | inl no_quote ↦ ground arith
    | inr (q, has_quote) ↦ ground (arith, run_market-held d ids req m q e k fair)
  ]
  | inr (qty, has_qty) ↦ elim (Option-cases req.quote_quantity) [
    | inl no_quote ↦ ground (arith, run_market-held d ids req m qty e k fair)
    | inr (q, has_quote) ↦
        ground
          (arith, run_market-held d ids req m q e k fair, run_market-held d ids req m qty e k fair)
  ]
]
