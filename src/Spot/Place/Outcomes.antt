-- ===== src/Spot/Place/Outcomes.antt =====
-- A refused limit order leaves everything as it was.
use riabow_dex_backend.Prelude.{
  ℕ, suc, ◌+◌, ◌-◌, ◌*◌, ◌≡◌, ◌≢◌, arith, List, [], ◌∷◌, Option-cases, inl, inr,
}
use riabow_dex_backend.Decimals.{Decimals}
use riabow_dex_backend.Spot.Types.{
  SpotMarket, SpotTrade, PlaceOrderRequest, PlaceOrderError, db_error,
}
use riabow_dex_backend.Spot.Ledger.{Balances, freeze}
use riabow_dex_backend.Spot.Settle.{commit_fill, Settled-cases}
use riabow_dex_backend.Spot.Hits.{Hit}
use riabow_dex_backend.Spot.Engine.{
  SpotEngine, PlaceResult, if_placed, placed, refused, fetch_order, lock_token, lock_amount,
}
use riabow_dex_backend.Spot.Place.{
  commit_hits, after_fill, fill_inputs, run_limit, match_limit, after_match, settle_limit,
  place_limit, finish_limit, rest_order, cancel_rest,
}

commit_hits-refused :
    (d : Decimals) (ids : ℕ → ℕ) (req : PlaceOrderRequest) (market : SpotMarket) (after : ℕ → ℕ)
    (hits : List Hit) (n taken notional : ℕ) (e : SpotEngine) (x : PlaceOrderError)
    → (commit_hits d ids req market after hits n taken notional e).0 ≡ refused x
    → x ≡ db_error
unfolding commit_hits
commit_hits-refused d ids req market after [] n taken notional e x r = absurd (ground arith)
commit_hits-refused d ids req market after (h ∷ hits) n taken notional e x r =
    let f = fill_inputs d req market (ids 0) after h (taken + h.qty) (notional + h.qty * h.price) in
    elim (Settled-cases (commit_fill d f (ids (suc n)) e.tables)) [
      | inl (y, failed) ↦ ground (arith, failed)
      | inr ((c, tables), done) ↦ ground (
        arith,
        commit_hits-refused d ids req market after hits (suc n) (taken + h.qty)
            (notional + h.qty * h.price) (after_fill req.side h c tables e) x,
      )
    ]

finish_limit-refused :
    (req : PlaceOrderRequest) (market : SpotMarket) (id price qty remaining : ℕ)
    (fills : List SpotTrade) (e : SpotEngine) (x : PlaceOrderError)
    → (finish_limit req market id price qty remaining fills e).0 ≡ refused x
    → x ≡ db_error
unfolding finish_limit rest_order cancel_rest fetch_order
finish_limit-refused req market id price qty remaining fills e x r = ground arith

if_placed-refused :
    {A B : Type 0} (x : PlaceOrderError) (r : PlaceResult A × SpotEngine)
    (next : A → SpotEngine → PlaceResult B × SpotEngine)
    → (r.0 ≡ refused x → x ≡ db_error)
    → ((a : A) (e : SpotEngine) → (next a e).0 ≡ refused x → x ≡ db_error)
    → (if_placed r next).0 ≡ refused x
    → x ≡ db_error
if_placed-refused x (placed a, e) next h k r = k a e r
if_placed-refused x (refused y, e) next h k r = h (ground arith)

settle_limit-refused :
    (d : Decimals) (ids : ℕ → ℕ) (req : PlaceOrderRequest) (market : SpotMarket) (price qty : ℕ)
    (balances : Balances) (e : SpotEngine) (x : PlaceOrderError)
    → (settle_limit d ids req market price qty balances e).0 ≡ refused x
    → x ≡ db_error
unfolding settle_limit
settle_limit-refused d ids req market price qty balances e x =
    let taken = match_limit d req price qty e in
    let matched = after_match d ids req price qty balances e in
    let settled = commit_hits d ids req market (λ t. qty - t) taken.hits 0 0 0 matched in
    let next = finish_limit req market (ids 0) price qty taken.taker_remaining in
    if_placed-refused x settled next
      (commit_hits-refused d ids req market (λ t. qty - t) taken.hits 0 0 0 matched x)
      (λ fills e'.
        finish_limit-refused req market (ids 0) price qty taken.taker_remaining fills e' x)

-- A limit order that is refused, for another reason than a failure of the database, leaves the book,
-- the tables, the counters and the events as they were.
pub place_limit-refused :
    (d : Decimals) (ids : ℕ → ℕ) (req : PlaceOrderRequest) (market : SpotMarket) (e : SpotEngine)
    (x : PlaceOrderError)
    → (place_limit d ids req market e).0 ≡ refused x
    → x ≢ db_error
    → (place_limit d ids req market e).1 ≡ e
unfolding place_limit run_limit
place_limit-refused d ids req market e x r not_db = elim (Option-cases req.price) [
  | inl no_price ↦ ground arith
  | inr (price, has_price) ↦ elim (Option-cases req.quantity) [
    | inl no_qty ↦ ground arith
    | inr (qty, has_qty) ↦
        elim (Option-cases (
          freeze req.user_address (lock_token market req.side) (lock_amount req.side price qty)
            e.tables.balances)) [
              | inl not_frozen ↦ ground arith
              | inr (balances, frozen) ↦
                  ground (arith, settle_limit-refused d ids req market price qty balances e x)
            ]
  ]
]
