-- ===== src/Spot/Place/Safety.antt =====
-- Placing a limit order creates no funds, and a refusal leaves everything as it was.
use riabow_dex_backend.Prelude.{
  ℕ, suc, ◌+◌, ◌-◌, ◌*◌, ◌≡◌, ap, arith, List, [], ◌∷◌, Option-cases, inl, inr,
}
use riabow_dex_backend.Prelude.Int.{ℤ, pos, ◌+ℤ◌, ◌≤ℤ◌, +ℤ_parts, pos_part, neg_part}
use riabow_dex_backend.Decimals.{Decimals}
use riabow_dex_backend.Spot.Types.{SpotMarket, SpotTrade, PlaceOrderRequest}
use riabow_dex_backend.Spot.Ledger.{Balances, total, freeze, freeze-total, unfreeze-total}
use riabow_dex_backend.Spot.Settle.{commit_fill, Settled-cases}
use riabow_dex_backend.Spot.Settle.Conservation.{fees, NoRebate, fees_nonneg, commit_fill-conserves}
use riabow_dex_backend.Spot.Hits.{Hit}
use riabow_dex_backend.Spot.Engine.{
  SpotEngine, PlaceResult, if_placed, placed, refused, fetch_order, set_status, lock_token,
  lock_amount,
}
use riabow_dex_backend.Spot.Place.{
  commit_hits, after_fill, fill_inputs, run_limit, match_limit, after_match, settle_limit,
  place_limit, finish_limit, rest_order, cancel_rest,
}

-- What an engine's users hold of a token.
abbrev pub held : ℕ → SpotEngine → ℤ
held k e = total k e.tables.balances

pub leb_refl : (t : ℤ) → t ≤ℤ t
leb_refl t = omega arith

pub leb_trans : (r s t : ℤ) → r ≤ℤ s → s ≤ℤ t → r ≤ℤ t
leb_trans r s t h k = omega (arith, h, k)

pub leb_of_eq : (s t : ℤ) → s ≡ t → s ≤ℤ t
leb_of_eq s t h = ground arith

less_fees : (t' t x : ℤ) → pos 0 ≤ℤ x → t' +ℤ x ≡ t → t' ≤ℤ t
less_fees t' t x n h = omega (arith, n, +ℤ_parts t' x, ap pos_part h, ap neg_part h)

-- The state that a result leaves.
abbrev pub engine_of : {A : Type 0} → PlaceResult A × SpotEngine → SpotEngine
engine_of r = r.1

pub if_placed-held :
    {A B : Type 0} (k : ℕ) (r : PlaceResult A × SpotEngine)
    (next : A → SpotEngine → PlaceResult B × SpotEngine)
    → ((a : A) (e : SpotEngine) → held k (next a e).1 ≤ℤ held k e)
    → held k (if_placed r next).1 ≤ℤ held k r.1
if_placed-held k (placed a, e) next h = h a e
if_placed-held k (refused x, e) next h = leb_refl (held k e)

pub commit_hits-held :
    (d : Decimals) (ids : ℕ → ℕ) (req : PlaceOrderRequest) (market : SpotMarket) (after : ℕ → ℕ)
    (hits : List Hit) (n taken notional : ℕ) (e : SpotEngine) (k : ℕ)
    → NoRebate market
    → held k (commit_hits d ids req market after hits n taken notional e).1 ≤ℤ held k e
unfolding commit_hits after_fill fill_inputs
commit_hits-held d ids req market after [] n taken notional e k fair = leb_refl (held k e)
commit_hits-held d ids req market after (h ∷ hits) n taken notional e k fair =
    let f = fill_inputs d req market (ids 0) after h (taken + h.qty) (notional + h.qty * h.price) in
    elim (Settled-cases (commit_fill d f (ids (suc n)) e.tables)) [
      | inl (x, failed) ↦ ground (arith, failed)
      | inr ((c, tables), done) ↦ ground (
        arith,
        less_fees (total k tables.balances) (held k e) (fees d f k) (fees_nonneg d f k fair)
            (commit_fill-conserves d f (ids (suc n)) e.tables c tables done k),
        commit_hits-held d ids req market after hits (suc n) (taken + h.qty)
            (notional + h.qty * h.price) (after_fill req.side h c tables e) k fair,
      )
    ]

pub fetch_order-held :
    (id : ℕ) (fills : List SpotTrade) (e : SpotEngine) (k : ℕ)
    → held k (fetch_order id fills e).1 ≡ held k e
unfolding fetch_order
fetch_order-held id fills e k = ground arith

finish_limit-held :
    (req : PlaceOrderRequest) (market : SpotMarket) (id price qty remaining : ℕ)
    (fills : List SpotTrade) (e : SpotEngine) (k : ℕ)
    → held k (finish_limit req market id price qty remaining fills e).1 ≡ held k e
unfolding finish_limit rest_order cancel_rest set_status fetch_order
finish_limit-held req market id price qty remaining fills e k = ground (
  arith,
  unfreeze-total req.user_address (lock_token market req.side)
      (lock_amount req.side price remaining) k e.tables.balances,
)

settle_limit-held :
    (d : Decimals) (ids : ℕ → ℕ) (req : PlaceOrderRequest) (market : SpotMarket) (price qty : ℕ)
    (balances : Balances) (e : SpotEngine) (k : ℕ)
    → NoRebate market
    → held k (settle_limit d ids req market price qty balances e).1 ≤ℤ total k balances
unfolding settle_limit
settle_limit-held d ids req market price qty balances e k fair =
    let taken = match_limit d req price qty e in
    let matched = after_match d ids req price qty balances e in
    let settled = commit_hits d ids req market (λ t. qty - t) taken.hits 0 0 0 matched in
    let next = finish_limit req market (ids 0) price qty taken.taker_remaining in
    leb_trans (held k (if_placed settled next).1) (held k settled.1) (total k balances)
      (if_placed-held k settled next λ fills e'.
        leb_of_eq (held k (next fills e').1) (held k e')
          (finish_limit-held req market (ids 0) price qty taken.taker_remaining fills e' k))
      (commit_hits-held d ids req market (λ t. qty - t) taken.hits 0 0 0 matched k fair)

run_limit-held :
    (d : Decimals) (ids : ℕ → ℕ) (req : PlaceOrderRequest) (market : SpotMarket) (price qty : ℕ)
    (e : SpotEngine) (k : ℕ)
    → NoRebate market
    → held k (run_limit d ids req market price qty e).1 ≤ℤ held k e
unfolding run_limit
run_limit-held d ids req market price qty e k fair =
    elim (Option-cases (
      freeze req.user_address (lock_token market req.side) (lock_amount req.side price qty)
        e.tables.balances)) [
          | inl none_frozen ↦ ground arith
          | inr (balances, frozen) ↦ ground (
            arith,
            settle_limit-held d ids req market price qty balances e k fair,
            freeze-total req.user_address (lock_token market req.side)
                (lock_amount req.side price qty) k e.tables.balances balances frozen,
          )
        ]

-- Placing a limit order in a market whose two fees are not negative never creates funds: for each
-- token, what all accounts hold of it, available or frozen, is afterwards at most what they held before, whether the order is placed or refused,
-- and also when the settlement of a later fill fails after earlier ones were committed.
pub place_limit-held :
    (d : Decimals) (ids : ℕ → ℕ) (req : PlaceOrderRequest) (market : SpotMarket) (e : SpotEngine)
    (k : ℕ)
    → NoRebate market
    → held k (place_limit d ids req market e).1 ≤ℤ held k e
unfolding place_limit
place_limit-held d ids req market e k fair = elim (Option-cases req.price) [
  | inl no_price ↦ ground arith
  | inr (price, has_price) ↦ elim (Option-cases req.quantity) [
    | inl no_qty ↦ ground arith
    | inr (qty, has_qty) ↦ ground (arith, run_limit-held d ids req market price qty e k fair)
  ]
]
