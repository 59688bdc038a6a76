-- ===== src/Spot/MarketOrder/Taking.antt =====
-- What the match phase of a market order takes.
use riabow_dex_backend.Prelude.{
  ℕ, ◌+◌, ◌*◌, ◌/◌, ◌≡◌, ◌≤◌, refl, arith, Bool-cases, inl, inr, List, [], ◌∷◌, ◌++◌, sum_by,
  sum_by-append, min,
}
use riabow_dex_backend.Prelude.Int.{ℤ, pos, ◌-ℤ◌, int_laws, pos_part}
use riabow_dex_backend.Decimals.{Decimals}
use riabow_dex_backend.Spot.Types.{Side, buy, sell, RestingOrder}
use riabow_dex_backend.Spot.Book.{Level, resting_qty}
use riabow_dex_backend.Spot.Hits.{Hit, hit_of, hit_qty, side_qty}
use riabow_dex_backend.Spot.MarketOrder.{
  quantity_for, cost_for, ends_at, take_market_queue, take_market_levels,
}

-- What hits cost the taker: the quantities of a sale, the notionals of a purchase.
abbrev pub spent : Side → List Hit → ℕ
spent sell hits = sum_by (λ h. h.qty) hits
spent buy hits = sum_by (λ h. h.qty * h.price) hits

spent-append :
    (side : Side) (xs ys : List Hit) → spent side (xs ++ ys) ≡ spent side xs + spent side ys
spent-append sell xs ys = sum_by-append (λ h. h.qty) xs ys
spent-append buy xs ys = sum_by-append (λ h. h.qty * h.price) xs ys

spent-cons :
    (d : Decimals) (side : Side) (maker : RestingOrder) (quantity : ℕ) (hits : List Hit)
    → spent side (hit_of d maker quantity ∷ hits) ≡ cost_for side maker quantity + spent side hits
unfolding cost_for hit_of
spent-cons d sell maker quantity hits = refl
spent-cons d buy maker quantity hits = refl

floor_le : (n lot : ℕ) → n / lot * lot ≤ n
floor_le n lot = grind arith

quantity_bound :
    (d : Decimals) (side : Side) (lot : ℕ) (maker : RestingOrder) (remaining : ℤ)
    → quantity_for d side lot maker remaining ≤ maker.remaining_qty
unfolding quantity_for
quantity_bound d sell lot maker remaining = ground arith
quantity_bound d buy lot maker remaining =
    grind
      (arith, floor_le (min maker.remaining_qty (d.quotient (pos_part remaining) maker.price)) lot)

back : (r : ℤ) (c s : ℕ) → r -ℤ pos c -ℤ pos s ≡ r -ℤ pos (c + s)
back r c s = omega int_laws

nothing_spent : (side : Side) (r : ℤ) → r ≡ r -ℤ pos (spent side [])
nothing_spent buy r = omega int_laws
nothing_spent sell r = omega int_laws

hit_of-qty :
    (d : Decimals) (maker : RestingOrder) (quantity : ℕ) → (hit_of d maker quantity).qty ≡ quantity
unfolding hit_of
hit_of-qty d maker quantity = refl

take_market_queue-conserves :
    (d : Decimals) (side : Side) (lot : ℕ) (remaining : ℤ) (makers : List RestingOrder)
    → ((take_market_queue d side lot remaining makers).remaining
        ≡ remaining -ℤ pos (spent side (take_market_queue d side lot remaining makers).hits))
      × (resting_qty (take_market_queue d side lot remaining makers).left
            + hit_qty (take_market_queue d side lot remaining makers).hits
          ≡ resting_qty makers)
unfolding take_market_queue
take_market_queue-conserves d buy lot remaining [] = (omega int_laws, refl)
take_market_queue-conserves d sell lot remaining [] = (omega int_laws, refl)
take_market_queue-conserves d side lot remaining (maker ∷ makers) =
    let quantity = quantity_for d side lot maker remaining in
    let cost = cost_for side maker quantity in
    let rest = take_market_queue d side lot (remaining -ℤ pos cost) makers in
    elim (Bool-cases (ends_at side remaining quantity)) [
      | inl ended ↦ ground (arith, nothing_spent side remaining)
      | inr goes_on ↦ ground (
        arith,
        take_market_queue-conserves d side lot (remaining -ℤ pos cost) makers,
        spent-cons d side maker quantity rest.hits,
        hit_of-qty d maker quantity,
        quantity_bound d side lot maker remaining,
        back remaining cost (spent side rest.hits),
      )
    ]

-- The match phase of a market order spends exactly what it no longer has: the hits cost the difference
-- of what the taker had and what it has left, in the base token for a sale and in the quote token
-- for a purchase; and the makers give what is hit.
pub take_market_levels-conserves :
    (d : Decimals) (side : Side) (lot : ℕ) (remaining : ℤ) (levels : List Level)
    → ((take_market_levels d side lot remaining levels).remaining
        ≡ remaining -ℤ pos (spent side (take_market_levels d side lot remaining levels).hits))
      × (side_qty (take_market_levels d side lot remaining levels).left
            + hit_qty (take_market_levels d side lot remaining levels).hits
          ≡ side_qty levels)
unfolding take_market_levels
take_market_levels-conserves d side lot remaining [] = (nothing_spent side remaining, refl)
take_market_levels-conserves d side lot remaining (l ∷ levels) =
    let here = take_market_queue d side lot remaining l.orders in
    let rest = take_market_levels d side lot here.remaining levels in
    elim (Bool-cases here.ended) [
      | inl ended ↦ ground (arith, take_market_queue-conserves d side lot remaining l.orders)
      | inr goes_on ↦ ground (
        arith,
        take_market_queue-conserves d side lot remaining l.orders,
        take_market_levels-conserves d side lot here.remaining levels,
        spent-append side here.hits rest.hits,
        sum_by-append (λ h. h.qty) here.hits rest.hits,
        back remaining (spent side here.hits) (spent side rest.hits),
      )
    ]
