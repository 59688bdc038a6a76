-- ===== src/Spot/Hits.antt =====
-- backend/src/services/spot/matching/engine.rs: the match phase of `place_limit`, which takes from
-- the makers and notes a hit for each, before any of them is settled.
use riabow_dex_backend.Prelude.{
  ℕ, ◌+◌, ◌-◌, ◌*◌, ◌≡◌, arith, some, List, [], ◌∷◌, if◌then◌else◌, ◌==◌, min, sum_by,
  sum_by-append, Bool-cases, inl, inr, ◌++◌,
}
use riabow_dex_backend.Decimals.{Decimals}
use riabow_dex_backend.Spot.Types.{Side, RestingOrder}
use riabow_dex_backend.Spot.Book.{Level, is_takeable, takeable, resting_qty}

pub record Hit : Type 0 where
  pub id : ℕ
  pub price : ℕ
  pub qty : ℕ
  pub user : ℕ
  pub remaining_after : ℕ
  pub avg_after : ℕ

-- The hits, the makers as they are left, and the rest of the taker's quantity.
pub record Taken (A : Type 0) : Type 0 where
  pub hits : List Hit
  pub left : List A
  pub taker_remaining : ℕ

unfoldable pub hit_of : Decimals → RestingOrder → ℕ → Hit
hit_of d maker take =
    let new_remaining = maker.remaining_qty - take in
    let prev_notional = (maker.original_qty - maker.remaining_qty) * maker.price in
    let total_filled_after = maker.original_qty - new_remaining in
    record {
      id = maker.id;
      price = maker.price;
      qty = take;
      user = maker.user_address;
      remaining_after = new_remaining;
      avg_after =
          if total_filled_after == 0
          then 0
          else d.quotient (prev_notional + take * maker.price) total_filled_after;
    }

-- The loop over the makers of one level, and over the levels.
unfoldable pub take_queue : Decimals → ℕ → List RestingOrder → Taken RestingOrder
unfolding hit_of
take_queue d remaining [] = record { hits = []; left = []; taker_remaining = remaining }
take_queue d remaining (maker ∷ makers) =
    let quantity = min remaining maker.remaining_qty in
    let rest = take_queue d (remaining - quantity) makers in
    if remaining == 0
    then record { hits = []; left = maker ∷ makers; taker_remaining = 0 }
    else record {
      hits = hit_of d maker quantity ∷ rest.hits;
      left = record maker { remaining_qty = maker.remaining_qty - quantity } ∷ rest.left;
      taker_remaining = rest.taker_remaining;
    }

unfoldable pub take_levels : Decimals → Side → ℕ → ℕ → List Level → Taken Level
unfolding take_queue is_takeable
take_levels d side limit remaining [] = record { hits = []; left = []; taker_remaining = remaining }
take_levels d side limit remaining (l ∷ levels) =
    let here = take_queue d remaining l.orders in
    let rest = take_levels d side limit here.taker_remaining levels in
    if is_takeable side (some limit) l.price
    then record {
      hits = here.hits ++ rest.hits;
      left = record l { orders = here.left } ∷ rest.left;
      taker_remaining = rest.taker_remaining;
    }
    else record { hits = []; left = l ∷ levels; taker_remaining = remaining }

abbrev pub hit_qty : List Hit → ℕ
hit_qty hits = sum_by (λ h. h.qty) hits

-- What a side offers within a limit.
abbrev pub offered : Side → ℕ → List Level → ℕ
offered side limit levels = resting_qty (takeable side (some limit) levels)

take_queue-conserves :
    (d : Decimals) (remaining : ℕ) (makers : List RestingOrder)
    → (hit_qty (take_queue d remaining makers).hits ≡ min remaining (resting_qty makers))
      × (hit_qty (take_queue d remaining makers).hits
            + (take_queue d remaining makers).taker_remaining
          ≡ remaining)
      × (resting_qty (take_queue d remaining makers).left
            + hit_qty (take_queue d remaining makers).hits
          ≡ resting_qty makers)
unfolding take_queue hit_of
take_queue-conserves d r [] = ground arith
take_queue-conserves d r (m ∷ ms) =
    ground (arith, take_queue-conserves d (r - min r m.remaining_qty) ms)

abbrev pub side_qty : List Level → ℕ
side_qty levels = sum_by (λ l. resting_qty l.orders) levels

-- The match phase of a limit order hits exactly as much as its quantity and the offer within its
-- limit allow; the hits and the rest make up the quantity; and the makers give what is hit.
pub take_levels-conserves :
    (d : Decimals) (side : Side) (limit remaining : ℕ) (levels : List Level)
    → (hit_qty (take_levels d side limit remaining levels).hits
        ≡ min remaining (offered side limit levels))
      × (hit_qty (take_levels d side limit remaining levels).hits
            + (take_levels d side limit remaining levels).taker_remaining
          ≡ remaining)
      × (side_qty (take_levels d side limit remaining levels).left
            + hit_qty (take_levels d side limit remaining levels).hits
          ≡ side_qty levels)
unfolding take_levels takeable
take_levels-conserves d side limit r [] = ground arith
take_levels-conserves d side limit r (l ∷ levels) =
    elim (Bool-cases (is_takeable side (some limit) l.price)) [
      | inl e ↦ ground (
        arith,
        take_queue-conserves d r l.orders,
        take_levels-conserves d side limit (take_queue d r l.orders).taker_remaining levels,
        sum_by-append (λ h. h.qty) (take_queue d r l.orders).hits
            (take_levels d side limit (take_queue d r l.orders).taker_remaining levels).hits,
        sum_by-append (λ o. o.remaining_qty) l.orders (takeable side (some limit) levels),
      )
      | inr e ↦ ground arith
    ]
