-- ===== src/Matching/Orderbook/Match.antt =====
-- What `match_order` promises.
use riabow_dex_backend.Prelude.{
  ℕ, ◌+◌, ◌-◌, ◌≡◌, ◌≤◌, ◌<◌, ◌⊎◌, refl, sym, arith, [], ◌++◌, reverse, sum_by-reverse, ◌&&◌, ltb,
  Bool, false, reverse-reverse,
}
use riabow_dex_backend.Decimals.{Decimals}
use riabow_dex_backend.Matching.Types.{Side, buy, sell, fok}
use riabow_dex_backend.Matching.Fill.{
  Queue, Level, Levels, Taker, Matching, fill_levels, fillable_from,
}
use riabow_dex_backend.Matching.Fill.Amounts.{traded, queued, offered, fill_levels-amounts}
use riabow_dex_backend.Matching.Fill.Priority.{
  flatten, reachable, unreachable, allot, parts, leftover, fill_levels-allot, fillable_from-enough,
}
use riabow_dex_backend.Matching.Orderbook.{
  Orderbook, match_order, opposite_levels, start_matching, commit_matching, is_fok, bid_depth,
  ask_depth,
}

-- The amount on the side that a taker meets, and on its own side.
abbrev pub opposite_depth : Side → Orderbook → ℕ
opposite_depth buy b = ask_depth b
opposite_depth sell b = bid_depth b

abbrev pub own_depth : Side → Orderbook → ℕ
own_depth buy b = bid_depth b
own_depth sell b = ask_depth b

-- The reachable orders of a taker, in price-time priority.
abbrev pub takeable : Taker → Orderbook → Queue
takeable t b = flatten (reachable t (opposite_levels t.side b))

abbrev pub untakeable : Taker → Orderbook → Queue
untakeable t b = flatten (unreachable t (opposite_levels t.side b))

-- The fill-or-kill check fails: the taker wants all or nothing and cannot have all.
abbrev pub kills : Decimals → Taker → Orderbook → Bool
kills d t b =
    is_fok t.time_in_force && ltb (fillable_from d t 0 (opposite_levels t.side b)) t.amount

offered-reverse : (levels : Levels) → offered (reverse levels) ≡ offered levels
offered-reverse = sum_by-reverse (λ (l : Level). queued l.1)

opposite_depth-commit_matching :
    (side : Side) (s : Matching) (levels : Levels) (b : Orderbook)
    → (opposite_depth side (commit_matching side s levels b) ≡ offered levels)
      × (own_depth side (commit_matching side s levels b) ≡ own_depth side b)
      × (opposite_depth side b ≡ offered (opposite_levels side b))
unfolding bid_depth ask_depth
opposite_depth-commit_matching buy s levels b = (refl, refl, refl)
opposite_depth-commit_matching sell s levels b =
    (offered-reverse levels, refl, sym (offered-reverse b.bids))

opposite_levels-commit_matching :
    (side : Side) (s : Matching) (levels : Levels) (b : Orderbook)
    → opposite_levels side (commit_matching side s levels b) ≡ levels
opposite_levels-commit_matching buy s levels b = refl
opposite_levels-commit_matching sell s levels b = reverse-reverse levels

module _ (d : Decimals) (t : Taker) (b : Orderbook) where
  -- What is traded and what is left make up the taker's amount, what is traded leaves the side
  -- of the book that the taker meets, and the depth of its own side does not change.
  pub match_order-conserves :
      let (trades, left, b') = match_order d t b in
      (traded trades + left ≡ t.amount)
      × (opposite_depth t.side b' + traded trades ≡ opposite_depth t.side b)
      × (own_depth t.side b' ≡ own_depth t.side b)
  unfolding match_order
  match_order-conserves =
      let levels = opposite_levels t.side b in
      let r = fill_levels d t (start_matching t b) levels in
      ground (
        arith,
        fill_levels-amounts d t (start_matching t b) levels,
        opposite_depth-commit_matching t.side r.0 r.1 b,
      )

  -- The fill-or-kill check fails exactly if a fill-or-kill taker asks for more than the orders that
  -- its limit lets it reach hold together.
  kills_lem : kills d t b ≡ (is_fok t.time_in_force && ltb (queued (takeable t b)) t.amount)
  kills_lem = ground (arith, fillable_from-enough d t 0 (opposite_levels t.side b))

  -- A fill-or-kill order is filled to the last unit, or there is no trade, the whole amount is
  -- left and the book is as it was; the second happens exactly if the orders that its limit lets
  -- it reach hold less than it asks for.
  pub match_order-fill_or_kill :
      t.time_in_force ≡ fok
      → let (trades, left, b') = match_order d t b in
        ((t.amount ≤ queued (takeable t b)) × (left ≡ 0) × (traded trades ≡ t.amount))
        ⊎ ((queued (takeable t b) < t.amount) × (trades ≡ []) × (left ≡ t.amount) × (b' ≡ b))
  unfolding match_order
  match_order-fill_or_kill e =
      let levels = opposite_levels t.side b in
      ground (
        arith,
        kills_lem,
        fill_levels-allot d t (start_matching t b) levels,
        fill_levels-amounts d t (start_matching t b) levels,
      )

  -- Unless the order is killed, its trades are the greedy allotment of its amount to the orders
  -- that its limit lets it reach, in price-time priority. Those orders lose what is allotted,
  -- those behind the limit stay, and the amount that is left is what they could not serve.
  pub match_order-allot :
      kills d t b ≡ false
      → let (trades, left, b') = match_order d t b in
        (parts trades ≡ allot t.amount (takeable t b))
        × (flatten (opposite_levels t.side b') ≡ leftover t.amount (takeable t b) ++ untakeable t b)
        × (left ≡ t.amount - queued (takeable t b))
  unfolding match_order
  match_order-allot e =
      let levels = opposite_levels t.side b in
      let r = fill_levels d t (start_matching t b) levels in
      ground (
        arith,
        fill_levels-allot d t (start_matching t b) levels,
        opposite_levels-commit_matching t.side r.0 r.1 b,
      )
