-- ===== src/Matching/Engine/Uncrossed.antt =====
-- The book never crosses: no bid stands above an ask.
use riabow_dex_backend.Prelude.{
  ℕ, ◌≡◌, ◌<◌, refl, sym, arith, [], ◌∷◌, All, All-reverse, Bool-cases, true, false, some, is_some,
  inl, inr, subst, ap, reverse,
}
use riabow_dex_backend.Prelude.Int.{◌≤ℤ◌, ◌<ℤ◌, ltb_ℤ, ◌==ℤ◌}
use riabow_dex_backend.Decimals.{Decimals}
use riabow_dex_backend.Matching.Types.{Side, buy, sell, OrderEntry, PriceLevel, from_decimal}
use riabow_dex_backend.Matching.Fill.{Taker, Levels, fill_levels, beyond_limit}
use riabow_dex_backend.Matching.Fill.Limits.{
  Fits, beyond_limit-buy, beyond_limit-sell, fill_levels-unreachable,
}
use riabow_dex_backend.Matching.Fill.Priority.{unreachable}
use riabow_dex_backend.Matching.Levels.{push_level}
use riabow_dex_backend.Matching.Levels.Ordered.{Ascending, Descending, Sorted-reverse}
use riabow_dex_backend.Matching.Levels.Thins.{Thins, Thins-All, fill_levels-Thins}
use riabow_dex_backend.Matching.Orderbook.{
  Orderbook, match_order, add_order, start_matching, opposite_levels, commit_matching, resting,
  with_resting,
}
use riabow_dex_backend.Matching.Orderbook.Match.{kills}
use riabow_dex_backend.Matching.Orderbook.Invariant.{WellFormed}
use riabow_dex_backend.Matching.Engine.{
  Submission, taker_of, process_order, filled_amount_of, rest_order, rest_at, entry_of,
}
use riabow_dex_backend.Matching.Engine.Submit.{place_residual_cases, rests}

-- All levels of the bids stand at or below all levels of the asks.
abbrev pub Below : Levels → Levels → Type 0
Below bids asks = All (λ x. All (λ y. x.0 ≤ℤ y.0) asks) bids

abbrev pub Uncrossed : Orderbook → Type 0
Uncrossed b = Below b.bids b.asks

-- A key of the levels after a push is the pushed one or was there before.
push_level-All :
    (P : PriceLevel → Type 0) (l : PriceLevel) (e : OrderEntry) (levels : Levels)
    → P l
    → All (λ y. P y.0) levels
    → All (λ y. P y.0) (push_level l e levels)
unfolding push_level
push_level-All P l e [] p h = (p, tt)
push_level-All P l e (x ∷ levels) p h = elim (Bool-cases (l ==ℤ x.0)) [
  | inl same ↦ rw same h
  | inr other ↦ elim (Bool-cases (ltb_ℤ l x.0)) [
    | inl before ↦ rw (other, before) (p, h)
    | inr after ↦ rw (other, after) (h.0, push_level-All P l e levels p h.1)
  ]
]

Below-push_ask :
    (l : PriceLevel) (e : OrderEntry) (bids asks : Levels)
    → Below bids asks
    → All (λ x. x.0 ≤ℤ l) bids
    → Below bids (push_level l e asks)
Below-push_ask l e [] asks h k = tt
Below-push_ask l e (x ∷ bids) asks h k =
    (push_level-All (λ n. x.0 ≤ℤ n) l e asks k.0 h.0, Below-push_ask l e bids asks h.1 k.1)

Below-Thins_asks :
    (bids : Levels) {asks asks' : Levels} → Thins asks asks' → Below bids asks → Below bids asks'
Below-Thins_asks [] t h = tt
Below-Thins_asks (x ∷ bids) t h =
    (Thins-All (λ _ _. Unit) (λ n. x.0 ≤ℤ n) t h.0, Below-Thins_asks bids t h.1)

All-above :
    (l n : PriceLevel) (levels : Levels)
    → l <ℤ n
    → All (λ y. n <ℤ y.0) levels
    → All (λ y. l <ℤ y.0) levels
All-above l n [] h a = tt
All-above l n (x ∷ levels) h a = (omega arith, All-above l n levels h a.1)

All-below :
    (l n : PriceLevel) (levels : Levels)
    → n ≤ℤ l
    → All (λ y. y.0 <ℤ n) levels
    → All (λ y. y.0 ≤ℤ l) levels
All-below l n [] h a = tt
All-below l n (x ∷ levels) h a = (omega arith, All-below l n levels h a.1)

-- Behind the first level that is beyond the limit all levels are beyond it.
module _ (t : Taker) (limit : ℕ) (e : t.limit_price ≡ some limit) (f : Fits limit) where
  beyond_at :
      (side : Side) (l : PriceLevel)
      → t.side ≡ side
      → beyond_limit t.side t.limit_price l ≡ true
      → beyond_limit side (some limit) l ≡ true
  beyond_at side l s b = rw (s, e) at b

  unreachable-Beyond_buy :
      (levels : Levels)
      → t.side ≡ buy
      → Ascending levels
      → All (λ y. from_decimal limit <ℤ y.0) (unreachable t levels)
  unreachable-Beyond_buy [] s a = tt
  unreachable-Beyond_buy (x ∷ levels) s a =
      elim (Bool-cases (beyond_limit t.side t.limit_price x.0)) [
        | inl b ↦
            let h = beyond_limit-buy limit x.0 f (beyond_at buy x.0 s b) in
            rw b (h, All-above (from_decimal limit) x.0 levels h a.0)
        | inr b ↦ rw b (unreachable-Beyond_buy levels s a.1)
      ]

  unreachable-Beyond_sell :
      (levels : Levels)
      → t.side ≡ sell
      → Descending levels
      → All (λ y. y.0 ≤ℤ from_decimal limit) (unreachable t levels)
  unreachable-Beyond_sell [] s a = tt
  unreachable-Beyond_sell (x ∷ levels) s a =
      elim (Bool-cases (beyond_limit t.side t.limit_price x.0)) [
        | inl b ↦
            let h = beyond_limit-sell limit x.0 f (beyond_at sell x.0 s b) in
            rw b (h, All-below (from_decimal limit) x.0 levels h a.0)
        | inr b ↦ rw b (unreachable-Beyond_sell levels s a.1)
      ]

All-weaken :
    (l : PriceLevel) (levels : Levels) → All (λ y. l <ℤ y.0) levels → All (λ y. l ≤ℤ y.0) levels
All-weaken l [] h = tt
All-weaken l (x ∷ levels) h = (omega arith, All-weaken l levels h.1)

-- Where a residual at the limit may rest: at or below all asks, or at or above all bids.
abbrev pub Fitting : Side → PriceLevel → Orderbook → Type 0
Fitting buy l b = All (λ y. l ≤ℤ y.0) b.asks
Fitting sell l b = All (λ x. x.0 ≤ℤ l) b.bids

module _ (d : Decimals) (t : Taker) (b : Orderbook) (wf : WellFormed b) where
  -- Matching adds no level.
  match_order-Uncrossed : Uncrossed b → Uncrossed (match_order d t b).2
  unfolding match_order
  match_order-Uncrossed u = elim (Bool-cases (kills d t b)) [
    | inl killed ↦ rw killed u
    | inr goes ↦ rw goes (of_side t.side)
  ]
    where
      of_side :
          (side : Side)
          → Uncrossed (
              commit_matching side
                (fill_levels d t (start_matching t b) (opposite_levels side b)).0
                (fill_levels d t (start_matching t b) (opposite_levels side b)).1
                b)
      of_side buy = Below-Thins_asks b.bids (fill_levels-Thins d t (start_matching t b) b.asks) u
      of_side sell =
          let levels = reverse b.bids in
          All-reverse (λ x. All (λ y. x.0 ≤ℤ y.0) b.asks)
            (fill_levels d t (start_matching t b) levels).1
            (Thins-All (λ _ _. Unit) (λ n. All (λ y. n ≤ℤ y.0) b.asks)
              (fill_levels-Thins d t (start_matching t b) levels)
              (All-reverse (λ x. All (λ y. x.0 ≤ℤ y.0) b.asks) b.bids u))

  -- What is left of a taker with a limit fits into the book that it leaves.
  match_order-Fitting :
      (limit : ℕ)
      → t.limit_price ≡ some limit
      → Fits limit
      → kills d t b ≡ false
      → 0 < (match_order d t b).1
      → Fitting t.side (from_decimal limit) (match_order d t b).2
  unfolding match_order
  match_order-Fitting limit e f goes more = rw goes (of_side t.side refl (rw goes at more))
    where
      of_side :
          (side : Side)
          → t.side ≡ side
          → 0 < (fill_levels d t (start_matching t b) (opposite_levels side b)).0.amount
          → Fitting side (from_decimal limit) (
              commit_matching side
                (fill_levels d t (start_matching t b) (opposite_levels side b)).0
                (fill_levels d t (start_matching t b) (opposite_levels side b)).1
                b)
      of_side buy s m =
          subst (All (λ y. from_decimal limit ≤ℤ y.0))
            (sym (fill_levels-unreachable d t (start_matching t b) b.asks m))
            (All-weaken (from_decimal limit) (unreachable t b.asks)
              (unreachable-Beyond_buy t limit e f b.asks s wf.asks_ascend))
      of_side sell s m =
          let levels = reverse b.bids in
          All-reverse (λ x. x.0 ≤ℤ from_decimal limit)
            (fill_levels d t (start_matching t b) levels).1
            (subst (All (λ y. y.0 ≤ℤ from_decimal limit))
              (sym (fill_levels-unreachable d t (start_matching t b) levels m))
              (unreachable-Beyond_sell t limit e f levels s
                (Sorted-reverse ◌<ℤ◌ b.bids wf.bids_ascend)))

add_order-Uncrossed :
    (e : OrderEntry) (b : Orderbook)
    → Fitting e.side (from_decimal e.price) b
    → Uncrossed b
    → Uncrossed (add_order e b)
unfolding add_order
add_order-Uncrossed e b fit u = elim (Bool-cases (is_some (b.order_index e.id))) [
  | inl known ↦ rw known u
  | inr new ↦ rw new (of_side e.side fit)
]
  where
    l : PriceLevel
    l = from_decimal e.price

    of_side :
        (side : Side)
        → Fitting side l b
        → Uncrossed (with_resting side (push_level l e (resting side b)) b)
    of_side buy fit = push_level-All (λ n. All (λ y. n ≤ℤ y.0) b.asks) l e b.bids fit u
    of_side sell fit = Below-push_ask l e b.bids b.asks u fit

-- Submitting a valid order of a positive amount, whose limit fits into an `i64` of levels, to a
-- well-formed book in which no bid is above an ask leaves no bid above an ask.
pub process_order-Uncrossed :
    (d : Decimals) (o : Submission) (b : Orderbook) (limit : ℕ)
    → 0 < o.amount
    → o.price ≡ some limit
    → Fits limit
    → WellFormed b
    → Uncrossed b
    → Uncrossed (process_order d o b).2
unfolding process_order filled_amount_of
process_order-Uncrossed d o b limit p e f wf u =
    let t = taker_of o in
    let (trades, remaining, b') = match_order d t b in
    let u' : Uncrossed b' = match_order-Uncrossed d t b wf u in
    let residual : (r : ℕ) → rests o ≡ true → 0 < remaining → Uncrossed (rest_order o r b') =
      λ r resting more.
        let fit = match_order-Fitting d t b wf limit e f (rests-goes o resting) more in
        subst Uncrossed (ap (rest_at o r b') (sym e))
          (add_order-Uncrossed (entry_of o limit r) b' fit u') in
    place_residual_cases Uncrossed o (filled_amount_of o.amount remaining) remaining b' u'
      (residual remaining) (λ go none_filled. residual o.amount go (ground arith))
  where
    rests-goes : (o : Submission) → rests o ≡ true → kills d (taker_of o) b ≡ false
    rests-goes o go = ground arith
