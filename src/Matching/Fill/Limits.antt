-- ===== src/Matching/Fill/Limits.antt =====
-- The taker's limit: at which levels it trades, and which levels are left when it wants more.
use riabow_dex_backend.Prelude.{
  ℕ, ◌+◌, ◌-◌, ◌/◌, ◌^◌, ◌≡◌, ◌≤◌, ◌<◌, refl, arith, List, [], ◌∷◌, All, All-append, min, true,
  false, inl, inr, Bool-cases, some, ◌==◌,
}
use riabow_dex_backend.Prelude.Int.{pos, negsuc, ◌<ℤ◌, ◌≤ℤ◌}
use riabow_dex_backend.Decimals.{Decimals}
use riabow_dex_backend.Matching.Types.{
  OrderEntry, TradeExecution, PriceLevel, from_decimal, to_decimal, Side, buy, sell, level_unit,
}
use riabow_dex_backend.Matching.Fill.{
  Queue, Levels, Taker, Matching, execution, record_trade, drop_maker, fill_queue, fill_levels,
  beyond_limit,
}
use riabow_dex_backend.Matching.Fill.Amounts.{fill_queue-left}
use riabow_dex_backend.Matching.Fill.Priority.{unreachable}

-- A price level that is not beyond the taker's limit.
abbrev pub Within : Taker → PriceLevel → Type 0
Within t l = beyond_limit t.side t.limit_price l ≡ false

abbrev pub Beyond : Taker → PriceLevel → Type 0
Beyond t l = beyond_limit t.side t.limit_price l ≡ true

-- The number of levels of a price fits into an `i64`.
abbrev pub Fits : ℕ → Type 0
Fits price = price / level_unit < 2 ^ 63

-- Every order stands at the level of its price, which fits.
abbrev pub Placed : Levels → Type 0
Placed = All (λ x. All (λ o. (from_decimal o.price ≡ x.0) × Fits o.price) x.1)

-- Trades at prices that fit, at levels within the limit.
abbrev pub Fair : Taker → List TradeExecution → Type 0
Fair t = All (λ tr. Within t (from_decimal tr.price) × Fits tr.price)

module _ (d : Decimals) (t : Taker) where
  record_trade-Fair :
      (s : Matching) (m : OrderEntry)
      → Fair t s.trades
      → Within t (from_decimal m.price) × Fits m.price
      → Fair t (record_trade d t s m).trades
  unfolding record_trade
  record_trade-Fair s m h w = All-append _ s.trades (execution d t s m ∷ []) h (w, tt)

  fill_queue-Fair :
      (l : PriceLevel) (s : Matching) (q : Queue)
      → Within t l
      → All (λ o. (from_decimal o.price ≡ l) × Fits o.price) q
      → Fair t s.trades
      → Fair t (fill_queue d t s q).0.trades
  unfolding fill_queue drop_maker
  fill_queue-Fair l s [] w p h = h
  fill_queue-Fair l s (m ∷ q) w p h =
      let w' : Within t (from_decimal m.price) × Fits m.price = (rw (p.0.0) w, p.0.1) in
      let h' : Fair t (record_trade d t s m).trades = record_trade-Fair s m h w' in
      elim (Bool-cases (s.amount == 0)) [
        | inl e ↦ rw e h
        | inr e ↦ elim (Bool-cases (m.remaining_amount - min s.amount m.remaining_amount == 0)) [
          | inl e' ↦
              rw (e, e') (fill_queue-Fair l (drop_maker d t (record_trade d t s m) m) q w p.1 h')
          | inr e' ↦ rw (e, e') h'
        ]
      ]

  -- Every trade is at a price whose level the taker's limit allows.
  pub fill_levels-Fair :
      (s : Matching) (levels : Levels)
      → Placed levels
      → Fair t s.trades
      → Fair t (fill_levels d t s levels).0.trades
  unfolding fill_levels
  fill_levels-Fair s [] p h = h
  fill_levels-Fair s ((l, q) ∷ levels) p h = elim (Bool-cases (s.amount == 0)) [
    | inl e ↦ rw e h
    | inr e ↦ elim (Bool-cases (beyond_limit t.side t.limit_price l)) [
      | inl e' ↦ rw (e, e') h
      | inr e' ↦
          rw (e, e')
            (fill_levels-Fair (fill_queue d t s q).0 levels p.1 (fill_queue-Fair l s q e' p.0 h))
    ]
  ]

  fill_queue-empty :
      (s : Matching) (q : Queue) → 0 < (fill_queue d t s q).0.amount → (fill_queue d t s q).1 ≡ []
  unfolding fill_queue record_trade
  fill_queue-empty s [] h = refl
  fill_queue-empty s (m ∷ q) h =
      ground (arith, fill_queue-empty (drop_maker d t (record_trade d t s m) m) q)

  fill_levels-le : (s : Matching) (levels : Levels) → (fill_levels d t s levels).0.amount ≤ s.amount
  unfolding fill_levels
  fill_levels-le s [] = omega arith
  fill_levels-le s ((l, q) ∷ levels) =
      ground (arith, fill_queue-left d t s q, fill_levels-le (fill_queue d t s q).0 levels)

  -- When the taker wants more than it got, the levels that are left are those behind its limit.
  pub fill_levels-unreachable :
      (s : Matching) (levels : Levels)
      → 0 < (fill_levels d t s levels).0.amount
      → (fill_levels d t s levels).1 ≡ unreachable t levels
  unfolding fill_levels
  fill_levels-unreachable s [] h = refl
  fill_levels-unreachable s ((l, q) ∷ levels) h = ground (
    arith,
    fill_queue-empty s q,
    fill_levels-le (fill_queue d t s q).0 levels,
    fill_levels-unreachable (fill_queue d t s q).0 levels,
  )

-- The level of a price, as long as its number of units fits into an `i64`.
pub from_decimal_small : (price : ℕ) → Fits price → from_decimal price ≡ pos (price / level_unit)
unfolding from_decimal
from_decimal_small price h = ground arith

-- A level beyond a buyer's limit is above the level of that limit; one beyond a seller's limit is
-- at most at the level of that limit.
pub beyond_limit-buy :
    (limit : ℕ) (l : PriceLevel)
    → Fits limit
    → beyond_limit buy (some limit) l ≡ true
    → from_decimal limit <ℤ l
unfolding beyond_limit to_decimal
beyond_limit-buy limit (pos n) h b = rw (from_decimal_small limit h) (ground arith)
beyond_limit-buy limit (negsuc n) h b = rw (from_decimal_small limit h) (ground arith)

pub beyond_limit-sell :
    (limit : ℕ) (l : PriceLevel)
    → Fits limit
    → beyond_limit sell (some limit) l ≡ true
    → l ≤ℤ from_decimal limit
unfolding beyond_limit to_decimal
beyond_limit-sell limit (pos n) h b = rw (from_decimal_small limit h) (ground arith)
beyond_limit-sell limit (negsuc n) h b = rw (from_decimal_small limit h) (ground arith)

-- What a limit within reach says of the price itself: a buyer pays less than one level more than
-- its limit, a seller gets its limit or more.
abbrev pub Respects : Side → ℕ → ℕ → Type 0
Respects buy limit price = price < limit + level_unit
Respects sell limit price = limit ≤ price

pub Within-Respects :
    (side : Side) (limit price : ℕ)
    → Fits price
    → beyond_limit side (some limit) (from_decimal price) ≡ false
    → Respects side limit price
unfolding beyond_limit to_decimal
Within-Respects buy limit price f w = let w' = rw (from_decimal_small price f) at w in ground arith
Within-Respects sell limit price f w = let w' = rw (from_decimal_small price f) at w in ground arith
