-- ===== src/Matching/Fill/Amounts.antt =====
-- What the loops of `match_order` do to amounts.
use riabow_dex_backend.Prelude.{
  ℕ, ◌+◌, ◌-◌, ◌≡◌, refl, arith, List, [], ◌∷◌, sum_by, sum_by-append, min,
}
use riabow_dex_backend.Decimals.{Decimals}
use riabow_dex_backend.Matching.Types.{OrderEntry, TradeExecution, PriceLevel}
use riabow_dex_backend.Matching.Fill.{
  Queue, Levels, Taker, Matching, execution, record_trade, drop_maker, fill_queue, fill_levels,
  keep_level,
}

-- The amount of a list of trades, of a queue, of a side of the book.
abbrev pub traded : List TradeExecution → ℕ
traded = sum_by λ t. t.amount

abbrev pub queued : Queue → ℕ
queued = sum_by λ o. o.remaining_amount

abbrev pub offered : Levels → ℕ
offered = sum_by λ l. queued l.1

module _ (d : Decimals) (t : Taker) where
  pub record_trade-amounts :
      (s : Matching) (m : OrderEntry)
      → (traded (record_trade d t s m).trades + (record_trade d t s m).amount
          ≡ traded s.trades + s.amount)
        × ((record_trade d t s m).amount ≡ s.amount - min s.amount m.remaining_amount)
        × (traded (record_trade d t s m).trades ≡ traded s.trades + min s.amount m.remaining_amount)
  unfolding record_trade
  record_trade-amounts s m =
      let e = sum_by-append (λ (t : TradeExecution). t.amount) s.trades (execution d t s m ∷ []) in
      (omega (arith, e), refl, omega (arith, e))

  -- What is traded comes off the taker and off the queue.
  pub fill_queue-amounts :
      (s : Matching) (q : Queue)
      → let (s', q') = fill_queue d t s q in
        (traded s'.trades + s'.amount ≡ traded s.trades + s.amount)
        × (traded s'.trades + queued q' ≡ traded s.trades + queued q)
  unfolding fill_queue drop_maker
  fill_queue-amounts s [] = (refl, refl)
  fill_queue-amounts s (m ∷ q) = ground (
    arith,
    record_trade-amounts s m,
    fill_queue-amounts (drop_maker d t (record_trade d t s m) m) q,
  )

  -- No maker is left in front of a taker that is not satisfied, and the taker gets what there is.
  pub fill_queue-left :
      (s : Matching) (q : Queue) → (fill_queue d t s q).0.amount ≡ s.amount - queued q
  unfolding fill_queue drop_maker
  fill_queue-left s [] = omega arith
  fill_queue-left s (m ∷ q) =
      ground (
        arith,
        record_trade-amounts s m,
        fill_queue-left (drop_maker d t (record_trade d t s m) m) q,
      )

  -- A taker that is satisfied passes through a queue and leaves it as it is.
  pub fill_queue_done : (s : Matching) (q : Queue) → s.amount ≡ 0 → fill_queue d t s q ≡ (s, q)
  unfolding fill_queue
  fill_queue_done s [] h = refl
  fill_queue_done s (m ∷ q) h = ground arith

  pub offered-keep_level :
      (l : PriceLevel) (q : Queue) (rest : Levels)
      → offered (keep_level d t l q rest) ≡ queued q + offered rest
  offered-keep_level l [] rest = omega arith
  offered-keep_level l (m ∷ q) rest = refl

  -- What is traded comes off the taker and off the side of the book.
  pub fill_levels-amounts :
      (s : Matching) (levels : Levels)
      → let (s', levels') = fill_levels d t s levels in
        (traded s'.trades + s'.amount ≡ traded s.trades + s.amount)
        × (traded s'.trades + offered levels' ≡ traded s.trades + offered levels)
  unfolding fill_levels
  fill_levels-amounts s [] = (refl, refl)
  fill_levels-amounts s ((l, q) ∷ levels) =
      let rest = fill_levels d t (fill_queue d t s q).0 levels in
      ground (
        arith,
        fill_queue-amounts s q,
        fill_levels-amounts (fill_queue d t s q).0 levels,
        offered-keep_level l (fill_queue d t s q).1 rest.1,
      )
