-- ===== src/Matching/Fill/Priority.antt =====
-- The loop over the levels against one queue in price-time priority.
use riabow_dex_backend.Prelude.{
  ℕ, ◌+◌, ◌-◌, ◌≡◌, refl, arith, List, [], ◌∷◌, ◌++◌, sum_by-append, min, inl, inr, Bool-cases,
  ◌==◌, if◌then◌else◌, map, append_assoc, append-nil, ap, map-append, leb, sym, ◌∙◌,
}
use riabow_dex_backend.Decimals.{Decimals}
use riabow_dex_backend.Matching.Types.{Uuid, OrderEntry, TradeExecution, PriceLevel}
use riabow_dex_backend.Matching.Fill.{
  Queue, Levels, Taker, Matching, execution, record_trade, drop_maker, fill_queue, fill_levels,
  keep_level, beyond_limit, fillable_from,
}
use riabow_dex_backend.Matching.Fill.Amounts.{queued, fill_queue-left, fill_queue_done}

-- The orders of a side, best price first and in each level the oldest first.
abbrev pub flatten : Levels → Queue
flatten [] = []
flatten ((l, q) ∷ levels) = q ++ flatten levels

-- The levels that the taker's limit lets it reach, and those behind them.
abbrev pub reachable : Taker → Levels → Levels
reachable t [] = []
reachable t ((l, q) ∷ levels) =
    if beyond_limit t.side t.limit_price l then [] else (l, q) ∷ reachable t levels

abbrev pub unreachable : Taker → Levels → Levels
unreachable t [] = []
unreachable t ((l, q) ∷ levels) =
    if beyond_limit t.side t.limit_price l then (l, q) ∷ levels else unreachable t levels

-- Greedy allotment: each order in turn gives what it has, as long as something is still wanted.
abbrev pub allot : ℕ → Queue → List (Uuid × ℕ)
allot amount [] = []
allot amount (m ∷ q) =
    if amount == 0
    then []
    else (m.id, min amount m.remaining_amount) ∷ allot (amount - min amount m.remaining_amount) q

abbrev pub parts : List TradeExecution → List (Uuid × ℕ)
parts = map λ t. (t.maker_order_id, t.amount)

-- The queue that stays behind when an amount is taken from its front.
abbrev pub leftover : ℕ → Queue → Queue
leftover amount [] = []
leftover amount (m ∷ q) =
    if amount == 0
    then m ∷ q
    else if m.remaining_amount - min amount m.remaining_amount == 0
    then leftover (amount - min amount m.remaining_amount) q
    else record m { remaining_amount = m.remaining_amount - min amount m.remaining_amount } ∷ q

allot_done : (amount : ℕ) (q : Queue) → amount ≡ 0 → allot amount q ≡ []
allot_done amount [] h = refl
allot_done amount (m ∷ q) h = ground arith

flatten-reachable :
    (t : Taker) (levels : Levels)
    → flatten (reachable t levels) ++ flatten (unreachable t levels) ≡ flatten levels
flatten-reachable t [] = refl
flatten-reachable t ((l, q) ∷ levels) = elim (Bool-cases (beyond_limit t.side t.limit_price l)) [
  | inl e ↦ rw e refl
  | inr e ↦ rw e (append_assoc q _ _ ∙ ap (◌++◌ q) (flatten-reachable t levels))
]

module _ (d : Decimals) (t : Taker) where
  -- Filling a longer queue is filling its parts in turn.
  fill_queue-append :
      (s : Matching) (p q : Queue)
      → let (s', p') = fill_queue d t s p in
        let (s'', q') = fill_queue d t s' q in fill_queue d t s (p ++ q) ≡ (s'', p' ++ q')
  unfolding fill_queue
  fill_queue-append s [] q = refl
  fill_queue-append s (m ∷ p) q = ground (
    arith,
    fill_queue-append (drop_maker d t (record_trade d t s m) m) p q,
    fill_queue_done d t s q,
    fill_queue_done d t (record_trade d t s m) q,
  )

  flatten-keep_level :
      (l : PriceLevel) (q : Queue) (rest : Levels)
      → flatten (keep_level d t l q rest) ≡ q ++ flatten rest
  flatten-keep_level l [] rest = refl
  flatten-keep_level l (m ∷ q) rest = refl

  -- Filling level by level is filling the one queue of all orders that the limit lets it reach,
  -- the best price first and in each level the oldest first; what is behind the limit stays.
  pub fill_levels-flatten :
      (s : Matching) (levels : Levels)
      → let (s', levels') = fill_levels d t s levels in
        let (s'', q) = fill_queue d t s (flatten (reachable t levels)) in
        (s' ≡ s'') × (flatten levels' ≡ q ++ flatten (unreachable t levels))
  unfolding fill_levels
  fill_levels-flatten s [] = (refl, refl)
  fill_levels-flatten s ((l, q) ∷ levels) =
      let rest = fill_levels d t (fill_queue d t s q).0 levels in
      ground (
        arith,
        fill_queue_done d t s (flatten (reachable t ((l, q) ∷ levels))),
        flatten-reachable t ((l, q) ∷ levels),
        fill_queue-append s q (flatten (reachable t levels)),
        fill_levels-flatten (fill_queue d t s q).0 levels,
        flatten-keep_level l (fill_queue d t s q).1 rest.1,
        append_assoc (fill_queue d t s q).1
            (fill_queue d t (fill_queue d t s q).0 (flatten (reachable t levels))).1
            (flatten (unreachable t levels)),
      )

  record_trade-parts :
      (s : Matching) (m : OrderEntry)
      → parts (record_trade d t s m).trades
        ≡ parts s.trades ++ (m.id, min s.amount m.remaining_amount) ∷ []
  unfolding record_trade
  record_trade-parts s m =
      map-append (λ (t : TradeExecution). (t.maker_order_id, t.amount)) s.trades
        (execution d t s m ∷ [])

  -- The trades of a queue are the greedy allotment of the taker's amount, and what stays behind
  -- is what that leaves.
  fill_queue-allot :
      (s : Matching) (q : Queue)
      → let (s', q') = fill_queue d t s q in
        (parts s'.trades ≡ parts s.trades ++ allot s.amount q) × (q' ≡ leftover s.amount q)
  unfolding fill_queue
  fill_queue-allot s [] = (sym (append-nil _), refl)
  fill_queue-allot s (m ∷ q) = ground (
    arith,
    record_trade-parts s m,
    allot_done (s.amount - min s.amount m.remaining_amount) q,
    append-nil (parts s.trades),
    append_assoc (parts s.trades) ((m.id, min s.amount m.remaining_amount) ∷ [])
        (allot (s.amount - min s.amount m.remaining_amount) q),
    fill_queue-allot (drop_maker d t (record_trade d t s m) m) q,
  )

  -- The trades against a side of the book are the greedy allotment of the taker's amount to the
  -- orders that its limit lets it reach, in price-time priority; the orders that stay behind are
  -- what that allotment leaves, followed by those behind the limit.
  pub fill_levels-allot :
      (s : Matching) (levels : Levels)
      → let (s', levels') = fill_levels d t s levels in
        (parts s'.trades ≡ parts s.trades ++ allot s.amount (flatten (reachable t levels)))
        × (flatten levels'
            ≡ leftover s.amount (flatten (reachable t levels)) ++ flatten (unreachable t levels))
        × (s'.amount ≡ s.amount - queued (flatten (reachable t levels)))
  fill_levels-allot s levels = ground (
    arith,
    fill_levels-flatten s levels,
    fill_queue-allot s (flatten (reachable t levels)),
    fill_queue-left d t s (flatten (reachable t levels)),
  )

  -- The amount that the fill-or-kill check finds is enough exactly if the reachable orders are.
  pub fillable_from-enough :
      (acc : ℕ) (levels : Levels)
      → leb t.amount (fillable_from d t acc levels)
        ≡ leb t.amount (acc + queued (flatten (reachable t levels)))
  unfolding fillable_from
  fillable_from-enough acc [] = ground arith
  fillable_from-enough acc ((l, q) ∷ levels) = ground (
    arith,
    sum_by-append (λ (o : OrderEntry). o.remaining_amount) q (flatten (reachable t levels)),
    fillable_from-enough (acc + queued q) levels,
  )
